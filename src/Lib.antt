-- ===== src/Lib.antt =====
-- LeanStock backend (app/): stock of several tenants in warehouses, moved by transfers, bought by
-- purchase orders, adjusted by hand and discounted when it does not sell.
--
-- Each request calls one function of app/services with a database session of its own. A service reads
-- rows, changes them, writes an audit log beside each change, commits, and then queues mails, each in
-- a transaction of its own with a task for the worker.
--
-- Prelude     numbers, tests and lists that all modules share
-- Errors      app/errors.py: AppException, the faults of SQLAlchemy, results
-- Table       tables as lists of rows: select, one, one_or_none, update and insert under unique
--             constraints; their laws in Table/Laws
-- Models      app/models: enumerations, rows, the database, unique constraints
-- Session     AsyncSession: the committed and the pending database, commit, rollback, the `try`
--             statement of the services; Session/Keeps has the rules for invariants, Session/Settle
--             what a transaction does by the answer to its commit
-- Audit       app/services/audit_service.py, build_audit_log
-- EmailJobs   app/services/email_job_service.py: create_email_job and the mails of the services
-- Stock       the queries that app/services/{transfer,procurement,inventory}_service.py share
-- Transfers   app/services/transfer_service.py: Bodies has the statements between the start of a
--             transaction and its commit (debit for create_transfer, credit for confirm_transfer,
--             restore for cancel_transfer), Transfers the operations around them
-- Procurement app/services/procurement_service.py: suppliers and purchase orders, laid out alike;
--             Lifecycle is the state machine of an order
-- Inventory   app/services/inventory_service.py: Adjust and Inventory for adjust_inventory and its
--             alerts, View for _serialize_inventory_row, Forecast for the figures of
--             forecast_reorder_suggestions, Reserve for reserve_stock
-- Decay       app/services/decay_service.py: Price has calculate_decay_price, Cycle the transaction of
--             run_decay_cycle; rows that `skip_locked` leaves out are an argument
-- Pagination  app/pagination.py, and list_transfers, list_suppliers, list_purchase_orders and
--             list_warehouses (app/services/catalog_service.py)
-- Catalog     app/services/catalog_service.py, laid out like Procurement; the database's collation is an
--             argument
-- Listings    list_products, list_inventory, list_email_jobs, list_audit_logs and the page of
--             forecast_reorder_suggestions, from the four services
-- EmailWorker app/tasks/email_task.py: send_email_job by its transactions and the mails that go out;
--             Steps has the deliveries of several workers at a time
-- Access      app/dependencies.py and app/core/rbac.py: get_current_user, require_roles; the token
--             library is an argument
-- Redis       what the services keep in Redis: keys with a time to live, GET, SETEX, DEL, INCR and
--             EXPIRE, and calls that use them
-- RateLimit   app/dependencies.py: rate_limit_dependency
-- Auth        app/services/auth_service.py and app/core/security.py: Checks and Tokens for login_user,
--             refresh_access_token and logout_user, OneTime and Spend for what the transactions of
--             accounts change, Accounts for register_user, verify_email, confirm_password_reset and the
--             other operations on accounts; Library is what jose, argon2, hashlib, hmac and uuid do
-- AuditTrail  what the audit log tells of the stock, across the services
-- Samples     a small shop on which tests and witnesses run
--
-- How the code is read. A call is a function from a session to a result and a session. The
-- environment of a call has the time (one for the whole call), the ids that it draws (the k-th is
-- `uuid4 k`; the audit log's own default id included), the random token and the salt that it draws, the
-- answer of PostgreSQL to each commit, and whether Celery takes a task. A commit is accepted, or
-- refused by a constraint because of what others have committed meanwhile (their database is part of
-- the answer), or fails otherwise; a constraint that the call's own rows break is found when the row
-- is inserted. A property that has to hold across commits of others asks that those commits keep it
-- too (`Relies`). A row lock makes a transaction see one state of the rows it locks, which is how every
-- transaction is read here, but for update_product_variant, which takes no lock: what others commit
-- between its query and its UPDATE is an argument (`meanwhile`). The calls that change or close a
-- warehouse, a product or a supplier take no lock either; they are read as if they did, and only
-- their effect on other tables is part of a property. `session.refresh` after a commit changes
-- nothing. Amounts are whole cents, and shown percentages hundredths of a percent. An id is a
-- number; its order is the order of the column. Mails are values that hold what the template shows,
-- not texts, and messages of exceptions are left out. A command of Redis is one step, and a lock of
-- Redis that is got makes the statements under it one step; SCAN yields each key once. The mail
-- worker's own commits succeed, and a mail counts as out when `send_email` returns.
-- Every loop is a recursion on a list, so no fuel is needed, but for two: a client's walk over the
-- pages of a listing has its bound on the number of pages as an argument, and a property says how many
-- suffice; and the recursion of send_email_job is on the retries that are left, of which the task has 3.
--
-- Not modelled: the routers, schemas as validators, configuration, connections, migrations and the
-- deployed copies (glue, or declarations that other programs read), and the mail providers.
mod Prelude
pub mod Errors
pub mod Table
pub mod Models
pub mod Session
pub mod RateLimit
pub mod EmailWorker
pub mod Redis
pub mod Stock
pub mod Audit
pub mod EmailJobs
pub mod Transfers
pub mod Procurement
pub mod Inventory
pub mod Decay
pub mod Catalog
pub mod Pagination
pub mod Listings
pub mod Access
pub mod Auth
pub mod AuditTrail
mod Samples

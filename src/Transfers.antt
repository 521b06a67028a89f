-- ===== src/Transfers.antt =====
-- app/services/transfer_service.py: stock moves from one warehouse to another in two steps, a
-- debit when the transfer is created and a credit when it is confirmed (or restored when it is
-- cancelled).
pub mod Bodies
pub mod Ledger
pub mod Lookup
pub mod Create
pub mod Cancel
pub mod Confirm
pub mod Services
pub mod History
pub mod Retry
pub mod Terminal
pub mod Conservation
mod Tests
pub use Bodies.{TransferCreateRequest, TransferConfirmRequest}
use backend_project.Prelude.{Uuid, Bool, true, false, Option, none, some, ◌==◌, if◌then◌else◌}
use backend_project.Errors.{Fault, app_exception, invalid_transfer, integrity_error}
use backend_project.Models.{User, StockTransfer}
use backend_project.EmailJobs.{created, completed, queue_transfer_email}
use backend_project.Session.{
  Env, Exec, pure, raise, read, rollback, transaction, rollback_and_raise, ◌>>=◌, ◌>>◌,
}
use Bodies.{existing_transfer, assert_tenant_entities_exist, new_transfer, debit, credit, restore}

abbrev pub existing_or_raise : Fault → Option StockTransfer → Exec (StockTransfer × Bool)
existing_or_raise fault none = raise fault
existing_or_raise fault (some existing) = pure (existing, false)

-- The two `except` clauses of `create_transfer`
abbrev pub on_create_fault : Uuid → TransferCreateRequest → Fault → Exec (StockTransfer × Bool)
on_create_fault tenant_id request (app_exception status code) =
    rollback_and_raise (app_exception status code)
on_create_fault tenant_id request integrity_error = do
  rollback
  existing ← read (existing_transfer tenant_id request.request_id)
  existing_or_raise integrity_error existing
on_create_fault tenant_id request fault = raise fault

-- Only a transfer that this call has created is mailed.
mail_created : Env → User → StockTransfer × Bool → Exec (StockTransfer × Bool)
mail_created env actor (transfer, true) = do
  queue_transfer_email env 3 actor transfer created
  pure (transfer, true)
mail_created env actor (transfer, false) = pure (transfer, false)

-- The `try` statement of `create_transfer`
unfoldable pub try_store : Env → Uuid → User → TransferCreateRequest → Exec (StockTransfer × Bool)
try_store env tenant_id actor request =
    transaction env (debit env tenant_id actor request (new_transfer env tenant_id actor request))
      (on_create_fault tenant_id request)

unfoldable pub store_new : Env → Uuid → User → TransferCreateRequest → Exec (StockTransfer × Bool)
unfolding mail_created
store_new env tenant_id actor request = do
  read (assert_tenant_entities_exist tenant_id request)
  stored ← try_store env tenant_id actor request
  mail_created env actor stored

abbrev pub unless_existing :
    Option StockTransfer → Exec (StockTransfer × Bool) → Exec (StockTransfer × Bool)
unless_existing none new = new
unless_existing (some existing) new = pure (existing, false)

-- The ids drawn: 0 the transfer's, 1 and 2 its logs', 3 the mail's.
unfoldable pub create_transfer :
    Env → Uuid → User → TransferCreateRequest → Exec (StockTransfer × Bool)
unfolding store_new try_store
create_transfer env tenant_id actor request =
    if request.from_warehouse_id == request.to_warehouse_id
    then raise (app_exception 400 invalid_transfer)
    else do
      existing ← read (existing_transfer tenant_id request.request_id)
      unless_existing existing (store_new env tenant_id actor request)

-- The ids drawn: 0 a new inventory item's, 1 to 3 the logs', 4 the mail's.
unfoldable pub confirm_transfer :
    Env → Uuid → User → Uuid → TransferConfirmRequest → Exec StockTransfer
confirm_transfer env tenant_id actor transfer_id request = do
  transfer ← transaction env (credit env tenant_id actor transfer_id request) rollback_and_raise
  queue_transfer_email env 4 actor transfer completed
  pure transfer

-- The ids drawn: 0 and 1 the logs'.
unfoldable pub cancel_transfer : Env → Uuid → User → Uuid → Exec StockTransfer
cancel_transfer env tenant_id actor transfer_id =
    transaction env (restore env tenant_id actor transfer_id) rollback_and_raise

-- ===== src/Transfers/Services.antt =====
-- Each operation of the transfer service keeps whatever its own transaction saves and mails ignore.
use backend_project.Prelude.{Uuid, Bool, true, false, Option, none, some, ◌==◌, if◌then◌else◌}
use backend_project.Errors.{Fault, app_exception, integrity_error}
use backend_project.Models.{Database, User, StockTransfer}
use backend_project.Session.{Env, Exec, transaction, rollback_and_raise}
use backend_project.Session.Keeps.{
  Keeps, Relies, Saves, Keeps-rollback_and_raise, Keeps-transaction, keeps_rules,
}
use backend_project.EmailJobs.Keeps.{IgnoresMail, Keeps-queue_transfer_email}
use backend_project.Transfers.{
  TransferCreateRequest, TransferConfirmRequest, on_create_fault, mail_created, store_new,
  try_store, existing_or_raise, unless_existing, create_transfer, confirm_transfer, cancel_transfer,
}
use backend_project.Transfers.Bodies.{debit, credit, restore, new_transfer}

pub Keeps-if :
    {A : Type 0} {P : Database → Type 0} (b : Bool) (m n : Exec A)
    → Keeps P m
    → Keeps P n
    → Keeps P (if b then m else n)
Keeps-if true m n km kn = km
Keeps-if false m n km kn = kn

module _ {P : Database → Type 0} (env : Env) (rely : Relies env P) (mail : IgnoresMail P)
    (tenant_id : Uuid) (actor : User) where
  Keeps-existing_or_raise :
      (fault : Fault) (o : Option StockTransfer) → Keeps P (existing_or_raise fault o)
  Keeps-existing_or_raise fault none = search keeps_rules
  Keeps-existing_or_raise fault (some t) = search keeps_rules

  Keeps-on_create_fault :
      (request : TransferCreateRequest) (fault : Fault)
      → Keeps P (on_create_fault tenant_id request fault)
  Keeps-on_create_fault request (app_exception status code) = search keeps_rules
  Keeps-on_create_fault request integrity_error = search (keeps_rules, Keeps-existing_or_raise)
  Keeps-on_create_fault request _ = search keeps_rules

  Keeps-mail_created : (stored : StockTransfer × Bool) → Keeps P (mail_created env actor stored)
  unfolding mail_created
  Keeps-mail_created (t, true) = search (keeps_rules, Keeps-queue_transfer_email)
  Keeps-mail_created (t, false) = search keeps_rules

  module _ (request : TransferCreateRequest)
      (saves : (db : Database)
        → P db
        → Saves P
            (debit env tenant_id actor request (new_transfer env tenant_id actor request) db)) where
    Keeps-try_store : Keeps P (try_store env tenant_id actor request)
    unfolding try_store
    Keeps-try_store = Keeps-transaction env _ _ rely saves (Keeps-on_create_fault request)

    Keeps-store_new : Keeps P (store_new env tenant_id actor request)
    unfolding store_new
    Keeps-store_new = search (keeps_rules, Keeps-try_store, Keeps-mail_created)

    Keeps-unless_existing :
        (o : Option StockTransfer)
        → Keeps P (unless_existing o (store_new env tenant_id actor request))
    Keeps-unless_existing none = Keeps-store_new
    Keeps-unless_existing (some t) = search keeps_rules

    pub Keeps-create_transfer : Keeps P (create_transfer env tenant_id actor request)
    unfolding create_transfer
    Keeps-create_transfer =
        Keeps-if (request.from_warehouse_id == request.to_warehouse_id) _ _ (search keeps_rules)
          (search (keeps_rules, Keeps-unless_existing))

  module _ (transfer_id : Uuid) (request : TransferConfirmRequest)
      (saves : (db : Database)
        → P db
        → Saves P (credit env tenant_id actor transfer_id request db)) where
    Keeps-credit :
        Keeps P
          (transaction env (credit env tenant_id actor transfer_id request) rollback_and_raise)
    Keeps-credit = Keeps-transaction env _ _ rely saves Keeps-rollback_and_raise

    pub Keeps-confirm_transfer : Keeps P (confirm_transfer env tenant_id actor transfer_id request)
    unfolding confirm_transfer
    Keeps-confirm_transfer = search (keeps_rules, Keeps-credit, Keeps-queue_transfer_email) depth 9

  module _ (transfer_id : Uuid)
      (saves : (db : Database) → P db → Saves P (restore env tenant_id actor transfer_id db)) where
    pub Keeps-cancel_transfer : Keeps P (cancel_transfer env tenant_id actor transfer_id)
    unfolding cancel_transfer
    Keeps-cancel_transfer = Keeps-transaction env _ _ rely saves Keeps-rollback_and_raise

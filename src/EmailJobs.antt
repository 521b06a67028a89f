-- ===== src/EmailJobs.antt =====
-- app/services/email_job_service.py: a mail is a row of `email_jobs` in a transaction of its own,
-- and a task for the worker.
pub mod Keeps
pub mod Sent
use backend_project.Prelude.{
  ℕ, if◌then◌else◌, String, Uuid, ℤ, pos, Option, none, some, ◌∷◌, str_eq,
}
use backend_project.Errors.{Result, ok}
use backend_project.Models.{
  Database, User, StockTransfer, InventoryItem, ProductVariant, Product, Warehouse, Supplier,
  PurchaseOrder, EmailJob, Message, job_row,
}
use backend_project.Models.Enums.{queued, failed}
use backend_project.Models.Rows.{
  transfer_created, transfer_receipt, low_stock_alert, purchase_order_confirmation, decay_alert,
  verification, password_reset,
}
use backend_project.Table.{update}
use backend_project.Session.{Env, Exec, pure, write, commit, send_task, ◌>>=◌, ◌>>◌}

abbrev pub new_job : Env → ℕ → Uuid → String → Message → String → EmailJob
new_job env k tenant_id recipient_email message purpose = record {
  id = env.uuid4 k;
  tenant_id = tenant_id;
  recipient_email = recipient_email;
  message = message;
  purpose = purpose;
  status = queued;
  retry_count = pos 0;
  error_message = none;
  created_at = env.now;
  sent_at = none;
  last_attempt_at = none;
}

abbrev pub add_job : EmailJob → Database → Result (Unit {0} × Database)
add_job job db = ok (tt, record db { email_jobs = job ∷ db.email_jobs })

abbrev pub save_job : EmailJob → Database → Result (Unit {0} × Database)
save_job job db = ok (tt, record db { email_jobs = update job db.email_jobs })

-- The `except` of `send_task`
mark_unqueued : Env → EmailJob → Option String → Exec EmailJob
mark_unqueued env job none = pure job
mark_unqueued env job (some text) = do
  let lost = record job { status = failed; error_message = some text }
  write (save_job lost)
  commit env
  pure lost

-- Every caller leaves `enqueue` at its default, true.
unfoldable pub create_email_job : Env → ℕ → Uuid → String → Message → String → Exec EmailJob
unfolding mark_unqueued
create_email_job env k tenant_id recipient_email message purpose = do
  let job = new_job env k tenant_id recipient_email message purpose
  write (add_job job)
  commit env
  sent ← send_task env job.id
  mark_unqueued env job sent

unfoldable pub queue_verification_email : Env → ℕ → User → String → Exec EmailJob
queue_verification_email env k user token =
    create_email_job env k user.tenant_id user.email (verification user.name token)
      "email_verification"

unfoldable pub queue_password_reset_email : Env → ℕ → User → String → Exec EmailJob
queue_password_reset_email env k user token =
    create_email_job env k user.tenant_id user.email (password_reset user.name token)
      "password_reset"

-- The two events of a transfer that are mailed.
pub data Event : Type 0 where
  created completed : Event

unfoldable pub queue_transfer_email : Env → ℕ → User → StockTransfer → Event → Exec EmailJob
queue_transfer_email env k recipient transfer created =
    create_email_job env k recipient.tenant_id recipient.email
      (transfer_created recipient.name transfer) "transfer_created"
queue_transfer_email env k recipient transfer completed =
    create_email_job env k recipient.tenant_id recipient.email
      (transfer_receipt recipient.name transfer) "inventory_transfer_receipt"

unfoldable pub queue_low_stock_alert_email :
    Env → ℕ → User → InventoryItem → ProductVariant → Product → Warehouse → Exec EmailJob
queue_low_stock_alert_email env k recipient item variant product warehouse =
    create_email_job env k recipient.tenant_id recipient.email
      (low_stock_alert recipient.name item variant product warehouse) "low_stock_alert"

-- `if not supplier.contact_email`
abbrev contact : Option String → Option String
contact none = none
contact (some email) = if str_eq email "" then none else some email

mail_supplier :
    Env
    → ℕ
    → Supplier
    → PurchaseOrder
    → ProductVariant
    → Warehouse
    → Option String
    → Exec (Option EmailJob)
mail_supplier env k supplier order variant warehouse none = pure none
mail_supplier env k supplier order variant warehouse (some email) = do
  job ←
      create_email_job env k supplier.tenant_id email
        (purchase_order_confirmation supplier order variant warehouse) "purchase_order_confirmation"
  pure (some job)

unfoldable pub queue_purchase_order_confirmation_email :
    Env → ℕ → Supplier → PurchaseOrder → ProductVariant → Warehouse → Exec (Option EmailJob)
unfolding mail_supplier
queue_purchase_order_confirmation_email env k supplier order variant warehouse =
    mail_supplier env k supplier order variant warehouse (contact supplier.contact_email)

unfoldable pub queue_decay_alert_email : Env → ℕ → User → ℤ → ℤ → Exec EmailJob
queue_decay_alert_email env k recipient marked_liquidating discounted =
    create_email_job env k recipient.tenant_id recipient.email
      (decay_alert recipient.name marked_liquidating discounted) "decay_cycle"

-- ===== src/EmailJobs/Keeps.antt =====
-- Queueing a mail changes `email_jobs` and nothing else, and what others have committed.
use backend_project.Prelude.{ℤ, ℕ, Uuid, String, List, Option, none, some}
use backend_project.Models.{
  Database, User, StockTransfer, InventoryItem, ProductVariant, Product, Warehouse, Supplier,
  PurchaseOrder, EmailJob, Message,
}
use backend_project.Session.{Env, write}
use backend_project.Session.Keeps.{Keeps, Relies, Keeps-write, keeps_rules}
use backend_project.EmailJobs.{
  add_job, save_job, mark_unqueued, create_email_job, queue_verification_email,
  queue_password_reset_email, Event, created, completed, queue_transfer_email,
  queue_low_stock_alert_email, mail_supplier, queue_decay_alert_email,
  queue_purchase_order_confirmation_email,
}

-- `P` does not depend on the table of mails.
pub record IgnoresMail (P : Database → Type 0) : Type 0 where
  pub any_mail : (db : Database) (jobs : List EmailJob) → P db → P (record db { email_jobs = jobs })

module _ {P : Database → Type 0} (env : Env) (rely : Relies env P) (mail : IgnoresMail P) where
  Keeps-add_job : (job : EmailJob) → Keeps P (write (add_job job))
  Keeps-add_job job = Keeps-write (add_job job) (λ db h. mail.any_mail db _ h)

  Keeps-save_job : (job : EmailJob) → Keeps P (write (save_job job))
  Keeps-save_job job = Keeps-write (save_job job) (λ db h. mail.any_mail db _ h)

  Keeps-mark_unqueued : (job : EmailJob) (o : Option String) → Keeps P (mark_unqueued env job o)
  unfolding mark_unqueued
  Keeps-mark_unqueued job none = search keeps_rules
  Keeps-mark_unqueued job (some text) = search (keeps_rules, Keeps-save_job)

  pub Keeps-create_email_job :
      (k : ℕ) (tenant_id : Uuid) (email : String) (message : Message) (purpose : String)
      → Keeps P (create_email_job env k tenant_id email message purpose)
  unfolding create_email_job
  Keeps-create_email_job k tenant_id email message purpose =
      search (keeps_rules, Keeps-add_job, Keeps-mark_unqueued)

  pub Keeps-queue_verification_email :
      (k : ℕ) (user : User) (token : String) → Keeps P (queue_verification_email env k user token)
  unfolding queue_verification_email
  Keeps-queue_verification_email k user token = search Keeps-create_email_job

  pub Keeps-queue_password_reset_email :
      (k : ℕ) (user : User) (token : String) → Keeps P (queue_password_reset_email env k user token)
  unfolding queue_password_reset_email
  Keeps-queue_password_reset_email k user token = search Keeps-create_email_job

  pub Keeps-queue_transfer_email :
      (k : ℕ) (recipient : User) (transfer : StockTransfer) (event : Event)
      → Keeps P (queue_transfer_email env k recipient transfer event)
  unfolding queue_transfer_email
  Keeps-queue_transfer_email k recipient transfer created = search Keeps-create_email_job
  Keeps-queue_transfer_email k recipient transfer completed = search Keeps-create_email_job

  pub Keeps-queue_low_stock_alert_email :
      (k : ℕ) (recipient : User) (item : InventoryItem) (variant : ProductVariant)
      (product : Product) (warehouse : Warehouse)
      → Keeps P (queue_low_stock_alert_email env k recipient item variant product warehouse)
  unfolding queue_low_stock_alert_email
  Keeps-queue_low_stock_alert_email k recipient item variant product warehouse =
      search Keeps-create_email_job

  pub Keeps-queue_decay_alert_email :
      (k : ℕ) (recipient : User) (marked_liquidating discounted : ℤ)
      → Keeps P (queue_decay_alert_email env k recipient marked_liquidating discounted)
  unfolding queue_decay_alert_email
  Keeps-queue_decay_alert_email k recipient marked_liquidating discounted =
      search Keeps-create_email_job

  Keeps-mail_supplier :
      (k : ℕ) (supplier : Supplier) (order : PurchaseOrder) (variant : ProductVariant)
      (warehouse : Warehouse) (email : Option String)
      → Keeps P (mail_supplier env k supplier order variant warehouse email)
  unfolding mail_supplier
  Keeps-mail_supplier k supplier order variant warehouse none = search keeps_rules
  Keeps-mail_supplier k supplier order variant warehouse (some email) =
      search (keeps_rules, Keeps-create_email_job)

  pub Keeps-queue_purchase_order_confirmation_email :
      (k : ℕ) (supplier : Supplier) (order : PurchaseOrder) (variant : ProductVariant)
      (warehouse : Warehouse)
      → Keeps P (queue_purchase_order_confirmation_email env k supplier order variant warehouse)
  unfolding queue_purchase_order_confirmation_email
  Keeps-queue_purchase_order_confirmation_email k supplier order variant warehouse =
      Keeps-mail_supplier k supplier order variant warehouse _

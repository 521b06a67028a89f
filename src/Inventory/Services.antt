-- ===== src/Inventory/Services.antt =====
-- `adjust_inventory` keeps whatever its transaction saves and mails ignore.
use backend_project.Prelude.{ℕ, Uuid, Bool, true, false, List, [], ◌∷◌}
use backend_project.Models.{Database, User, InventoryItem, ProductVariant, Product, Warehouse}
use backend_project.Session.{Env}
use backend_project.Session.Keeps.{
  Keeps, Relies, Saves, Keeps-rollback_and_raise, Keeps-transaction, Keeps-bind, Keeps-read,
  Keeps-pure,
}
use backend_project.EmailJobs.Keeps.{IgnoresMail, Keeps-queue_low_stock_alert_email}
use backend_project.Transfers.Services.{Keeps-if}
use backend_project.Inventory.{gets_alerts, mail_alerts, maybe_alert, adjust_inventory}
use backend_project.Inventory.Adjust.{InventoryAdjustRequest, adjust}

module _ {P : Database → Type 0} (env : Env) (rely : Relies env P) (mail : IgnoresMail P) where
  module _ (item : InventoryItem) (variant : ProductVariant) (product : Product)
      (warehouse : Warehouse) where
    Keeps-mail_alerts :
        (k : ℕ) (users : List User)
        → Keeps P (mail_alerts env item variant product warehouse k users)
    unfolding mail_alerts
    Keeps-mail_alerts k [] = Keeps-pure tt
    Keeps-mail_alerts k (u ∷ us) =
        let rest = Keeps-mail_alerts _ us in
        Keeps-if (gets_alerts u) _ _
          (Keeps-bind
            (Keeps-queue_low_stock_alert_email env rely mail k u item variant product warehouse)
            (λ _. rest))
          rest

    Keeps-maybe_alert :
        (tenant_id : Uuid) (alert : Bool)
        → Keeps P (maybe_alert env tenant_id item variant product warehouse alert)
    Keeps-maybe_alert tenant_id true =
        Keeps-bind (Keeps-read _) (λ users. Keeps-mail_alerts 2 users)
    Keeps-maybe_alert tenant_id false = Keeps-pure tt

  pub Keeps-adjust_inventory :
      (tenant_id : Uuid) (actor : User) (request : InventoryAdjustRequest)
      → ((variant : ProductVariant) (db : Database)
          → P db
          → Saves P (adjust env tenant_id actor request variant db))
      → Keeps P (adjust_inventory env tenant_id actor request)
  unfolding adjust_inventory
  Keeps-adjust_inventory tenant_id actor request saves = Keeps-bind (Keeps-read _) λ variant.
      Keeps-bind (Keeps-read _) λ warehouse. Keeps-bind (Keeps-read _) λ product.
        Keeps-bind (Keeps-transaction env _ _ rely (saves variant) Keeps-rollback_and_raise)
          λ stored.
            Keeps-bind (Keeps-maybe_alert stored.0 variant product warehouse tenant_id stored.1)
              (λ _. Keeps-pure _)

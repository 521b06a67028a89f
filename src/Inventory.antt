-- ===== src/Inventory.antt =====
-- app/services/inventory_service.py: adjusting stock, with its low-stock alerts, and the forecast.
pub mod Adjust
pub mod View
pub mod Forecast
pub mod Services
pub mod Rounding
pub mod Reorder
pub mod Reserve
pub mod Reserved
pub mod Reservations
mod Tests
use backend_project.Prelude.{
  ℕ, suc, Uuid, Bool, true, false, ◌&&◌, ◌||◌, List, [], ◌∷◌, ◌==◌, is_some, if◌then◌else◌,
}
use backend_project.Errors.{ok}
use backend_project.Models.{Database, User, InventoryItem, ProductVariant, Product, Warehouse}
use backend_project.Models.Enums.{UserRole, tenant_admin, warehouse_manager, role_eq}
use backend_project.Table.{select, one}
use backend_project.Stock.{get_variant, get_warehouse}
use backend_project.Session.{Env, Exec, pure, read, transaction, rollback_and_raise, ◌>>=◌, ◌>>◌}
use backend_project.EmailJobs.{queue_low_stock_alert_email}
use Adjust.{InventoryAdjustRequest, adjust}
use View.{InventoryItemResponse, serialize_row}

-- `_queue_low_stock_alerts`: who is asked, and who of them is mailed
abbrev pub alert_recipients : Uuid → Database → List User
alert_recipients tenant_id db =
    select (λ u. u.tenant_id == tenant_id && (u.is_active && is_some u.email_verified_at)) db.users

abbrev pub gets_alerts : User → Bool
gets_alerts u = role_eq u.role tenant_admin || role_eq u.role warehouse_manager

module _ (env : Env) (item : InventoryItem) (variant : ProductVariant) (product : Product)
    (warehouse : Warehouse) where
  -- The loop over the recipients; each mail draws an id.
  unfoldable pub mail_alerts : ℕ → List User → Exec (Unit {0})
  mail_alerts k [] = pure tt
  mail_alerts k (u ∷ us) =
      let rest = mail_alerts (suc k) us in
      if gets_alerts u
      then (do queue_low_stock_alert_email env k u item variant product warehouse; rest)
      else rest

abbrev maybe_alert :
    Env → Uuid → InventoryItem → ProductVariant → Product → Warehouse → Bool → Exec (Unit {0})
maybe_alert env tenant_id item variant product warehouse true = do
  recipients ← read (λ db. ok (alert_recipients tenant_id db))
  mail_alerts env item variant product warehouse 2 recipients
maybe_alert env tenant_id item variant product warehouse false = pure tt

-- The ids drawn: 0 a new inventory item's, 1 the log's, from 2 the mails'.
unfoldable pub adjust_inventory :
    Env → Uuid → User → InventoryAdjustRequest → Exec InventoryItemResponse
adjust_inventory env tenant_id actor request = do
  variant ← read (get_variant tenant_id request.variant_id)
  warehouse ← read (get_warehouse tenant_id request.warehouse_id)
  product ←
      read (λ db.
        one (select (λ p. p.id == variant.product_id && p.tenant_id == tenant_id) db.products))
  (item, alert) ← transaction env (adjust env tenant_id actor request variant) rollback_and_raise
  maybe_alert env tenant_id item variant product warehouse alert
  pure (serialize_row item variant product actor.role)

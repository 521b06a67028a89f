-- ===== src/Inventory/Adjust.antt =====
-- app/services/inventory_service.py: the transaction of `adjust_inventory`, up to its commit.
use backend_project.Prelude.{
  Uuid, String, ℤ, pos, ◌+ℤ◌, ltb_ℤ, leb_ℤ, Bool, ◌&&◌, Option, some, ◌∷◌, is_none,
}
use backend_project.Errors.{Result, ok, raise_if, ◌>>=◌, ◌>>◌, app_exception, insufficient_stock}
use backend_project.Models.{Database, User, ProductVariant, InventoryItem}
use backend_project.Models.Rows.{item_dump}
use backend_project.Table.{select, one_or_none}
use backend_project.Stock.{stocked_at, new_item, or_item, store_item}
use backend_project.Audit.{build_audit_log}
use backend_project.Session.{Env}

pub data AdjustReason : Type 0 where
  damage theft surplus count_correction other : AdjustReason

-- `note` is not read by the service.
pub record InventoryAdjustRequest : Type 0 where
  pub variant_id : Uuid
  pub warehouse_id : Uuid
  pub quantity_delta : ℤ
  pub reason : AdjustReason
  pub note : Option String

-- f"STOCK_ADJUSTMENT_{request.reason.upper()}"
abbrev pub action_of : AdjustReason → String
action_of damage = "STOCK_ADJUSTMENT_DAMAGE"
action_of theft = "STOCK_ADJUSTMENT_THEFT"
action_of surplus = "STOCK_ADJUSTMENT_SURPLUS"
action_of count_correction = "STOCK_ADJUSTMENT_COUNT_CORRECTION"
action_of other = "STOCK_ADJUSTMENT_OTHER"

-- `should_alert_low_stock`
abbrev pub crosses : ℤ → ℤ → ℤ → Bool
crosses before after threshold = ltb_ℤ threshold before && leb_ℤ after threshold

unfoldable pub adjust :
    Env
    → Uuid
    → User
    → InventoryAdjustRequest
    → ProductVariant
    → Database
    → Result ((InventoryItem × Bool) × Database)
adjust env tenant_id actor request variant db = do
  found ←
      one_or_none
        (select (stocked_at tenant_id request.variant_id request.warehouse_id) db.inventory_items)
  raise_if (is_none found && ltb_ℤ request.quantity_delta (pos 0))
      (app_exception 409 insufficient_stock)
  let item = or_item found (new_item env tenant_id request.variant_id request.warehouse_id variant)
  let next_quantity = item.quantity +ℤ request.quantity_delta
  raise_if (ltb_ℤ next_quantity (pos 0)) (app_exception 409 insufficient_stock)
  let adjusted = record item { quantity = next_quantity }
  let log =
      build_audit_log env 1 tenant_id actor.id (action_of request.reason) "inventory_item"
        adjusted.id (some (item_dump item)) (some (item_dump adjusted))
  items ← store_item found adjusted db.inventory_items
  ok (
    (adjusted, crosses item.quantity next_quantity item.reorder_threshold),
    record db { inventory_items = items; audit_logs = log ∷ db.audit_logs },
  )

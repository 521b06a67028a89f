-- ===== src/Inventory/Forecast.antt =====
-- app/services/inventory_service.py, `forecast_reorder_suggestions`: the suggestion for one row.
-- Demand and stock are counted in hundredths of a unit.
use backend_project.Prelude.{
  ℕ, zero, suc, ◌+◌, ◌*◌, ◌/◌, ℤ, pos, negsuc, pos_part, ◌+ℤ◌, ◌-ℤ◌, leb_ℤ, Bool, true, false, ◌&&◌,
  ◌==◌, Option, none, some, List, [], ◌∷◌, if◌then◌else◌, Uuid,
}
use backend_project.Models.{AuditLog, Snapshot}
use backend_project.Models.Rows.{transfer_dump, item_dump, order_dump}
use backend_project.Inventory.View.{round_half_up}

-- `(state or {}).get("quantity")`, where it is an `int`
abbrev pub quantity_of : Option Snapshot → Option ℤ
quantity_of (some (item_dump item)) = some item.quantity
quantity_of (some (transfer_dump transfer)) = some transfer.quantity
quantity_of (some (order_dump order)) = some order.quantity
quantity_of _ = none

-- `max(before_quantity - after_quantity, 0)`
abbrev pub outgoing : Option ℤ → Option ℤ → ℕ
outgoing (some before) (some after) = pos_part (before -ℤ after)
outgoing _ _ = 0

-- What the logs of the window record as gone from the item
unfoldable pub outgoing_units : Uuid → List AuditLog → ℕ
outgoing_units item_id [] = 0
outgoing_units item_id (log ∷ logs) =
    (if log.entity_id == item_id
      then outgoing (quantity_of log.before_state) (quantity_of log.after_state)
      else 0)
    + outgoing_units item_id logs

-- In hundredths of a unit per day
abbrev pub average_daily_demand : ℕ → ℕ → ℕ
average_daily_demand units window = round_half_up (100 * units) window

abbrev pub hundred : ℤ → ℤ
hundred (pos n) = pos (100 * n)
hundred (negsuc n) = negsuc (100 * n + 99)

abbrev pub target_stock : ℕ → ℕ → ℤ → ℤ
target_stock demand lead threshold = pos (demand * lead) +ℤ hundred threshold

-- `max(0, ceil(x))`
abbrev pub ceil_pos : ℤ → ℕ
ceil_pos (pos n) = (n + 99) / 100
ceil_pos (negsuc n) = 0

unfoldable pub recommended_quantity : ℕ → ℕ → ℤ → ℤ → ℕ
recommended_quantity demand lead threshold quantity =
    ceil_pos (target_stock demand lead threshold -ℤ hundred quantity)

pub data Urgency : Type 0 where
  reorder_now watch none_needed : Urgency

unfoldable pub urgency : ℤ → ℤ → ℕ → Urgency
urgency quantity threshold zero = if leb_ℤ quantity threshold then reorder_now else none_needed
urgency quantity threshold (suc n) = if leb_ℤ quantity threshold then reorder_now else watch

-- `reorder_only and recommended_quantity == 0 and urgency == "none"`
abbrev pub is_none_needed : Urgency → Bool
is_none_needed none_needed = true
is_none_needed _ = false

unfoldable pub is_skipped : Bool → ℕ → Urgency → Bool
is_skipped reorder_only recommended u = reorder_only && (recommended == 0 && is_none_needed u)

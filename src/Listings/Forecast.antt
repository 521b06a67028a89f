-- ===== src/Listings/Forecast.antt =====
-- app/services/inventory_service.py: `forecast_reorder_suggestions`, a page of the stock with what to
-- order for each row.
use backend_project.Prelude.{
  ℕ, suc, ◌+◌, ◌*◌, Uuid, String, Time, ltb, leb, ℤ, Bool, true, ◌&&◌, ◌==◌, str_eq, Option, none,
  some, List, [], ◌∷◌, any, length, take, get_last?, if◌then◌else◌,
}
use backend_project.Errors.{Result, ok, ◌>>=◌}
use backend_project.Models.{Database, InventoryItem, AuditLog, item_row}
use backend_project.Table.{select}
use backend_project.Pagination.{CursorCodec, Page, decode_cursor, is_after, order_by_id, cursor_of}
use backend_project.Inventory.Forecast.{
  outgoing_units, average_daily_demand, recommended_quantity, Urgency, urgency, is_skipped,
}
use backend_project.Listings.{Stocked, stocked_row, join_stock, is_in}

pub record ForecastSuggestionResponse : Type 0 where
  pub inventory_item_id : Uuid
  pub warehouse_id : Uuid
  pub variant_id : Uuid
  pub sku : String
  pub product_name : String
  pub current_quantity : ℤ
  pub reorder_threshold : ℤ
  pub forecast_window_days : ℕ
  pub lead_time_days : ℕ
  pub observed_outgoing_units : ℕ
  -- In hundredths of a unit
  pub demand : ℕ
  pub recommended_reorder_quantity : ℕ
  pub urgency : Urgency

-- The logs of the page's items in the window
abbrev pub is_observed : Time → Uuid → ℕ → List Stocked → AuditLog → Bool
is_observed now tenant_id window rows log =
    (log.tenant_id == tenant_id && str_eq log.entity_type "inventory_item")
    && (any (λ r. r.item.id == log.entity_id) rows && leb now (log.created_at + 86400 * window))

abbrev pub suggestion : ℕ → ℕ → List AuditLog → Stocked → ForecastSuggestionResponse
suggestion window lead logs r =
    let units = outgoing_units r.item.id logs in
    let demand = average_daily_demand units window in
    let recommended = recommended_quantity demand lead r.item.reorder_threshold r.item.quantity in
    record {
      inventory_item_id = r.item.id;
      warehouse_id = r.item.warehouse_id;
      variant_id = r.variant.id;
      sku = r.variant.sku;
      product_name = r.product.name;
      current_quantity = r.item.quantity;
      reorder_threshold = r.item.reorder_threshold;
      forecast_window_days = window;
      lead_time_days = lead;
      observed_outgoing_units = units;
      demand = demand;
      recommended_reorder_quantity = recommended;
      urgency = urgency r.item.quantity r.item.reorder_threshold recommended;
    }

-- The loop over the rows
unfoldable pub suggestions :
    ℕ → ℕ → Bool → List AuditLog → List Stocked → List ForecastSuggestionResponse
unfolding is_skipped
suggestions window lead reorder_only logs [] = []
suggestions window lead reorder_only logs (r ∷ rs) =
    let rest = suggestions window lead reorder_only logs rs in
    let s = suggestion window lead logs r in
    if is_skipped reorder_only s.recommended_reorder_quantity s.urgency then rest else s ∷ rest

abbrev of_warehouse : Option Uuid → InventoryItem → Bool
of_warehouse none i = true
of_warehouse (some warehouse_id) i = i.warehouse_id == warehouse_id

-- The rows of the join that the filters leave, one more than the page holds
abbrev pub forecast_rows : Uuid → Option Uuid → ℕ → Option Uuid → Database → List Stocked
forecast_rows tenant_id cursor limit warehouse_id db = take (suc limit) (
    select
      (λ r.
        (r.item.tenant_id == tenant_id && (is_after cursor r.item.id && is_in warehouse_id r))
        && (r.variant.tenant_id == tenant_id && r.product.tenant_id == tenant_id))
      (order_by_id (join_stock db.inventory_items db.product_variants db.products)))

-- The count is of items, also of those that the join leaves out.
abbrev pub counted_items : Uuid → Option Uuid → Option Uuid → Database → ℕ
counted_items tenant_id cursor warehouse_id db = length (
    select (λ i. i.tenant_id == tenant_id && (is_after cursor i.id && of_warehouse warehouse_id i))
      db.inventory_items)

-- The page after a decoded cursor
unfoldable pub forecast_page :
    CursorCodec
    → Time
    → Uuid
    → ℕ
    → Option Uuid
    → ℕ
    → ℕ
    → Bool
    → Database
    → Option Uuid
    → Page ForecastSuggestionResponse
unfolding suggestions
forecast_page codec now tenant_id limit warehouse_id window lead reorder_only db cursor =
    let found = forecast_rows tenant_id cursor limit warehouse_id db in
    let rows = take limit found in
    let has_more = ltb limit (length found) in
    let logs = select (is_observed now tenant_id window rows) db.audit_logs in
    record {
      rows = suggestions window lead reorder_only logs rows;
      next_cursor = if has_more then cursor_of codec (get_last? rows) else none;
      has_more = has_more;
      total_count = counted_items tenant_id cursor warehouse_id db;
    }

unfoldable pub forecast_reorder_suggestions :
    CursorCodec
    → Time
    → Uuid
    → Option String
    → ℕ
    → Option Uuid
    → ℕ
    → ℕ
    → Bool
    → Database
    → Result (Page ForecastSuggestionResponse)
unfolding forecast_page
forecast_reorder_suggestions codec now tenant_id cursor limit warehouse_id window lead reorder_only
      db =
    do
      decoded ← decode_cursor codec cursor
      ok (forecast_page codec now tenant_id limit warehouse_id window lead reorder_only db decoded)

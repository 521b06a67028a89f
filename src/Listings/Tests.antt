-- ===== src/Listings/Tests.antt =====
-- Two audit logs, the older of which has the greater id, listed one to a page.
use backend_project.Prelude.{
  List, map, ◌+ℤ◌, ◌-ℤ◌, ℕ, ◌≡◌, refl, arith, some, none, [], ◌∷◌, true, false,
}
use backend_project.Errors
use backend_project.Errors.{ok}
use backend_project.Models.{Database, AuditLog}
use backend_project.Table.{select}
use backend_project.Samples.{shop}
use backend_project.Pagination.{CursorCodec, object, text, encode_cursor, decode_cursor}
use backend_project.Pagination.{order_by_id, insert_by_id}
use backend_project.Pagination.Samples.{unary_codec, unary_codec-IsFaithful}
use backend_project.Models.Enums.{tenant_admin}
use backend_project.Inventory.View.{serialize_row}
use backend_project.Listings.Asked.{Wanted}
use backend_project.Listings.Inventory.{walk_inventory, IsView, walk_inventory-IsView}
use backend_project.Inventory.View.{round_half_up}
use backend_project.Inventory.Forecast.{outgoing_units, recommended_quantity, urgency, is_skipped}
use backend_project.Listings.Forecast.{suggestions, forecast_page, forecast_reorder_suggestions}
use backend_project.Listings.{
  Stocked, stocked_row, with_products, with_variants, join_stock, insert_newest, order_newest,
  list_audit_logs,
}

abbrev log : ℕ → ℕ → AuditLog
log id now = record {
  id = id;
  tenant_id = 1;
  user_id = 40;
  action = "STOCK_ADJUSTMENT_OTHER";
  entity_type = "inventory_item";
  entity_id = 30;
  before_state = none;
  after_state = none;
  created_at = now;
}

abbrev logged : Database
logged = record shop { audit_logs = log 1 200 ∷ log 2 100 ∷ [] }

-- The only cursor that the listing gives is the one of id 1.
abbrev codec : CursorCodec
codec = record {
  dumps = λ id. "one";
  loads = λ cursor. some (object (some (text "1")));
  show_uuid = λ id. "1";
  parse_uuid = λ id. some 1;
}

first_page :
    list_audit_logs codec 1 none 1 none none logged
    ≡ ok (record {
      rows = log 1 200 ∷ [];
      next_cursor = some "one";
      has_more = true;
      total_count = 2;
    })
unfolding list_audit_logs order_newest insert_newest encode_cursor decode_cursor select Errors.◌>>=◌
first_page = refl

-- The other log is never listed.
second_page :
    list_audit_logs codec 1 (some "one") 1 none none logged
    ≡ ok (record { rows = []; next_cursor = none; has_more = false; total_count = 0 })
unfolding list_audit_logs order_newest insert_newest encode_cursor decode_cursor select Errors.◌>>=◌
second_page = refl

-- The shelf holds enough: with `reorder_only`, the page is empty.
forecast_test :
    forecast_reorder_suggestions unary_codec 100 1 none 5 none 7 7 true shop
    ≡ ok (record { rows = []; next_cursor = none; has_more = false; total_count = 1 })
unfolding forecast_reorder_suggestions forecast_page suggestions is_skipped urgency
    recommended_quantity decode_cursor select order_by_id insert_by_id join_stock with_variants
    with_products outgoing_units round_half_up ◌+ℤ◌ ◌-ℤ◌ Errors.◌>>=◌
forecast_test = refl

abbrev everything : Wanted
everything = record { warehouse_id = none; decay_status = none; low_stock_only = false; sku = none }

walk_inventory-IsView_example :
    (rows : List Stocked) × ((walk_inventory unary_codec
          (λ a b. true)
          1
          tenant_admin
          1
          everything
          shop
          2
          none
        ≡ ok (map (λ r. serialize_row r.item r.variant r.product tenant_admin) rows))
      × IsView (λ a b. true) 1 everything shop rows)
walk_inventory-IsView_example =
    walk_inventory-IsView unary_codec (λ a b. true) 1 tenant_admin 1 everything shop 2
      unary_codec-IsFaithful (omega arith) (tt, tt) (tt, tt) (tt, tt) (omega arith)

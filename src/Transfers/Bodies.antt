-- ===== src/Transfers/Bodies.antt =====
-- app/services/transfer_service.py: the queries and changes of each transaction, up to its commit.
-- Updates through the loaded objects are updates of their rows.
use backend_project.Prelude.{
  Uuid, String, ℤ, ◌+ℤ◌, ◌-ℤ◌, ltb_ℤ, ◌==ℤ◌, Bool, true, not, ◌&&◌, ◌||◌, Option, none, some, List,
  ◌∷◌, ◌++◌, [], ◌==◌, str_eq, is_none, if◌then◌else◌,
}
use backend_project.Errors.{
  Result, ok, raised, raise_if, ◌>>=◌, ◌>>◌, app_exception, not_found, insufficient_stock,
  invalid_transfer_state, transfer_over_received,
}
use backend_project.Models.{
  Database, User, InventoryItem, StockTransfer, AuditLog, same_request, item_row, transfer_row,
}
use backend_project.Models.Enums.{in_transit, completed, cancelled, transfer_status_eq}
use backend_project.Models.Rows.{transfer_dump, item_dump, expected_quantity, received_quantity}
use backend_project.Table.{select, one_or_none, one, or_raise, insert, update}
use backend_project.Stock.{
  active_warehouse, own_variant, stocked_at, or_quantity, new_item, or_item, store_item,
}
use backend_project.Audit.{build_audit_log}
use backend_project.Session.{Env}

-- app/schemas.py
pub record TransferCreateRequest : Type 0 where
  pub request_id : String
  pub from_warehouse_id : Uuid
  pub to_warehouse_id : Uuid
  pub variant_id : Uuid
  pub quantity : ℤ
  pub note : Option String

pub record TransferConfirmRequest : Type 0 where
  pub received_quantity : Option ℤ

unfoldable pub existing_transfer : Uuid → String → Database → Result (Option StockTransfer)
existing_transfer tenant_id request_id db =
    one_or_none
      (select (λ t. t.tenant_id == tenant_id && str_eq t.request_id request_id) db.stock_transfers)

-- `_get_transfer`
unfoldable pub get_transfer : Uuid → Uuid → Database → Result StockTransfer
get_transfer tenant_id transfer_id db = do
  found ←
      one_or_none (select (λ t. t.id == transfer_id && t.tenant_id == tenant_id) db.stock_transfers)
  or_raise (app_exception 404 not_found) found

-- `_assert_tenant_entities_exist`
unfoldable pub assert_tenant_entities_exist :
    Uuid → TransferCreateRequest → Database → Result (Unit {0})
assert_tenant_entities_exist tenant_id request db = do
  source ← one_or_none (select (active_warehouse tenant_id request.from_warehouse_id) db.warehouses)
  destination ←
      one_or_none (select (active_warehouse tenant_id request.to_warehouse_id) db.warehouses)
  variant ← one_or_none (select (own_variant tenant_id request.variant_id) db.product_variants)
  raise_if (is_none source || (is_none destination || is_none variant))
      (app_exception 404 not_found)

abbrev pub new_transfer : Env → Uuid → User → TransferCreateRequest → StockTransfer
new_transfer env tenant_id actor request = record {
  id = env.uuid4 0;
  request_id = request.request_id;
  tenant_id = tenant_id;
  from_warehouse_id = request.from_warehouse_id;
  to_warehouse_id = request.to_warehouse_id;
  variant_id = request.variant_id;
  quantity = request.quantity;
  note = request.note;
  status = in_transit;
  initiated_by = actor.id;
  confirmed_by = none;
  created_at = env.now;
  completed_at = none;
}

-- `source_inventory is None or source_inventory.quantity < request.quantity`
unfoldable pub in_stock : ℤ → Option InventoryItem → Result InventoryItem
in_stock quantity none = raised (app_exception 409 insufficient_stock)
in_stock quantity (some item) =
    if ltb_ℤ item.quantity quantity then raised (app_exception 409 insufficient_stock) else ok item

-- The `try` of `create_transfer`, with what the call returns
unfoldable pub debit :
    Env
    → Uuid
    → User
    → TransferCreateRequest
    → StockTransfer
    → Database
    → Result ((StockTransfer × Bool) × Database)
unfolding in_stock
debit env tenant_id actor request transfer db = do
  found ← one_or_none (
      select (stocked_at tenant_id request.variant_id request.from_warehouse_id) db.inventory_items)
  source ← in_stock request.quantity found
  let debited = record source { quantity = source.quantity -ℤ request.quantity }
  transfers ← insert same_request transfer db.stock_transfers
  let created_log =
      build_audit_log env 1 tenant_id actor.id "TRANSFER_CREATED" "stock_transfer" transfer.id none
        (some (transfer_dump transfer))
  let debit_log =
      build_audit_log env 2 tenant_id actor.id "TRANSFER_SOURCE_DEBIT" "inventory_item" source.id
        (some (item_dump source)) (some (item_dump debited))
  ok (
    (transfer, true),
    record db {
      inventory_items = update debited db.inventory_items;
      stock_transfers = transfers;
      audit_logs = debit_log ∷ created_log ∷ db.audit_logs;
    },
  )

-- `if received_quantity != transfer.quantity`
abbrev pub discrepancy : Env → Uuid → User → StockTransfer → ℤ → List AuditLog
discrepancy env tenant_id actor transfer received =
    if received ==ℤ transfer.quantity
    then []
    else build_audit_log env 3 tenant_id actor.id "TRANSFER_DISCREPANCY_REPORTED" "stock_transfer"
        transfer.id (some (expected_quantity transfer.quantity)) (some (received_quantity received))
      ∷ []

-- The `try` of `confirm_transfer`
unfoldable pub credit :
    Env → Uuid → User → Uuid → TransferConfirmRequest → Database → Result (StockTransfer × Database)
unfolding get_transfer
credit env tenant_id actor transfer_id request db = do
  transfer ← get_transfer tenant_id transfer_id db
  raise_if (not (transfer_status_eq transfer.status in_transit))
      (app_exception 400 invalid_transfer_state)
  let received = or_quantity request.received_quantity transfer.quantity
  raise_if (ltb_ℤ transfer.quantity received) (app_exception 409 transfer_over_received)
  found ← one_or_none (
      select (stocked_at tenant_id transfer.variant_id transfer.to_warehouse_id) db.inventory_items)
  variant ← one (select (own_variant tenant_id transfer.variant_id) db.product_variants)
  let destination =
      or_item found (new_item env tenant_id transfer.variant_id transfer.to_warehouse_id variant)
  let credited = record destination { quantity = destination.quantity +ℤ received }
  let done = record transfer {
    status = completed;
    confirmed_by = some actor.id;
    completed_at = some env.now;
  }
  let completed_log =
      build_audit_log env 1 tenant_id actor.id "TRANSFER_COMPLETED" "stock_transfer" done.id none
        (some (transfer_dump done))
  let credit_log =
      build_audit_log env 2 tenant_id actor.id "TRANSFER_DESTINATION_CREDIT" "inventory_item"
        credited.id (some (item_dump destination)) (some (item_dump credited))
  items ← store_item found credited db.inventory_items
  ok (
    done,
    record db {
      inventory_items = items;
      stock_transfers = update done db.stock_transfers;
      audit_logs =
          discrepancy env tenant_id actor done received
          ++ (credit_log ∷ completed_log ∷ db.audit_logs);
    },
  )

-- The `try` of `cancel_transfer`
unfoldable pub restore : Env → Uuid → User → Uuid → Database → Result (StockTransfer × Database)
unfolding get_transfer
restore env tenant_id actor transfer_id db = do
  transfer ← get_transfer tenant_id transfer_id db
  raise_if (not (transfer_status_eq transfer.status in_transit))
      (app_exception 400 invalid_transfer_state)
  source ← one (
      select (stocked_at tenant_id transfer.variant_id transfer.from_warehouse_id)
        db.inventory_items)
  let restored = record source { quantity = source.quantity +ℤ transfer.quantity }
  let done = record transfer { status = cancelled; completed_at = some env.now }
  let cancelled_log =
      build_audit_log env 0 tenant_id actor.id "TRANSFER_CANCELLED" "stock_transfer" done.id none
        (some (transfer_dump done))
  let restore_log =
      build_audit_log env 1 tenant_id actor.id "TRANSFER_SOURCE_RESTORE" "inventory_item"
        restored.id (some (item_dump source)) (some (item_dump restored))
  ok (
    done,
    record db {
      inventory_items = update restored db.inventory_items;
      stock_transfers = update done db.stock_transfers;
      audit_logs = restore_log ∷ cancelled_log ∷ db.audit_logs;
    },
  )

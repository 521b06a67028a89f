-- ===== src/Procurement/Bodies.antt =====
-- app/services/procurement_service.py: the queries and changes of each transaction, up to its commit.
use backend_project.Prelude.{
  false, Uuid, String, ◌+ℤ◌, ltb_ℤ, Bool, true, not, ◌&&◌, ◌||◌, Option, none, some, ◌∷◌, ◌==◌, any,
}
use backend_project.Errors.{
  Result, ok, raise_if, ◌>>=◌, ◌>>◌, app_exception, integrity_error, not_found,
  invalid_purchase_order_state, purchase_order_over_received,
}
use backend_project.Models.{
  Database, User, Warehouse, ProductVariant, PurchaseOrder, Supplier, supplier_row, order_row,
  item_row, same_supplier, same_number,
}
use backend_project.Models.Enums.{
  PurchaseOrderStatus, draft, submitted, confirmed, received, cancelled, order_status_eq,
}
use backend_project.Models.Rows.{order_dump, item_dump}
use backend_project.Table.{select, one_or_none, or_raise, insert, update}
use backend_project.Stock.{
  get_warehouse, get_variant, stocked_at, or_quantity, new_item, or_item, store_item,
}
use backend_project.Audit.{build_audit_log}
use backend_project.Session.{Env}
use backend_project.Procurement.Requests.{
  SupplierCreateRequest, SupplierUpdateRequest, PurchaseOrderCreateRequest,
  PurchaseOrderReceiveRequest,
}

-- `str(request.contact_email) if request.contact_email else None`; a validated address is not empty.
abbrev pub new_supplier : Env → Uuid → SupplierCreateRequest → Supplier
new_supplier env tenant_id request = record {
  id = env.uuid4 0;
  tenant_id = tenant_id;
  name = request.name;
  contact_email = request.contact_email;
  phone = request.phone;
  lead_time_days = request.lead_time_days;
  is_active = true;
  created_at = env.now;
}

unfoldable pub add_supplier :
    Env → Uuid → SupplierCreateRequest → Database → Result (Supplier × Database)
add_supplier env tenant_id request db = do
  let supplier = new_supplier env tenant_id request
  suppliers ← insert same_supplier supplier db.suppliers
  ok (supplier, record db { suppliers = suppliers })

-- The supplier with this id, active or not
unfoldable pub find_supplier : Uuid → Uuid → Database → Result Supplier
find_supplier tenant_id supplier_id db = do
  found ← one_or_none (select (λ s. s.id == supplier_id && s.tenant_id == tenant_id) db.suppliers)
  or_raise (app_exception 404 not_found) found

-- The value of a field after `setattr`, for a nullable column and for another
abbrev pub set_or {ℓ} : {A : Type ℓ} → Option A → A → A
set_or none old = old
set_or (some new) old = new

abbrev pub required {ℓ} : {A : Type ℓ} → Option (Option A) → A → A
required (some (some new)) old = new
required _ old = old

abbrev pub is_null {ℓ} : {A : Type ℓ} → Option (Option A) → Bool
is_null (some none) = true
is_null _ = false

abbrev pub updated_supplier : Supplier → SupplierUpdateRequest → Supplier
updated_supplier s request = record s {
  name = required request.name s.name;
  contact_email = set_or request.contact_email s.contact_email;
  phone = set_or request.phone s.phone;
  lead_time_days = required request.lead_time_days s.lead_time_days;
  is_active = required request.is_active s.is_active;
}

-- The UPDATE is refused if a column that is not nullable gets a null, or if another supplier of the
-- tenant has the name.
unfoldable pub change_supplier :
    Supplier → SupplierUpdateRequest → Database → Result (Supplier × Database)
change_supplier s request db = do
  let changed = updated_supplier s request
  raise_if
      (is_null request.name
        || (is_null request.lead_time_days
            || (is_null request.is_active
                || any (λ x. not (x.id == changed.id) && same_supplier x changed) db.suppliers)))
      integrity_error
  ok (changed, record db { suppliers = update changed db.suppliers })

-- `_get_supplier`
unfoldable pub own_supplier : Uuid → Uuid → Database → Result Supplier
own_supplier tenant_id supplier_id db = do
  found ←
      one_or_none (
        select (λ s. s.id == supplier_id && (s.tenant_id == tenant_id && s.is_active)) db.suppliers)
  or_raise (app_exception 404 not_found) found

-- `_get_purchase_order`
unfoldable pub get_order : Uuid → Uuid → Database → Result PurchaseOrder
get_order tenant_id order_id db = do
  found ←
      one_or_none (select (λ o. o.id == order_id && o.tenant_id == tenant_id) db.purchase_orders)
  or_raise (app_exception 404 not_found) found

unfoldable pub check_entities : Uuid → PurchaseOrderCreateRequest → Database → Result (Unit {0})
unfolding own_supplier get_warehouse get_variant
check_entities tenant_id request db = do
  own_supplier tenant_id request.supplier_id db
  get_warehouse tenant_id request.warehouse_id db
  get_variant tenant_id request.variant_id db
  ok tt

abbrev pub new_order : Env → Uuid → User → PurchaseOrderCreateRequest → PurchaseOrder
new_order env tenant_id actor request = record {
  id = env.uuid4 0;
  tenant_id = tenant_id;
  po_number = request.po_number;
  supplier_id = request.supplier_id;
  warehouse_id = request.warehouse_id;
  variant_id = request.variant_id;
  quantity = request.quantity;
  expected_unit_cost = request.expected_unit_cost;
  status = draft;
  created_by = actor.id;
  submitted_at = none;
  confirmed_at = none;
  received_at = none;
  created_at = env.now;
}

unfoldable pub add_order :
    Env → Uuid → User → PurchaseOrderCreateRequest → Database → Result (PurchaseOrder × Database)
add_order env tenant_id actor request db = do
  let order = new_order env tenant_id actor request
  orders ← insert same_number order db.purchase_orders
  let log =
      build_audit_log env 1 tenant_id actor.id "PURCHASE_ORDER_CREATED" "purchase_order" order.id
        none (some (order_dump order))
  ok (order, record db { purchase_orders = orders; audit_logs = log ∷ db.audit_logs })

-- The new state of an order and its log, which draws the id 0
abbrev pub save_order :
    Env → Uuid → User → String → PurchaseOrder → PurchaseOrder → Database → Database
save_order env tenant_id actor action before after db = record db {
  purchase_orders = update after db.purchase_orders;
  audit_logs =
      build_audit_log env 0 tenant_id actor.id action "purchase_order" after.id
        (some (order_dump before)) (some (order_dump after))
      ∷ db.audit_logs;
}

unfoldable pub submit :
    Env
    → Uuid
    → User
    → Uuid
    → Database
    → Result ((PurchaseOrder × Supplier × Warehouse × ProductVariant) × Database)
unfolding get_order own_supplier get_warehouse get_variant
submit env tenant_id actor order_id db = do
  order ← get_order tenant_id order_id db
  raise_if (not (order_status_eq order.status draft))
      (app_exception 400 invalid_purchase_order_state)
  supplier ← own_supplier tenant_id order.supplier_id db
  warehouse ← get_warehouse tenant_id order.warehouse_id db
  variant ← get_variant tenant_id order.variant_id db
  let after = record order { status = submitted; submitted_at = some env.now }
  ok (
    (after, supplier, warehouse, variant),
    save_order env tenant_id actor "PURCHASE_ORDER_SUBMITTED" order after db,
  )

unfoldable pub confirm : Env → Uuid → User → Uuid → Database → Result (PurchaseOrder × Database)
unfolding get_order
confirm env tenant_id actor order_id db = do
  order ← get_order tenant_id order_id db
  raise_if (not (order_status_eq order.status submitted))
      (app_exception 400 invalid_purchase_order_state)
  let after = record order { status = confirmed; confirmed_at = some env.now }
  ok (after, save_order env tenant_id actor "PURCHASE_ORDER_CONFIRMED" order after db)

-- `status in {SUBMITTED, CONFIRMED}`
abbrev pub is_receivable : PurchaseOrderStatus → Bool
is_receivable status = order_status_eq status submitted || order_status_eq status confirmed

unfoldable pub receive :
    Env
    → Uuid
    → User
    → Uuid
    → PurchaseOrderReceiveRequest
    → Database
    → Result (PurchaseOrder × Database)
unfolding get_order get_warehouse get_variant
receive env tenant_id actor order_id request db = do
  order ← get_order tenant_id order_id db
  raise_if (not (is_receivable order.status)) (app_exception 400 invalid_purchase_order_state)
  let quantity = or_quantity request.received_quantity order.quantity
  raise_if (ltb_ℤ order.quantity quantity) (app_exception 409 purchase_order_over_received)
  variant ← get_variant tenant_id order.variant_id db
  get_warehouse tenant_id order.warehouse_id db
  found ←
      one_or_none
        (select (stocked_at tenant_id order.variant_id order.warehouse_id) db.inventory_items)
  let item = or_item found (new_item env tenant_id order.variant_id order.warehouse_id variant)
  let credited = record item { quantity = item.quantity +ℤ quantity }
  let after = record order { status = received; received_at = some env.now }
  let order_log =
      build_audit_log env 1 tenant_id actor.id "PURCHASE_ORDER_RECEIVED" "purchase_order" after.id
        (some (order_dump order)) (some (order_dump after))
  let credit_log =
      build_audit_log env 2 tenant_id actor.id "PURCHASE_ORDER_INVENTORY_CREDIT" "inventory_item"
        credited.id (some (item_dump item)) (some (item_dump credited))
  items ← store_item found credited db.inventory_items
  ok (
    after,
    record db {
      inventory_items = items;
      purchase_orders = update after db.purchase_orders;
      audit_logs = credit_log ∷ order_log ∷ db.audit_logs;
    },
  )

unfoldable pub cancel : Env → Uuid → User → Uuid → Database → Result (PurchaseOrder × Database)
unfolding get_order
cancel env tenant_id actor order_id db = do
  order ← get_order tenant_id order_id db
  raise_if (order_status_eq order.status received) (app_exception 400 invalid_purchase_order_state)
  let after = record order { status = cancelled }
  ok (after, save_order env tenant_id actor "PURCHASE_ORDER_CANCELLED" order after db)

-- ===== src/Stock.antt =====
-- What the transfer, procurement and inventory services share: the queries for a warehouse, a
-- variant and the inventory item of a variant in a warehouse, and the item that they make if there
-- is none (app/services/{transfer,procurement,inventory}_service.py).
pub mod Laws
use backend_project.Prelude.{
  Uuid, ℤ, pos, ◌==ℤ◌, Bool, ◌&&◌, Option, none, some, List, ◌==◌, if◌then◌else◌,
}
use backend_project.Errors.{Result, ok, ◌>>=◌, app_exception, not_found}
use backend_project.Models.{
  Database, Warehouse, ProductVariant, InventoryItem, same_place, item_row,
}
use backend_project.Models.Enums.{normal}
use backend_project.Table.{select, one_or_none, or_raise, insert, update}
use backend_project.Session.{Env}

-- The parts of these queries that several services share
abbrev pub active_warehouse : Uuid → Uuid → Warehouse → Bool
active_warehouse tenant_id warehouse_id w =
    w.id == warehouse_id && (w.tenant_id == tenant_id && w.is_active)

abbrev pub own_variant : Uuid → Uuid → ProductVariant → Bool
own_variant tenant_id variant_id v = v.id == variant_id && v.tenant_id == tenant_id

abbrev pub stocked_at : Uuid → Uuid → Uuid → InventoryItem → Bool
stocked_at tenant_id variant_id warehouse_id i =
    i.tenant_id == tenant_id && (i.variant_id == variant_id && i.warehouse_id == warehouse_id)

-- `requested or default`, of Python: 0 counts as absent.
abbrev pub or_quantity : Option ℤ → ℤ → ℤ
or_quantity none default = default
or_quantity (some n) default = if n ==ℤ pos 0 then default else n

-- A new, empty inventory item
abbrev pub new_item : Env → Uuid → Uuid → Uuid → ProductVariant → InventoryItem
new_item env tenant_id variant_id warehouse_id variant = record {
  id = env.uuid4 0;
  tenant_id = tenant_id;
  variant_id = variant_id;
  warehouse_id = warehouse_id;
  quantity = pos 0;
  reorder_threshold = pos 5;
  last_sold_at = none;
  decay_status = normal;
  decay_started_at = none;
  current_price = variant.selling_price;
}

-- The found item or the new one, and how the flush stores what becomes of it
abbrev pub or_item : Option InventoryItem → InventoryItem → InventoryItem
or_item none fresh = fresh
or_item (some item) fresh = item

abbrev pub store_item :
    Option InventoryItem → InventoryItem → List InventoryItem → Result (List InventoryItem)
store_item none item items = insert same_place item items
store_item (some _) item items = ok (update item items)

-- `_get_warehouse`, `_get_warehouse_for_tenant`
unfoldable pub get_warehouse : Uuid → Uuid → Database → Result Warehouse
get_warehouse tenant_id warehouse_id db = do
  found ← one_or_none (select (active_warehouse tenant_id warehouse_id) db.warehouses)
  or_raise (app_exception 404 not_found) found

-- `_get_variant`, `_get_variant_for_tenant`
unfoldable pub get_variant : Uuid → Uuid → Database → Result ProductVariant
get_variant tenant_id variant_id db = do
  found ← one_or_none (select (own_variant tenant_id variant_id) db.product_variants)
  or_raise (app_exception 404 not_found) found

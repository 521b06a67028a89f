-- ===== src/Catalog/Bodies.antt =====
-- app/services/catalog_service.py: the queries and changes of each transaction, up to its commit.
use backend_project.Prelude.{
  ℕ, suc, Uuid, String, Cents, Bool, true, false, ◌&&◌, ◌||◌, ◌==◌, Option, none, some, List, [],
  ◌∷◌, if◌then◌else◌, map,
}
use backend_project.Errors.{
  Result, ok, raise_if, ◌>>=◌, ◌>>◌, app_exception, integrity_error, not_found,
}
use backend_project.Models.{
  Database, Product, ProductVariant, Warehouse, product_row, variant_row, warehouse_row, same_sku,
}
use backend_project.Models.Enums.{UserRole}
use backend_project.Table.{select, one_or_none, or_raise, insert, update}
use backend_project.Session.{Env}
use backend_project.Procurement.Bodies.{set_or, required, is_null}
use backend_project.Inventory.View.{can_view_cost}

pub record WarehouseCreateRequest : Type 0 where
  pub name : String
  pub location : Option String

-- In an update, `none` is a field that the client has not set, `some none` one that it has set to null.
pub record WarehouseUpdateRequest : Type 0 where
  pub name : Option (Option String)
  pub location : Option (Option String)
  pub is_active : Option (Option Bool)

pub record ProductVariantCreateRequest : Type 0 where
  pub sku : String
  pub color : Option String
  pub size : Option String
  pub barcode : Option String
  pub cost_price : Cents
  pub selling_price : Cents
  pub liquidation_floor_price : Cents

pub record ProductCreateRequest : Type 0 where
  pub name : String
  pub category : Option String
  pub unit_of_measure : String
  pub variants : List ProductVariantCreateRequest

pub record ProductUpdateRequest : Type 0 where
  pub name : Option (Option String)
  pub category : Option (Option String)
  pub unit_of_measure : Option (Option String)
  pub is_active : Option (Option Bool)

abbrev pub new_warehouse : Env → Uuid → WarehouseCreateRequest → Warehouse
new_warehouse env tenant_id request = record {
  id = env.uuid4 0;
  tenant_id = tenant_id;
  name = request.name;
  location = request.location;
  is_active = true;
}

unfoldable pub add_warehouse :
    Env → Uuid → WarehouseCreateRequest → Database → Result (Warehouse × Database)
add_warehouse env tenant_id request db = do
  let warehouse = new_warehouse env tenant_id request
  warehouses ← insert (λ a b. false) warehouse db.warehouses
  ok (warehouse, record db { warehouses = warehouses })

-- The warehouse with this id, active or not
unfoldable pub find_warehouse : Uuid → Uuid → Database → Result Warehouse
find_warehouse tenant_id warehouse_id db = do
  found ← one_or_none (select (λ w. w.id == warehouse_id && w.tenant_id == tenant_id) db.warehouses)
  or_raise (app_exception 404 not_found) found

abbrev pub updated_warehouse : Warehouse → WarehouseUpdateRequest → Warehouse
updated_warehouse w request = record w {
  name = required request.name w.name;
  location = set_or request.location w.location;
  is_active = required request.is_active w.is_active;
}

-- A column that is not nullable refuses null.
unfoldable pub change_warehouse :
    Warehouse → WarehouseUpdateRequest → Database → Result (Warehouse × Database)
change_warehouse w request db = do
  raise_if (is_null request.name || is_null request.is_active) integrity_error
  let changed = updated_warehouse w request
  ok (changed, record db { warehouses = update changed db.warehouses })

abbrev pub close_warehouse : Warehouse → Database → Result (Warehouse × Database)
close_warehouse w db =
    let closed = record w { is_active = false } in
    ok (closed, record db { warehouses = update closed db.warehouses })

abbrev pub new_product : Env → Uuid → ProductCreateRequest → Product
new_product env tenant_id request = record {
  id = env.uuid4 0;
  tenant_id = tenant_id;
  name = request.name;
  category = request.category;
  unit_of_measure = request.unit_of_measure;
  is_active = true;
}

abbrev pub new_variant : Env → ℕ → Uuid → ProductVariantCreateRequest → ProductVariant
new_variant env k tenant_id variant = record {
  id = env.uuid4 k;
  product_id = env.uuid4 0;
  tenant_id = tenant_id;
  sku = variant.sku;
  color = variant.color;
  size = variant.size;
  barcode = variant.barcode;
  cost_price = variant.cost_price;
  selling_price = variant.selling_price;
  liquidation_floor_price = variant.liquidation_floor_price;
}

-- The variants of the request; the k-th id drawn is the next one's.
unfoldable pub new_variants :
    Env → ℕ → Uuid → List ProductVariantCreateRequest → List ProductVariant
new_variants env k tenant_id [] = []
new_variants env k tenant_id (v ∷ vs) =
    new_variant env k tenant_id v ∷ new_variants env (suc k) tenant_id vs

unfoldable pub add_variants :
    List ProductVariant → List ProductVariant → Result (List ProductVariant)
add_variants [] table = ok table
add_variants (v ∷ vs) table = do table' ← insert same_sku v table; add_variants vs table'

unfoldable pub add_product :
    Env
    → Uuid
    → ProductCreateRequest
    → Database
    → Result ((Product × List ProductVariant) × Database)
add_product env tenant_id request db = do
  let product = new_product env tenant_id request
  let variants = new_variants env 1 tenant_id request.variants
  products ← insert (λ a b. false) product db.products
  product_variants ← add_variants variants db.product_variants
  ok ((product, variants), record db { products = products; product_variants = product_variants })

unfoldable pub find_product : Uuid → Uuid → Database → Result Product
find_product tenant_id product_id db = do
  found ← one_or_none (select (λ p. p.id == product_id && p.tenant_id == tenant_id) db.products)
  or_raise (app_exception 404 not_found) found

abbrev pub updated_product : Product → ProductUpdateRequest → Product
updated_product p request = record p {
  name = required request.name p.name;
  category = set_or request.category p.category;
  unit_of_measure = required request.unit_of_measure p.unit_of_measure;
  is_active = required request.is_active p.is_active;
}

unfoldable pub change_product :
    Product → ProductUpdateRequest → Database → Result (Product × Database)
change_product p request db = do
  raise_if (is_null request.name || (is_null request.unit_of_measure || is_null request.is_active))
      integrity_error
  let changed = updated_product p request
  ok (changed, record db { products = update changed db.products })

abbrev pub close_product : Product → Database → Result (Product × Database)
close_product p db =
    let closed = record p { is_active = false } in
    ok (closed, record db { products = update closed db.products })

pub record ProductVariantResponse : Type 0 where
  pub id : Uuid
  pub sku : String
  pub color : Option String
  pub size : Option String
  pub barcode : Option String
  pub cost_price : Option Cents
  pub selling_price : Cents
  pub liquidation_floor_price : Cents

pub record ProductResponse : Type 0 where
  pub product : Product
  pub variants : List ProductVariantResponse

-- `_serialize_variant`
abbrev pub serialize_variant : UserRole → ProductVariant → ProductVariantResponse
serialize_variant role v = record {
  id = v.id;
  sku = v.sku;
  color = v.color;
  size = v.size;
  barcode = v.barcode;
  cost_price = if can_view_cost role then some v.cost_price else none;
  selling_price = v.selling_price;
  liquidation_floor_price = v.liquidation_floor_price;
}

-- `_serialize_product`
abbrev pub serialize_product : UserRole → Product → List ProductVariant → ProductResponse
serialize_product role product variants = record {
  product = product;
  variants = map (serialize_variant role) variants;
}

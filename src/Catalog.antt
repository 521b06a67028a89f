-- ===== src/Catalog.antt =====
-- app/services/catalog_service.py: warehouses, products and their variants. `list_warehouses` stands
-- with the other listings in Pagination.
pub mod Bodies
pub mod Variants
pub mod Prices
pub mod History
pub mod Atomic
mod Tests
use backend_project.Prelude.{
  ℕ, Uuid, String, Bool, true, ◌&&◌, ◌==◌, str_eq, Option, none, some, List, any, map,
  if◌then◌else◌,
}
use backend_project.Errors
use backend_project.Errors.{
  Fault, Result, ok, app_exception, integrity_error, sku_conflict, variant_conflict,
}
use backend_project.Models.{Database, Product, ProductVariant, Warehouse, product_row}
use backend_project.Models.Enums.{UserRole}
use backend_project.Table.{select}
use backend_project.Session.{
  Env, Exec, pure, raise, read, rollback, others, transaction, commit_after, on_conflict,
  rollback_and_raise, ◌>>=◌, ◌>>◌,
}
use Bodies.{
  WarehouseCreateRequest, WarehouseUpdateRequest, ProductCreateRequest, ProductUpdateRequest,
  ProductVariantResponse, ProductResponse, add_warehouse, find_warehouse, change_warehouse,
  close_warehouse, add_product, find_product, change_product, close_product, serialize_variant,
  serialize_product,
}
use Variants.{ProductVariantUpdateRequest, find_variant, check_prices, change_variant}

unfoldable pub create_warehouse : Env → Uuid → WarehouseCreateRequest → Exec Warehouse
create_warehouse env tenant_id request =
    transaction env (add_warehouse env tenant_id request) rollback_and_raise

unfoldable pub update_warehouse : Env → Uuid → Uuid → WarehouseUpdateRequest → Exec Warehouse
update_warehouse env tenant_id warehouse_id request = do
  warehouse ← read (find_warehouse tenant_id warehouse_id)
  commit_after env (change_warehouse warehouse request)

unfoldable pub deactivate_warehouse : Env → Uuid → Uuid → Exec Warehouse
deactivate_warehouse env tenant_id warehouse_id = do
  warehouse ← read (find_warehouse tenant_id warehouse_id)
  commit_after env (close_warehouse warehouse)

-- The handlers of `create_product`
unfoldable pub on_product_fault : {A : Type 0} → Fault → Exec A
on_product_fault integrity_error = do rollback; raise (app_exception 409 sku_conflict)
on_product_fault fault = rollback_and_raise fault

unfoldable pub create_product : Env → Uuid → ProductCreateRequest → UserRole → Exec ProductResponse
create_product env tenant_id request current_role = do
  (product, variants) ← transaction env (add_product env tenant_id request) on_product_fault
  pure (serialize_product current_role product variants)

-- The variants of a product, by `ORDER BY sku`, whose order is the database's collation
abbrev pub variants_of :
    (List ProductVariant → List ProductVariant) → Uuid → Uuid → Database → List ProductVariant
variants_of by_sku tenant_id product_id db =
    by_sku
      (select (λ v. v.product_id == product_id && v.tenant_id == tenant_id) db.product_variants)

module _ (by_sku : List ProductVariant → List ProductVariant) where
  abbrev pub respond : Uuid → UserRole → Product → Exec ProductResponse
  respond tenant_id role product = do
    variants ← read (λ db. ok (variants_of by_sku tenant_id product.id db))
    pure (serialize_product role product variants)

  unfoldable pub update_product :
      Env → Uuid → Uuid → ProductUpdateRequest → UserRole → Exec ProductResponse
  update_product env tenant_id product_id request current_role = do
    product ← read (find_product tenant_id product_id)
    changed ← commit_after env (change_product product request)
    respond tenant_id current_role changed

  unfoldable pub deactivate_product : Env → Uuid → Uuid → UserRole → Exec ProductResponse
  deactivate_product env tenant_id product_id current_role = do
    product ← read (find_product tenant_id product_id)
    closed ← commit_after env (close_product product)
    respond tenant_id current_role closed

  unfoldable pub get_product : Uuid → Uuid → UserRole → Exec ProductResponse
  get_product tenant_id product_id current_role = do
    product ← read (find_product tenant_id product_id)
    respond tenant_id current_role product

-- No row is locked: `meanwhile` is what other sessions commit between the query and the UPDATE.
unfoldable pub update_product_variant :
    Env
    → (Database → Database)
    → Uuid
    → Uuid
    → ProductVariantUpdateRequest
    → UserRole
    → Exec ProductVariantResponse
update_product_variant env meanwhile tenant_id variant_id request current_role = do
  variant ← read (find_variant tenant_id variant_id)
  read (λ db. check_prices variant request)
  others meanwhile
  changed ←
      transaction env (change_variant variant request)
        (on_conflict (app_exception 409 variant_conflict))
  pure (serialize_variant current_role changed)

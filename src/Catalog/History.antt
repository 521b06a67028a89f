-- ===== src/Catalog/History.antt =====
-- The catalog service as a whole: a sequence of calls, each from a session of its own.
use backend_project.Prelude.{Uuid, List, [], ◌∷◌}
use backend_project.Models.{Database, ProductVariant}
use backend_project.Models.Enums.{UserRole}
use backend_project.Session.{Env, start}
use backend_project.Catalog.{
  create_warehouse, update_warehouse, deactivate_warehouse, create_product, update_product,
  deactivate_product, update_product_variant,
}
use backend_project.Catalog.Bodies.{
  WarehouseCreateRequest, WarehouseUpdateRequest, ProductCreateRequest, ProductUpdateRequest,
}
use backend_project.Catalog.Variants.{ProductVariantUpdateRequest}
use backend_project.Catalog.Prices.{AreValid}

pub data Operation : Type 0 where
  open_warehouse : WarehouseCreateRequest → Operation
  edit_warehouse : Uuid → WarehouseUpdateRequest → Operation
  close_warehouse : Uuid → Operation
  make_product : ProductCreateRequest → Operation
  edit_product : Uuid → ProductUpdateRequest → Operation
  close_product : Uuid → Operation
  edit_variant : Uuid → ProductVariantUpdateRequest → Operation

-- `meanwhile` is what other sessions commit between the query and the UPDATE of `edit_variant`.
pub record Call : Type 0 where
  pub env : Env
  pub meanwhile : Database → Database
  pub tenant_id : Uuid
  pub role : UserRole
  pub operation : Operation

-- What the schemas check of the prices of a new product.
abbrev pub IsValid : Operation → Type 0
IsValid (make_product request) = AreValid request.variants
IsValid _ = Unit

module _ (by_sku : List ProductVariant → List ProductVariant) where
  -- The database that a call leaves
  abbrev pub perform :
      Env → (Database → Database) → Uuid → UserRole → Operation → Database → Database
  perform env meanwhile tenant_id role (open_warehouse request) db =
      (create_warehouse env tenant_id request (start db)).1.committed
  perform env meanwhile tenant_id role (edit_warehouse id request) db =
      (update_warehouse env tenant_id id request (start db)).1.committed
  perform env meanwhile tenant_id role (close_warehouse id) db =
      (deactivate_warehouse env tenant_id id (start db)).1.committed
  perform env meanwhile tenant_id role (make_product request) db =
      (create_product env tenant_id request role (start db)).1.committed
  perform env meanwhile tenant_id role (edit_product id request) db =
      (update_product by_sku env tenant_id id request role (start db)).1.committed
  perform env meanwhile tenant_id role (close_product id) db =
      (deactivate_product by_sku env tenant_id id role (start db)).1.committed
  perform env meanwhile tenant_id role (edit_variant id request) db =
      (update_product_variant env meanwhile tenant_id id request role (start db)).1.committed

  unfoldable pub serve_catalog : List Call → Database → Database
  serve_catalog [] db = db
  serve_catalog (c ∷ cs) db =
      serve_catalog cs (perform c.env c.meanwhile c.tenant_id c.role c.operation db)

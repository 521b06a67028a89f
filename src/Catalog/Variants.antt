-- ===== src/Catalog/Variants.antt =====
-- app/services/catalog_service.py: what update_product_variant checks and writes.
use backend_project.Prelude.{
  str_eq, Uuid, String, Cents, ltb, Bool, true, false, ◌&&◌, ◌==◌, Option, none, some,
  if◌then◌else◌,
}
use backend_project.Errors.{
  Result, ok, raised, raise_if, ◌>>=◌, ◌>>◌, app_exception, failure, integrity_error, not_found,
  invalid_price,
}
use backend_project.Models.{Database, ProductVariant, product_row, variant_row, warehouse_row}
use backend_project.Table.{select, one_or_none, or_raise, update}
use backend_project.Procurement.Bodies.{is_null}

-- `none` is a field that the client has not set, `some none` one that it has set to null.
pub record ProductVariantUpdateRequest : Type 0 where
  pub color : Option (Option String)
  pub size : Option (Option String)
  pub barcode : Option (Option String)
  pub cost_price : Option (Option Cents)
  pub selling_price : Option (Option Cents)
  pub liquidation_floor_price : Option (Option Cents)

unfoldable pub find_variant : Uuid → Uuid → Database → Result ProductVariant
find_variant tenant_id variant_id db = do
  found ←
      one_or_none (select (λ v. v.id == variant_id && v.tenant_id == tenant_id) db.product_variants)
  or_raise (app_exception 404 not_found) found

-- `updates.get(field, …)`; comparing with None raises a TypeError.
abbrev pub price_of : Option (Option Cents) → Cents → Result Cents
price_of none old = ok old
price_of (some none) old = raised failure
price_of (some (some new)) old = ok new

unfoldable pub check_prices : ProductVariant → ProductVariantUpdateRequest → Result (Unit {0})
check_prices v request = do
  selling_price ← price_of request.selling_price v.selling_price
  floor_price ← price_of request.liquidation_floor_price v.liquidation_floor_price
  raise_if (ltb selling_price floor_price) (app_exception 400 invalid_price)

-- The UPDATE sets the fields that the request sets to another value than the one that was loaded.
abbrev pub written_price : Option (Option Cents) → Cents → Cents → Cents
written_price (some (some new)) loaded current = if new == loaded then current else new
written_price _ loaded current = current

abbrev same_text : Option String → Option String → Bool
same_text none none = true
same_text (some a) (some b) = str_eq a b
same_text _ _ = false

abbrev written_text : Option (Option String) → Option String → Option String → Option String
written_text none loaded current = current
written_text (some new) loaded current = if same_text new loaded then current else new

abbrev pub written_variant :
    ProductVariant → ProductVariantUpdateRequest → ProductVariant → ProductVariant
written_variant loaded request current = record current {
  color = written_text request.color loaded.color current.color;
  size = written_text request.size loaded.size current.size;
  barcode = written_text request.barcode loaded.barcode current.barcode;
  cost_price = written_price request.cost_price loaded.cost_price current.cost_price;
  selling_price = written_price request.selling_price loaded.selling_price current.selling_price;
  liquidation_floor_price =
      written_price request.liquidation_floor_price loaded.liquidation_floor_price
        current.liquidation_floor_price;
}

-- The row that the UPDATE finds by its key, as it is then; none is an error (`StaleDataError`).
unfoldable pub row_of : Uuid → Database → Result ProductVariant
row_of id db = do
  found ← one_or_none (select (λ v. v.id == id) db.product_variants)
  or_raise failure found

-- `loaded` is the variant as `update_product_variant` has read it, without a lock. The prices of the
-- request are not null after `check_prices`.
unfoldable pub change_variant :
    ProductVariant → ProductVariantUpdateRequest → Database → Result (ProductVariant × Database)
unfolding row_of
change_variant loaded request db = do
  raise_if (is_null request.cost_price) integrity_error
  current ← row_of loaded.id db
  let changed = written_variant loaded request current
  ok (changed, record db { product_variants = update changed db.product_variants })

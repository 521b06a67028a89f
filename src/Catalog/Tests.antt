-- ===== src/Catalog/Tests.antt =====
-- Products of the sample shop, run on the code.
use backend_project.Prelude.{◌≡◌, ◌≢◌, refl, List, [], ◌∷◌, some, none}
use backend_project.Errors
use backend_project.Errors.{
  Fault, raised, app_exception, integrity_error, sku_conflict, invalid_price,
}
use backend_project.Models.Enums.{tenant_admin}
use backend_project.Table.{select, insert, update}
use backend_project.Models.{Database, variant_row}
use backend_project.Session.{start, transaction, ◌>>=◌}
use backend_project.Samples.{calm, shop, red_shirt, warehouse}
use backend_project.Catalog.{create_product, on_product_fault, update_product_variant}
use backend_project.Catalog.Bodies.{
  ProductVariantCreateRequest, ProductCreateRequest, new_variants, add_variants, add_product,
}
use backend_project.Catalog.Variants.{
  ProductVariantUpdateRequest, find_variant, check_prices, row_of, change_variant,
}
use backend_project.Catalog.History.{Call, make_product, edit_variant}
use backend_project.Catalog.Atomic.{IsUntouched, create_product-IsUntouched}

abbrev blue_cap : ProductVariantCreateRequest
blue_cap = record {
  sku = "CAP-BLUE";
  color = some "blue";
  size = none;
  barcode = none;
  cost_price = 900;
  selling_price = 1990;
  liquidation_floor_price = 990;
}

abbrev cap : ProductCreateRequest
cap = record { name = "Cap"; category = none; unit_of_measure = "pcs"; variants = blue_cap ∷ [] }

-- A new price of 20.00
abbrev cheaper : ProductVariantUpdateRequest
cheaper = record {
  color = none;
  size = none;
  barcode = none;
  cost_price = none;
  selling_price = some (some 2000);
  liquidation_floor_price = none;
}

-- It lies below the floor of the red shirt.
too_cheap :
    update_product_variant calm (λ db. db) 1 20 cheaper tenant_admin (start shop)
    ≡ (raised (app_exception 400 invalid_price), start shop)
unfolding update_product_variant find_variant check_prices select ◌>>=◌ Errors.◌>>=◌
too_cheap = refl

-- Another session opens a warehouse meanwhile.
abbrev elsewhere : Database → Database
elsewhere db = record db { warehouses = warehouse 12 ∷ db.warehouses }

-- A new price of 40.00, above the floor
abbrev fair : ProductVariantUpdateRequest
fair = record cheaper { selling_price = some (some 4000) }

abbrev calls : List Call
calls =
    record {
      env = calm;
      meanwhile = elsewhere;
      tenant_id = 1;
      role = tenant_admin;
      operation = make_product cap;
    }
    ∷ record {
      env = calm;
      meanwhile = elsewhere;
      tenant_id = 1;
      role = tenant_admin;
      operation = edit_variant 20 fair;
    }
    ∷ []

-- Another session raises the floor to 45.00 meanwhile, which the old price allows: both pass their
-- checks, and the floor ends above the price.
abbrev raise_floor : Database → Database
raise_floor db = record db {
  product_variants = record red_shirt { liquidation_floor_price = 4500 } ∷ [];
}

raced :
    (update_product_variant calm raise_floor 1 20 fair tenant_admin
      (start shop)).1.committed.product_variants
    ≡ record red_shirt { selling_price = 4000; liquidation_floor_price = 4500 } ∷ []
unfolding update_product_variant change_variant row_of find_variant check_prices transaction select
    update ◌>>=◌ Errors.◌>>=◌
raced = refl

-- A second product with the SKU of the red shirt
abbrev copy : ProductCreateRequest
copy = record cap { variants = record blue_cap { sku = "RED-L" } ∷ [] }

copied :
    create_product calm 1 copy tenant_admin (start shop)
    ≡ (raised (app_exception 409 sku_conflict), start shop)
unfolding create_product on_product_fault transaction add_product new_variants add_variants insert
    ◌>>=◌ Errors.◌>>=◌
copied = refl

create_product-IsUntouched_example :
    (app_exception 409 sku_conflict ≢ integrity_error) × IsUntouched calm shop (start shop)
create_product-IsUntouched_example =
    create_product-IsUntouched calm 1 copy tenant_admin shop (start shop)
      (app_exception 409 sku_conflict) copied

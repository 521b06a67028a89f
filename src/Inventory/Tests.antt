-- ===== src/Inventory/Tests.antt =====
-- The figures of the inventory service, and the theorems on them, at concrete numbers.
use backend_project.Errors
use backend_project.Table.{select}
use backend_project.Stock.{get_variant, get_warehouse, stocked_at}
use backend_project.Prelude.{
  ℕ, Uuid, String, ◌==◌, if◌then◌else◌, true, List, [], ◌∷◌, ◌≡◌, ◌≤◌, ◌↔◌, ◌+ℤ◌, ◌≤ℤ◌, ◌*◌, ◌+◌,
  refl, pos, arith, ◌-ℤ◌,
}
use backend_project.Inventory.View.{round_half_up, discount_pct}
use backend_project.Inventory.Forecast.{hundred, target_stock, recommended_quantity}
use backend_project.Inventory.Rounding.{discount_pct-bounds}
use backend_project.Redis.{Redis, forget, ◌>>=◌}
use backend_project.Samples.{calm, shop, shelf}
use backend_project.Auth.Samples.{settings}
use backend_project.Inventory.Reserve.{reserved_quantity, reserve_stock}
use backend_project.Inventory.Reservations.{Call, serve_reservations, serve_reservations-within}
use backend_project.Inventory.Reorder.{recommended_quantity-least}

-- 29.90 of 49.90 is a discount of 40.08 percent.
discount_pct_test : discount_pct 2990 4990 ≡ 4008
unfolding discount_pct round_half_up
discount_pct_test = refl

discount_pct-bounds_example :
    (discount_pct 2990 4990 ≤ 10000)
    × ((discount_pct 2990 4990 ≤ discount_pct 2500 4990) × (discount_pct (4990 + 10) 4990 ≡ 0))
discount_pct-bounds_example = discount_pct-bounds 2990 2500 4990 10 (omega arith) (omega arith)

-- 1.43 a day for a week, up to a threshold of 5, with 4 in stock.
recommended_quantity_test : recommended_quantity 143 7 (pos 5) (pos 4) ≡ 12
unfolding recommended_quantity ◌-ℤ◌ ◌+ℤ◌
recommended_quantity_test = refl

recommended_quantity-least_example :
    (target_stock 143 7 (pos 5) ≤ℤ hundred (pos 4) +ℤ pos (100 * 12))
    ↔ (recommended_quantity 143 7 (pos 5) (pos 4) ≤ 12)
recommended_quantity-least_example = recommended_quantity-least 143 7 (pos 5) (pos 4) 12

-- Ten red shirts lie in warehouse 10; four of them are asked for, then seven, then six.
abbrev asks : ℕ → ℕ → Call
asks now units = record {
  acquired = true;
  env = record calm { now = now; uuid4 = λ k. now + k };
  tenant_id = 1;
  request = record {
    variant_id = 20;
    warehouse_id = 10;
    quantity = pos units;
    order_reference = "order";
  };
  db = shop;
}

abbrev asked : List Call
asked = asks 100 4 ∷ asks 110 7 ∷ asks 120 6 ∷ []

abbrev unreserved : Redis
unreserved = record { refresh_sessions = []; reservations = []; counters = [] }

abbrev named : Uuid → String
named id = if id == 100 then "a" else if id == 110 then "b" else "c"

all_reserved :
    reserved_quantity 130 1 10 20 (serve_reservations named settings asked unreserved).reservations
    ≡ pos 10
unfolding reserved_quantity serve_reservations reserve_stock get_variant get_warehouse select forget
    Errors.◌>>=◌ ◌>>=◌ ◌+ℤ◌ ◌-ℤ◌
all_reserved = refl

none_reserved : reserved_quantity 100 1 10 20 [] ≤ℤ pos 10
unfolding reserved_quantity
none_reserved = omega arith

most : stocked_at 1 20 10 shelf ≡ true → shelf.quantity ≤ℤ pos 10
most e = omega arith

serve_reservations-within_example :
    reserved_quantity 130 1 10 20 (serve_reservations named settings asked unreserved).reservations
    ≤ℤ pos 10
serve_reservations-within_example =
    serve_reservations-within named settings 1 10 20 (pos 10) 100 130 asked unreserved tt
      none_reserved
      ((
        omega arith,
        (
          omega arith,
          (
            (most, tt),
            (
              omega arith,
              (omega arith, ((most, tt), (omega arith, (omega arith, ((most, tt), tt))))),
            ),
          ),
        ),
      ))
      (omega arith, (omega arith, (omega arith, tt))) (omega arith)

-- ===== src/Inventory/Reorder.antt =====
-- What the forecast recommends is the least order that suffices.
use backend_project.Prelude.{ℕ, ◌*◌, ◌≤◌, ◌↔◌, ℤ, pos, negsuc, ◌+ℤ◌, ◌-ℤ◌, ◌≤ℤ◌, int_laws, arith}
use backend_project.Inventory.Forecast.{ceil_pos, hundred, target_stock, recommended_quantity}

ceil_pos-least : (x : ℤ) (n : ℕ) → (x ≤ℤ pos (100 * n)) ↔ (ceil_pos x ≤ n)
ceil_pos-least (pos m) n = ground arith
ceil_pos-least (negsuc m) n = ground arith

to_difference : (t q : ℤ) (n : ℕ) → (t ≤ℤ q +ℤ pos n) ↔ (t -ℤ q ≤ℤ pos n)
to_difference t q n = grind int_laws

-- An order of `n` units covers the demand of the lead time and the threshold, with what is in stock,
-- exactly if `n` is at least the recommended quantity (demand and stock in hundredths of a unit).
pub recommended_quantity-least :
    (demand lead : ℕ) (threshold quantity : ℤ) (n : ℕ)
    → (target_stock demand lead threshold ≤ℤ hundred quantity +ℤ pos (100 * n))
      ↔ (recommended_quantity demand lead threshold quantity ≤ n)
unfolding recommended_quantity
recommended_quantity-least demand lead threshold quantity n =
    let there = to_difference (target_stock demand lead threshold) (hundred quantity) (100 * n) in
    let here = ceil_pos-least (target_stock demand lead threshold -ℤ hundred quantity) n in
    (λ h. here.0 (there.0 h), λ h. there.1 (here.1 h))

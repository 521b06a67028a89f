-- ===== src/Decay/Laws.antt =====
-- What a discount does to the price of an item.
use backend_project.Prelude.{ℕ, ◌*◌, ◌-◌, ◌≤◌, ◌<◌, Cents, arith}
use native.Mathlib.Nat.{mul-le-mul_left, mul-le-mul_right}
use backend_project.Inventory.View.{round_half_up}
use backend_project.Inventory.Rounding.{round_half_up-le, round_half_up_mono}
use backend_project.Decay.Price.{Percent, calculate_decay_price}

discounted-le :
    (price units scale : ℕ)
    → 0 < scale
    → round_half_up (price * (100 * scale - units)) (100 * scale) ≤ price
discounted-le price units scale h =
    let parts : 100 * scale - units ≤ 100 * scale = omega arith in
    round_half_up-le (price * (100 * scale - units)) (100 * scale) price (omega arith)
      (mul-le-mul_left price parts)

-- For a percentage with a positive scale: from a price at or above the floor, a cycle makes one that
-- is at or above the floor and at most the old one; and from a lower price it makes one that is no
-- higher.
pub calculate_decay_price-bounds :
    (price lower floor_price : Cents) (pct : Percent)
    → 0 < pct.scale
    → floor_price ≤ price
    → lower ≤ price
    → (floor_price ≤ calculate_decay_price price floor_price pct)
      × ((calculate_decay_price price floor_price pct ≤ price)
          × (calculate_decay_price lower floor_price pct
              ≤ calculate_decay_price price floor_price pct))
unfolding calculate_decay_price
calculate_decay_price-bounds price lower floor_price pct h k l =
    let next = discounted-le price pct.units pct.scale h in
    let mono =
      round_half_up_mono (lower * (100 * pct.scale - pct.units))
        (price * (100 * pct.scale - pct.units)) (100 * pct.scale) (omega arith)
        (mul-le-mul_right (100 * pct.scale - pct.units) l) in
    (ground arith, (ground arith, ground arith))

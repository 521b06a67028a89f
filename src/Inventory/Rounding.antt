-- ===== src/Inventory/Rounding.antt =====
-- Bounds and order of the rounded quotient, and of the discount that is shown to a client.
use backend_project.Prelude.{ℕ, false, ◌+◌, ◌*◌, ◌-◌, ◌≤◌, ◌<◌, ◌≡◌, ◌==◌, arith, Cents}
use native.Mathlib.Nat.{div-lt_iff_lt-mul, le-div_iff_mul-le, div-mul-le_self}
use backend_project.Inventory.View.{round_half_up, discount_pct}

-- The rounded quotient is at most `n` if the quotient is.
pub round_half_up-le : (a b n : ℕ) → 0 < b → a ≤ n * b → round_half_up a b ≤ n
unfolding round_half_up
round_half_up-le a b n h k =
    let wide : 0 < 2 * b = omega arith in
    let below : 2 * a + b < (n + 1) * (2 * b) = omega arith in
    let q = (div-lt_iff_lt-mul wide).1 below in omega arith

pub round_half_up_mono : (a a' b : ℕ) → 0 < b → a ≤ a' → round_half_up a b ≤ round_half_up a' b
unfolding round_half_up
round_half_up_mono a a' b h k =
    let wide : 0 < 2 * b = omega arith in
    let below = div-mul-le_self (2 * a + b) (2 * b) in (le-div_iff_mul-le wide).1 (omega arith)

-- The discount shown for a positive original price is at most 100 percent, never smaller for a lower
-- current price, and nothing where the current price is the original one or more.
pub discount_pct-bounds :
    (current lower original extra : Cents)
    → 0 < original
    → lower ≤ current
    → (discount_pct current original ≤ 10000)
      × ((discount_pct current original ≤ discount_pct lower original)
          × (discount_pct (original + extra) original ≡ 0))
unfolding discount_pct
discount_pct-bounds current lower original extra h k =
    let positive : (original == 0) ≡ false = ground arith in
    rw positive (
      round_half_up-le (10000 * (original - current)) original 10000 h (omega arith),
      (
        round_half_up_mono (10000 * (original - current)) (10000 * (original - lower)) original h
            (omega arith),
        omega (
          arith,
          round_half_up-le (10000 * (original - (original + extra))) original 0 h (omega arith),
        ),
      ),
    )

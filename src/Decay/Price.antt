-- ===== src/Decay/Price.antt =====
-- `calculate_decay_price` of app/services/decay_service.py.
use backend_project.Prelude.{ℕ, ◌*◌, ◌-◌, Cents, leb, if◌then◌else◌}
use backend_project.Inventory.View.{round_half_up}

-- A percentage as a decimal number, `units / scale`.
pub record Percent : Type 0 where
  pub units : ℕ
  pub scale : ℕ

abbrev pub max_cents : Cents → Cents → Cents
max_cents a b = if leb b a then a else b

unfoldable pub calculate_decay_price : Cents → Cents → Percent → Cents
calculate_decay_price current_price floor_price pct =
    max_cents (round_half_up (current_price * (100 * pct.scale - pct.units)) (100 * pct.scale))
      floor_price

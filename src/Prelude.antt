-- ===== src/Prelude.antt =====
-- Names that all modules share: the libraries', passed on, and those of three children.
mod Tests
mod Int
mod Lists
pub use Tests.*
pub use Int.*
unfoldable pub use Int.{◌+ℤ◌, ◌-ℤ◌}
pub use Lists.*
pub use Prim.Native.Nat.{ℕ, zero, suc, ◌+◌, ◌-◌, ◌*◌, ◌/◌, ◌%◌, ◌≤◌, ◌<◌}
pub use Prim.Native.String.{String}
pub use mathlib.Core.Path.{◌≡◌, refl, sym, ap, subst, ◌∙◌}
pub use mathlib.Core.Logic.{◌≢◌, ◌↔◌, ◌⊎◌, inl, inr}
pub use mathlib.Core.Bool.{Bool, true, false, ◌&&◌, ◌||◌, not}
pub use mathlib.Core.Option.{Option, none, some}
pub use mathlib.Core.List.{List, [], ◌∷◌, ◌++◌, map}
pub use native.Mathlib.Omega.{arith}
pub use text.Mathlib.Text.{◌==◌ as str_eq}
pub use text.Mathlib.TextEquality.{eq_iff as str_eq_iff}

-- A UUID is the 128-bit number it stands for: the order of the column is the order of numbers.
abbrev pub Uuid : Type 0
Uuid = ℕ

-- A point in time: seconds of the UTC clock.
abbrev pub Time : Type 0
Time = ℕ

-- A `Numeric(12, 2)` amount of at least zero, in cents.
abbrev pub Cents : Type 0
Cents = ℕ

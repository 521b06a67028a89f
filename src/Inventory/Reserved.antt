-- ===== src/Inventory/Reserved.antt =====
-- The reserved units of a place, as keys expire or are replaced.
use backend_project.Prelude.{
  ◌≤◌, Uuid, Time, ℤ, pos, ◌+ℤ◌, ◌≤ℤ◌, true, ◌≡◌, refl, Bool-cases, inl, inr, Option, none, some,
  List, [], ◌∷◌, All, arith, int_laws,
}
use backend_project.Redis.{Entry, ReservationKey, Reservation, is_live, forget}
use backend_project.Redis.Laws.{reservation_key}
use backend_project.Inventory.Reserve.{reserved_quantity}

abbrev pub AreSome : List (Entry ReservationKey Reservation) → Type 0
AreSome es = All (λ e. pos 0 ≤ℤ e.value.quantity) es

add_left : (a b q : ℤ) → a ≤ℤ b → pos 0 ≤ℤ q → a ≤ℤ b +ℤ q
add_left a b q h n = grind int_laws

pub add_both : (a b q : ℤ) → a ≤ℤ b → a +ℤ q ≤ℤ b +ℤ q
add_both a b q h = grind int_laws

live_later :
    (now later : Time) (o : Option Time)
    → now ≤ later
    → is_live later o ≡ true
    → is_live now o ≡ true
live_later now later none h e = refl
live_later now later (some t) h e = ground arith

module _ (t w v : Uuid) where
  abbrev reserved : Time → List (Entry ReservationKey Reservation) → ℤ
  reserved now es = reserved_quantity now t w v es

  pub forget-AreSome :
      (k : ReservationKey) (es : List (Entry ReservationKey Reservation))
      → AreSome es
      → AreSome (forget k es)
  unfolding forget
  forget-AreSome k [] h = tt
  forget-AreSome k (e ∷ es) h = elim (Bool-cases (reservation_key.same e.key k)) [
    | inl q ↦ rw q (forget-AreSome k es h.1)
    | inr q ↦ rw q (h.0, forget-AreSome k es h.1)
  ]

  pub forget_less :
      (now : Time) (k : ReservationKey) (es : List (Entry ReservationKey Reservation))
      → AreSome es
      → reserved now (forget k es) ≤ℤ reserved now es
  unfolding forget reserved_quantity
  forget_less now k [] h = omega arith
  forget_less now k (e ∷ es) h =
      let rest = forget_less now k es h.1 in
      let below = reserved now (forget k es) in
      let above = reserved now es in
      ground (
        arith,
        add_left below above e.value.quantity rest h.0,
        add_both below above e.value.quantity rest,
        rest,
      )

  pub later_less :
      (now later : Time) (es : List (Entry ReservationKey Reservation))
      → now ≤ later
      → AreSome es
      → reserved later es ≤ℤ reserved now es
  unfolding reserved_quantity
  later_less now later [] l h = omega arith
  later_less now later (e ∷ es) l h =
      let rest = later_less now later es l h.1 in
      let below = reserved later es in
      let above = reserved now es in
      ground (
        arith,
        live_later now later e.expires_at l,
        add_left below above e.value.quantity rest h.0,
        add_both below above e.value.quantity rest,
        rest,
      )

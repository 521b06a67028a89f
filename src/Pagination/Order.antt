-- ===== src/Pagination/Order.antt =====
-- The order of a listing, and what the condition on the cursor leaves of it.
use backend_project.Prelude.{
  ℕ, zero, suc, ◌<◌, ◌≤◌, Uuid, Bool, true, ◌&&◌, ◌≡◌, ap, refl, arith, Bool-cases, inl, inr,
  Option, none, some, List, [], ◌∷◌, All, leb,
}
use backend_project.Table.{Row, select}
use backend_project.Table.Laws.{IsAbsent, UniqueKeys}
use backend_project.Pagination.{is_after, insert_by_id, order_by_id}

module _ {A : Type 0} where
  pub select-All : (P : A → Type 0) (p : A → Bool) (xs : List A) → All P xs → All P (select p xs)
  unfolding select
  select-All P p [] h = tt
  select-All P p (x ∷ xs) h = elim (Bool-cases (p x)) [
    | inl e ↦ rw e (h.0, select-All P p xs h.1)
    | inr e ↦ rw e (select-All P p xs h.1)
  ]

  -- Two conditions one after the other.
  pub select-select :
      (p q : A → Bool) (xs : List A) → select (λ x. p x && q x) xs ≡ select q (select p xs)
  unfolding select
  select-select p q [] = refl
  select-select p q (x ∷ xs) = elim (Bool-cases (p x)) [
    | inl e ↦ elim (Bool-cases (q x)) [
      | inl d ↦ rw e (rw d (ap (λ r. x ∷ r) (select-select p q xs)))
      | inr d ↦ rw e (rw d (select-select p q xs))
    ]
    | inr e ↦ rw e (select-select p q xs)
  ]

  abbrev pub drop : ℕ → List A → List A
  drop zero xs = xs
  drop (suc n) [] = []
  drop (suc n) (x ∷ xs) = drop n xs

module _ {A : Type 0} ⦃row : Row A⦄ where
  abbrev pub Ascending : List A → Type 0
  Ascending [] = Unit
  Ascending (x ∷ xs) = All (λ y. row.key x < row.key y) xs × Ascending xs

  insert_by_id-All :
      (P : A → Type 0) (x : A) (xs : List A) → All P xs → P x → All P (insert_by_id x xs)
  unfolding insert_by_id
  insert_by_id-All P x [] h p = (p, tt)
  insert_by_id-All P x (y ∷ ys) h p = elim (Bool-cases (leb (row.key x) (row.key y))) [
    | inl e ↦ rw e (p, h)
    | inr e ↦ rw e (h.0, insert_by_id-All P x ys h.1 p)
  ]

  pub All-above :
      (k l : Uuid) (xs : List A) → k ≤ l → All (λ y. l < row.key y) xs → All (λ y. k < row.key y) xs
  All-above k l [] h a = tt
  All-above k l (x ∷ xs) h a = (omega arith, All-above k l xs h a.1)

  insert_by_id-Ascending :
      (x : A) (xs : List A) → IsAbsent (row.key x) xs → Ascending xs → Ascending (insert_by_id x xs)
  unfolding insert_by_id
  insert_by_id-Ascending x [] h a = (tt, tt)
  insert_by_id-Ascending x (y ∷ ys) h a = elim (Bool-cases (leb (row.key x) (row.key y))) [
    | inl e ↦
        let below : row.key x < row.key y = ground (arith, h.0) in
        rw e ((below, All-above (row.key x) (row.key y) ys (omega arith) a.0), a)
    | inr e ↦
        let below : row.key y < row.key x = ground arith in
        rw e (insert_by_id-All _ x ys a.0 below, insert_by_id-Ascending x ys h.1 a.1)
  ]

  order_by_id-IsAbsent : (k : Uuid) (xs : List A) → IsAbsent k xs → IsAbsent k (order_by_id xs)
  unfolding order_by_id
  order_by_id-IsAbsent k [] h = tt
  order_by_id-IsAbsent k (x ∷ xs) h =
      insert_by_id-All _ x (order_by_id xs) (order_by_id-IsAbsent k xs h.1) h.0

  pub order_by_id-Ascending : (xs : List A) → UniqueKeys xs → Ascending (order_by_id xs)
  unfolding order_by_id
  order_by_id-Ascending [] u = tt
  order_by_id-Ascending (x ∷ xs) u =
      insert_by_id-Ascending x (order_by_id xs) (order_by_id-IsAbsent (row.key x) xs u.0)
        (order_by_id-Ascending xs u.1)

  pub select-Ascending : (p : A → Bool) (xs : List A) → Ascending xs → Ascending (select p xs)
  unfolding select
  select-Ascending p [] a = tt
  select-Ascending p (x ∷ xs) a = elim (Bool-cases (p x)) [
    | inl e ↦ rw e (select-All _ p xs a.0, select-Ascending p xs a.1)
    | inr e ↦ rw e (select-Ascending p xs a.1)
  ]

  -- Where all rows lie above the cursor, the condition leaves them all.
  pub select-above :
      (c : Option Uuid) (xs : List A)
      → All (λ y. is_after c (row.key y) ≡ true) xs
      → select (λ r. is_after c (row.key r)) xs ≡ xs
  unfolding select
  select-above c [] h = refl
  select-above c (x ∷ xs) h = rw h.0 (ap (λ r. x ∷ r) (select-above c xs h.1))

  pub above_of :
      (c : Option Uuid) (k : Uuid) (xs : List A)
      → is_after c k ≡ true
      → All (λ y. k < row.key y) xs
      → All (λ y. is_after c (row.key y) ≡ true) xs
  above_of c k [] e h = tt
  above_of none k (x ∷ xs) e h = (refl, above_of none k xs e h.1)
  above_of (some d) k (x ∷ xs) e h = (ground arith, above_of (some d) k xs e h.1)

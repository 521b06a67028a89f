-- ===== src/Table/Laws.antt =====
-- Laws of tables: what a query finds, and what updates and insertions do to keys and sums.
use backend_project.Prelude.{
  Uuid, Bool, true, false, ◌||◌, ◌≡◌, ◌≢◌, ◌∙◌, ap, refl, sym, subst, Bool-cases, ==-iff, ◌⊎◌, inl,
  inr, List, [], ◌∷◌, All, any, ◌==◌, ℤ, pos, ◌+ℤ◌, int_laws, some, arith,
}
use backend_project.Errors.{ok}
use backend_project.Table.{Row, select, one_or_none, one, update, insert}

module _ {A : Type 0} where
  -- `r` is a row of the table.
  abbrev pub Has : A → List A → Type 0
  Has r [] = ⊥
  Has r (x ∷ xs) = (x ≡ r) ⊎ Has r xs

  pub select-Has :
      (p : A → Bool) (r : A) (rest : List A) (xs : List A)
      → select p xs ≡ r ∷ rest
      → Has r xs × (p r ≡ true)
  unfolding select
  select-Has p r rest [] e = cc
  select-Has p r rest (x ∷ xs) e = ground (arith, select-Has p r rest xs)

  pub one_or_none-Has :
      (p : A → Bool) (r : A) (xs : List A)
      → one_or_none (select p xs) ≡ ok (some r)
      → Has r xs × (p r ≡ true)
  one_or_none-Has p r xs e = select-Has p r [] xs (single (select p xs) e)
    where
      single : (ys : List A) → one_or_none ys ≡ ok (some r) → ys ≡ r ∷ []
      single ys h = ground arith

  pub one-Has :
      (p : A → Bool) (r : A) (xs : List A) → one (select p xs) ≡ ok r → Has r xs × (p r ≡ true)
  one-Has p r xs e = select-Has p r [] xs (single (select p xs) e)
    where
      single : (ys : List A) → one ys ≡ ok r → ys ≡ r ∷ []
      single ys h = ground arith

  -- What holds of all rows holds of a row that is there.
  pub All-Has {κ} : (P : A → Type κ) (r : A) (xs : List A) → All P xs → Has r xs → P r
  All-Has P r [] h m = absurd m
  All-Has P r (x ∷ xs) h (inl e) = subst P e h.0
  All-Has P r (x ∷ xs) h (inr m) = All-Has P r xs h.1 m

  -- The sum of a column.
  abbrev pub total : (A → ℤ) → List A → ℤ
  total w [] = pos 0
  total w (x ∷ xs) = w x +ℤ total w xs

module _ {A : Type 0} ⦃row : Row A⦄ where
  abbrev pub IsAbsent : Uuid → List A → Type 0
  IsAbsent k xs = All (λ y. row.key y ≢ k) xs

  abbrev pub UniqueKeys : List A → Type 0
  UniqueKeys [] = Unit
  UniqueKeys (x ∷ xs) = IsAbsent (row.key x) xs × UniqueKeys xs

  pub update-absent : (r : A) (xs : List A) → IsAbsent (row.key r) xs → update r xs ≡ xs
  unfolding update
  update-absent r [] h = refl
  update-absent r (x ∷ xs) h = ground (arith, update-absent r xs h.1)

  not-Has-absent : (r : A) (xs : List A) → IsAbsent (row.key r) xs → ¬ (Has r xs)
  not-Has-absent r [] h m = m
  not-Has-absent r (x ∷ xs) h (inl e) = h.0 (ap row.key e)
  not-Has-absent r (x ∷ xs) h (inr m) = not-Has-absent r xs h.1 m

  pub update-All : (P : A → Type 0) (r : A) (xs : List A) → All P xs → P r → All P (update r xs)
  unfolding update
  update-All P r [] h p = tt
  update-All P r (x ∷ xs) h p = (
    elim (Bool-cases (row.key x == row.key r)) [ inl q ↦ rw q p | inr q ↦ rw q h.0 ],
    update-All P r xs h.1 p,
  )

  update-IsAbsent : (k : Uuid) (r : A) (xs : List A) → IsAbsent k xs → IsAbsent k (update r xs)
  unfolding update
  update-IsAbsent k r [] h = tt
  update-IsAbsent k r (x ∷ xs) h = ground (arith, update-IsAbsent k r xs h.1)

  pub update-UniqueKeys : (r : A) (xs : List A) → UniqueKeys xs → UniqueKeys (update r xs)
  unfolding update
  update-UniqueKeys r [] h = tt
  update-UniqueKeys r (x ∷ xs) h = ground (
    arith,
    update-UniqueKeys r xs h.1,
    update-IsAbsent (row.key x) r xs h.0,
    update-IsAbsent (row.key r) r xs,
  )

  pub Has-ne-absent : (r : A) (k : Uuid) (xs : List A) → IsAbsent k xs → Has r xs → row.key r ≢ k
  Has-ne-absent r k [] h m = absurd m
  Has-ne-absent r k (x ∷ xs) h (inl e) = λ q. h.0 (ap row.key e ∙ q)
  Has-ne-absent r k (x ∷ xs) h (inr m) = Has-ne-absent r k xs h.1 m

  -- Where keys are unique, a key names one row.
  pub Has-unique :
      (a b : A) (xs : List A) → UniqueKeys xs → Has a xs → Has b xs → row.key a ≡ row.key b → a ≡ b
  Has-unique a b [] u m n e = absurd m
  Has-unique a b (x ∷ xs) u (inl p) (inl q) e = sym p ∙ q
  Has-unique a b (x ∷ xs) u (inl p) (inr n) e =
      absurd (Has-ne-absent b (row.key x) xs u.0 n (sym e ∙ sym (ap row.key p)))
  Has-unique a b (x ∷ xs) u (inr m) (inl q) e =
      absurd (Has-ne-absent a (row.key x) xs u.0 m (e ∙ sym (ap row.key q)))
  Has-unique a b (x ∷ xs) u (inr m) (inr n) e = Has-unique a b xs u.1 m n e

  -- An update leaves the rows with other keys, and puts the new row in the old one's place.
  pub update-Has_ne :
      (a r : A) (xs : List A) → row.key a ≢ row.key r → Has a xs → Has a (update r xs)
  unfolding update
  update-Has_ne a r [] h m = m
  update-Has_ne a r (x ∷ xs) h (inl e) = elim (Bool-cases (row.key x == row.key r)) [
    | inl q ↦ absurd (h (sym (ap row.key e) ∙ (==-iff _ _).0 q))
    | inr q ↦ rw q (inl e)
  ]
  update-Has_ne a r (x ∷ xs) h (inr m) = inr (update-Has_ne a r xs h m)

  pub update-Has_self :
      (old r : A) (xs : List A) → row.key old ≡ row.key r → Has old xs → Has r (update r xs)
  unfolding update
  update-Has_self old r [] e m = m
  update-Has_self old r (x ∷ xs) e (inl p) = rw ((==-iff _ _).1 (ap row.key p ∙ e)) (inl refl)
  update-Has_self old r (x ∷ xs) e (inr m) = inr (update-Has_self old r xs e m)

  IsAbsent-of_any :
      (clash : A → A → Bool) (r : A) (xs : List A)
      → any (λ x. row.key x == row.key r || clash x r) xs ≡ false
      → IsAbsent (row.key r) xs
  IsAbsent-of_any clash r [] e = tt
  IsAbsent-of_any clash r (x ∷ xs) e = ground (arith, IsAbsent-of_any clash r xs)

  -- An insertion that is not refused puts the row in front, under a key that was free.
  pub insert-ok :
      (clash : A → A → Bool) (r : A) (xs ys : List A)
      → insert clash r xs ≡ ok ys
      → (ys ≡ r ∷ xs) × IsAbsent (row.key r) xs
  unfolding insert
  insert-ok clash r xs ys e = ground (arith, IsAbsent-of_any clash r xs)

  pub insert-UniqueKeys :
      (clash : A → A → Bool) (r : A) (xs ys : List A)
      → insert clash r xs ≡ ok ys
      → UniqueKeys xs
      → UniqueKeys ys
  insert-UniqueKeys clash r xs ys e u = let (q, free) = insert-ok clash r xs ys e in rw q (free, u)

  pub insert-All :
      (P : A → Type 0) (clash : A → A → Bool) (r : A) (xs ys : List A)
      → insert clash r xs ≡ ok ys
      → All P xs
      → P r
      → All P ys
  insert-All P clash r xs ys e h p = rw (insert-ok clash r xs ys e).0 (p, h)

  pub total-insert :
      (w : A → ℤ) (clash : A → A → Bool) (r : A) (xs ys : List A)
      → insert clash r xs ≡ ok ys
      → total w ys ≡ w r +ℤ total w xs
  total-insert w clash r xs ys e = rw (insert-ok clash r xs ys e).0 refl

  pub total-update :
      (w : A → ℤ) (old new : A) (xs : List A)
      → UniqueKeys xs
      → Has old xs
      → row.key old ≡ row.key new
      → total w (update new xs) +ℤ w old ≡ total w xs +ℤ w new
  unfolding update
  total-update w old new [] u m e = absurd m
  total-update w old new (x ∷ xs) u (inl p) e =
      let same : row.key x ≡ row.key new = ap row.key p ∙ e in
      grind (int_laws, update-absent new xs, ap w p)
  total-update w old new (x ∷ xs) u (inr m) e =
      grind (int_laws, total-update w old new xs u.1 m e, not-Has-absent old xs)

  select-IsAbsent :
      (p : A → Bool) (k : Uuid) (xs : List A) → IsAbsent k xs → IsAbsent k (select p xs)
  unfolding select
  select-IsAbsent p k [] h = tt
  select-IsAbsent p k (x ∷ xs) h = elim (Bool-cases (p x)) [
    | inl e ↦ rw e (h.0, select-IsAbsent p k xs h.1)
    | inr e ↦ rw e (select-IsAbsent p k xs h.1)
  ]

  pub select-UniqueKeys : (p : A → Bool) (xs : List A) → UniqueKeys xs → UniqueKeys (select p xs)
  unfolding select
  select-UniqueKeys p [] u = tt
  select-UniqueKeys p (x ∷ xs) u = elim (Bool-cases (p x)) [
    | inl e ↦ rw e (select-IsAbsent p (row.key x) xs u.0, select-UniqueKeys p xs u.1)
    | inr e ↦ rw e (select-UniqueKeys p xs u.1)
  ]

module _ {A : Type 0} where
  Has-later : (x : A) (todo xs : List A) → All (λ r. Has r xs) todo → All (λ r. Has r (x ∷ xs)) todo
  Has-later x [] xs h = tt
  Has-later x (y ∷ ys) xs h = (inr h.0, Has-later x ys xs h.1)

  -- The rows that a query finds are in the table.
  pub select-All-Has : (p : A → Bool) (xs : List A) → All (λ r. Has r xs) (select p xs)
  unfolding select
  select-All-Has p [] = tt
  select-All-Has p (x ∷ xs) = elim (Bool-cases (p x)) [
    | inl e ↦ rw e (inl refl, Has-later x (select p xs) xs (select-All-Has p xs))
    | inr e ↦ rw e (Has-later x (select p xs) xs (select-All-Has p xs))
  ]

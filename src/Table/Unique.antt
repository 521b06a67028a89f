-- ===== src/Table/Unique.antt =====
-- Where keys are unique, a query for a key finds its row and no other.
use backend_project.Prelude.{
  Uuid, Bool, true, false, ◌≡◌, ◌≢◌, ◌∙◌, ap, refl, sym, Bool-cases, inl, inr, arith, subst, ◌==◌,
  ==-refl, List, [], ◌∷◌, All,
}
use backend_project.Table.{Row, select, one_or_none, update}
use backend_project.Table.Laws.{
  IsAbsent, UniqueKeys, Has, Has-ne-absent, update-absent, one_or_none-Has,
}

select-nothing :
    {A : Type 0} (p : A → Bool) (xs : List A) → All (λ x. p x ≡ false) xs → select p xs ≡ []
unfolding select
select-nothing p [] h = refl
select-nothing p (x ∷ xs) h = rw h.0 (select-nothing p xs h.1)

module _ {A : Type 0} ⦃row : Row A⦄ where
  refused :
      (p : A → Bool) (k : Uuid) (x : A) → row.key x ≢ k → (p x ≡ true → row.key x ≡ k) → p x ≡ false
  refused p k x ne only = elim (Bool-cases (p x)) [ inl e ↦ absurd (ne (only e)) | inr e ↦ e ]

  refused-All :
      (p : A → Bool) (k : Uuid) (xs : List A)
      → IsAbsent k xs
      → ((x : A) → p x ≡ true → row.key x ≡ k)
      → All (λ x. p x ≡ false) xs
  refused-All p k [] h only = tt
  refused-All p k (x ∷ xs) h only = (refused p k x h.0 (only x), refused-All p k xs h.1 only)

  pub select_unique :
      (p : A → Bool) (r : A) (xs : List A)
      → UniqueKeys xs
      → Has r xs
      → p r ≡ true
      → ((x : A) → p x ≡ true → row.key x ≡ row.key r)
      → select p xs ≡ r ∷ []
  unfolding select
  select_unique p r [] u m e only = absurd m
  select_unique p r (x ∷ xs) u (inl q) e only =
      let here : p x ≡ true = ap p q ∙ e in
      let none_else = refused-All p (row.key x) xs u.0 (λ y t. only y t ∙ sym (ap row.key q)) in
      rw here (rw (select-nothing p xs none_else) (ap (λ y. y ∷ []) q))
  select_unique p r (x ∷ xs) u (inr m) e only =
      let apart = Has-ne-absent r (row.key x) xs u.0 m in
      let out : p x ≡ false = refused p (row.key r) x (λ t. apart (sym t)) (only x) in
      rw out (select_unique p r xs u.1 m e only)

  -- A query that finds one row finds its new version.
  pub select-update :
      (p : A → Bool) (old new : A) (xs : List A)
      → row.key new ≡ row.key old
      → p new ≡ true
      → UniqueKeys xs
      → select p xs ≡ old ∷ []
      → select p (update new xs) ≡ new ∷ []
  unfolding select update
  select-update p old new [] same q keys e = cc
  select-update p old new (x ∷ xs) same q keys e = elim (Bool-cases (p x)) [
    | inl t ↦
        let here : x ∷ select p xs ≡ old ∷ [] = rw t at e in
        let key : row.key x ≡ (row.key new) = ap row.key (head_path here) ∙ sym same in
        let hit : (row.key x == (row.key new)) ≡ true = rw key (==-refl (row.key new)) in
        let kept = update-absent new xs (subst (λ k. IsAbsent k xs) key keys.0) in
        rw hit (rw q (rw kept (ap (λ ys. new ∷ ys) (tail_path here))))
    | inr t ↦
        let later : select p xs ≡ old ∷ [] = rw t at e in
        let listed = (one_or_none-Has p old xs (ap one_or_none later)).0 in
        let apart = Has-ne-absent old (row.key x) xs keys.0 listed in
        let miss : (row.key x == (row.key new)) ≡ false =
          missed (row.key x) (row.key new) (λ k. apart (sym same ∙ sym k)) in
        rw miss (rw t (select-update p old new xs same q keys.1 later))
  ]
    where
      missed : (a b : Uuid) → a ≢ b → (a == b) ≡ false
      missed a b h = ground arith

      head_path : {x y : A} {xs ys : List A} → x ∷ xs ≡ y ∷ ys → x ≡ y
      head_path p = cc

      tail_path : {x y : A} {xs ys : List A} → x ∷ xs ≡ y ∷ ys → xs ≡ ys
      tail_path p = cc

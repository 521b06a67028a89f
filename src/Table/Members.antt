-- ===== src/Table/Members.antt =====
-- The rows that a query leaves, and those of two tables.
use backend_project.Prelude.{
  length, ◌≤◌, arith, Bool, true, false, ◌≡◌, ◌↔◌, ◌⊎◌, sym, ◌∙◌, subst, ap, inl, inr, Bool-cases,
  List, [], ◌∷◌, ◌++◌,
}
use backend_project.Table.{select}
use backend_project.Table.Laws.{Has}

module _ {A : Type 0} where
  pub select-Has-iff :
      (p : A → Bool) (r : A) (xs : List A) → Has r (select p xs) ↔ (Has r xs × (p r ≡ true))
  unfolding select
  select-Has-iff p r [] = ground arith
  select-Has-iff p r (x ∷ xs) =
      let rest = select-Has-iff p r xs in
      elim (Bool-cases (p x)) [
        | inl e ↦ rw e (
          λ m. elim m [
            | inl q ↦ (inl q, subst (λ y. p y ≡ true) q e)
            | inr n ↦ (inr (rest.0 n).0, (rest.0 n).1)
          ],
          λ m. elim m.0 [ inl q ↦ inl q | inr n ↦ inr (rest.1 (n, m.1)) ],
        )
        | inr e ↦ rw e (
          λ m. (inr (rest.0 m).0, (rest.0 m).1),
          λ m. elim m.0 [
            | inl q ↦ absurd (true_false (sym m.1 ∙ ap p (sym q) ∙ e))
            | inr n ↦ rest.1 (n, m.1)
          ],
        )
      ]
    where
      true_false : ¬ (true ≡ false)
      true_false q = cc

  pub append-Has-iff : (r : A) (xs ys : List A) → Has r (xs ++ ys) ↔ (Has r xs ⊎ Has r ys)
  append-Has-iff r [] ys = ground arith
  append-Has-iff r (x ∷ xs) ys = let rest = append-Has-iff r xs ys in ground (arith, rest)

pub select-length : {A : Type 0} (p : A → Bool) (xs : List A) → length (select p xs) ≤ length xs
unfolding select
select-length p [] = omega arith
select-length p (x ∷ xs) =
    let rest = select-length p xs in
    elim (Bool-cases (p x)) [
      | inl e ↦ rw e (omega (arith, rest))
      | inr e ↦ rw e (omega (arith, rest))
    ]

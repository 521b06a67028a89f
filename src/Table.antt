-- ===== src/Table.antt =====
-- Tables as lists of rows, and the parts of SQL that the services use: `select … where`,
-- `one_or_none`, `one`, inserting under unique constraints, and updating a row by its key.
pub mod Laws
pub mod Unique
pub mod Members
use backend_project.Prelude.{
  Uuid, Bool, ◌||◌, Option, none, some, List, [], ◌∷◌, any, ◌==◌, if◌then◌else◌,
}
use backend_project.Errors.{Fault, Result, ok, raised}

-- A row has a primary key and belongs to a tenant.
pub record Row (A : Type 0) : Type 0 where
  pub key : A → Uuid
  pub owner : A → Uuid

module _ {A : Type 0} where
  unfoldable pub select : (A → Bool) → List A → List A
  select p [] = []
  select p (x ∷ xs) = let rest = select p xs in if p x then x ∷ rest else rest

  abbrev pub one_or_none : List A → Result (Option A)
  one_or_none [] = ok none
  one_or_none (x ∷ []) = ok (some x)
  one_or_none (x ∷ y ∷ r) = raised Fault.multiple_results_found

  abbrev pub one : List A → Result A
  one [] = raised Fault.no_result_found
  one (x ∷ []) = ok x
  one (x ∷ y ∷ r) = raised Fault.multiple_results_found

  abbrev pub or_raise : Fault → Option A → Result A
  or_raise e none = raised e
  or_raise e (some a) = ok a

module _ {A : Type 0} ⦃row : Row A⦄ where
  -- UPDATE of the row whose key is that of `r`
  unfoldable pub update : A → List A → List A
  update r [] = []
  update r (x ∷ xs) = (if row.key x == row.key r then r else x) ∷ update r xs

  -- INSERT: refused if the key is taken, or if a unique constraint is broken
  unfoldable pub insert : (A → A → Bool) → A → List A → Result (List A)
  insert clash r xs =
      if any (λ x. row.key x == row.key r || clash x r) xs
      then raised Fault.integrity_error
      else ok (r ∷ xs)

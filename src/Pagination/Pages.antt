-- ===== src/Pagination/Pages.antt =====
-- What a page takes of a list and what it leaves.
use backend_project.Prelude.{
  ℕ, zero, suc, ◌<◌, ◌≤◌, ◌≡◌, ◌≢◌, ap, refl, arith, true, false, none, some, List, [], ◌∷◌, ◌++◌,
  All, ltb, length, take, get_last?,
}
use backend_project.Pagination.Order.{drop}

module _ {A : Type 0} where
  pub last-All :
      (P : A → Type 0) (n : ℕ) (l : A) (xs : List A)
      → All P xs
      → get_last? (take n xs) ≡ some l
      → P l
  last-All P zero l xs h e = cc
  last-All P (suc n) l [] h e = cc
  last-All P (suc zero) l (x ∷ xs) h e = ground arith
  last-All P (suc (suc n)) l (x ∷ []) h e = ground arith
  last-All P (suc (suc n)) l (x ∷ y ∷ ys) h e = last-All P (suc n) l (y ∷ ys) h.1 e

  pub take-drop : (n : ℕ) (xs : List A) → take n xs ++ drop n xs ≡ xs
  take-drop zero xs = refl
  take-drop (suc n) [] = refl
  take-drop (suc n) (x ∷ xs) = ap (λ r. x ∷ r) (take-drop n xs)

  pub take-take-suc : (n : ℕ) (xs : List A) → take n (take (suc n) xs) ≡ take n xs
  take-take-suc zero xs = refl
  take-take-suc (suc n) [] = refl
  take-take-suc (suc n) (x ∷ xs) = ap (λ r. x ∷ r) (take-take-suc n xs)

  -- A page that is not full is the whole rest.
  pub short_page : (n : ℕ) (xs : List A) → ltb n (length (take (suc n) xs)) ≡ false → take n xs ≡ xs
  short_page zero [] e = refl
  short_page zero (x ∷ xs) e = ground arith
  short_page (suc n) [] e = refl
  short_page (suc n) (x ∷ xs) e = ap (λ r. x ∷ r) (short_page n xs (ground arith))

  pub full_page :
      (n : ℕ) (xs : List A)
      → ltb (suc n) (length (take (suc (suc n)) xs)) ≡ true
      → get_last? (take (suc n) xs) ≢ none
  full_page n [] h e = ground arith
  full_page zero (x ∷ xs) h e = cc
  full_page (suc n) (x ∷ []) h e = cc
  full_page (suc n) (x ∷ y ∷ ys) h e = full_page n (y ∷ ys) (ground arith) e

  drop-shorter : (n : ℕ) (xs : List A) → length (drop n xs) ≤ length xs
  drop-shorter zero xs = omega arith
  drop-shorter (suc n) [] = omega arith
  drop-shorter (suc n) (x ∷ xs) = let h = drop-shorter n xs in omega arith

  pub full_page-shrinks :
      (n m : ℕ) (xs : List A)
      → get_last? (take (suc n) xs) ≢ none
      → length xs < suc m
      → length (drop (suc n) xs) < m
  full_page-shrinks n m [] e h = absurd (e refl)
  full_page-shrinks n m (x ∷ xs) e h = let d = drop-shorter n xs in omega arith

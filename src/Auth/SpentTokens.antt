-- ===== src/Auth/SpentTokens.antt =====
-- One-time tokens that are spent, by their hash.
use backend_project.Prelude.{
  ℕ, Uuid, String, Bool, true, false, ◌&&◌, ◌==◌, str_eq, ◌≡◌, ◌≢◌, refl, ap, ◌∙◌, Bool-cases, inl,
  inr, some, is_none, ==-refl, List, [], ◌∷◌, All, arith,
}
use backend_project.Errors.{Fault, ok}
use backend_project.Models.{OneTimeToken, token_row}
use backend_project.Table.{select, one_or_none, update}
use backend_project.Table.Laws.{update-All}
use backend_project.Transfers.Lookup.{>>=-eq-ok, or_raise-ok}
use backend_project.Auth.OneTime.{consume}
use backend_project.Auth.Spend.{find_token, spent}

-- Every token with the hash is consumed.
abbrev pub IsSpent : String → List OneTimeToken → Type 0
IsSpent hash tokens =
    All (λ t. str_eq t.token_hash hash ≡ true → is_none t.consumed_at ≡ false) tokens

pub consume-IsSpent :
    (hash : String) (now : ℕ) (user_id : Uuid) (tokens : List OneTimeToken)
    → IsSpent hash tokens
    → IsSpent hash (consume now user_id tokens)
unfolding consume
consume-IsSpent hash now user_id [] h = tt
consume-IsSpent hash now user_id (t ∷ ts) h =
    let rest = consume-IsSpent hash now user_id ts h.1 in
    elim (Bool-cases (t.user_id == user_id && is_none t.consumed_at)) [
      | inl e ↦ rw e (λ _. refl, rest)
      | inr e ↦ rw e (h.0, rest)
    ]

pub only_row : {A : Type 0} (xs : List A) (x : A) → one_or_none xs ≡ ok (some x) → xs ≡ x ∷ []
only_row [] x e = cc
only_row (y ∷ []) x e = cc
only_row (y ∷ z ∷ r) x e = cc

abbrev pub usable : String → OneTimeToken → Bool
usable hash t = str_eq t.token_hash hash && is_none t.consumed_at

unusable :
    (hash : String) (t : OneTimeToken)
    → usable hash t ≡ false
    → str_eq t.token_hash hash ≡ true
    → is_none t.consumed_at ≡ false
unusable hash t e q = ground arith

nothing_usable :
    (hash : String) (ts : List OneTimeToken) → select (usable hash) ts ≡ [] → IsSpent hash ts
unfolding select
nothing_usable hash [] e = tt
nothing_usable hash (t ∷ ts) e = elim (Bool-cases (usable hash t)) [
  | inl q ↦ let no : t ∷ select (usable hash) ts ≡ [] = rw q at e in absurd (cons_ne t _ no)
  | inr q ↦
      let rest : select (usable hash) ts ≡ [] = rw q at e in
      (unusable hash t q, nothing_usable hash ts rest)
]
  where
    cons_ne : (x : OneTimeToken) (xs : List OneTimeToken) → x ∷ xs ≢ []
    cons_ne x xs p = cc

one_usable :
    (hash : String) (token : OneTimeToken) (now : ℕ) (ts : List OneTimeToken)
    → select (usable hash) ts ≡ token ∷ []
    → IsSpent hash (update (spent now token) ts)
unfolding select update
one_usable hash token now [] e = tt
one_usable hash token now (t ∷ ts) e = elim (Bool-cases (usable hash t)) [
  | inl q ↦
      let here : t ∷ select (usable hash) ts ≡ token ∷ [] = rw q at e in
      let same : (t.id == token.id) ≡ true = rw (head_path here) (==-refl token.id) in
      let rest = nothing_usable hash ts (tail_path here) in
      rw same (λ _. refl, update-All _ (spent now token) ts rest (λ _. refl))
  | inr q ↦
      let later : select (usable hash) ts ≡ token ∷ [] = rw q at e in
      let rest = one_usable hash token now ts later in
      elim (Bool-cases (t.id == token.id)) [
        | inl s ↦ rw s (λ _. refl, rest)
        | inr s ↦ rw s (unusable hash t q, rest)
      ]
]
  where
    head_path : {x y : OneTimeToken} {xs ys : List OneTimeToken} → x ∷ xs ≡ y ∷ ys → x ≡ y
    head_path p = cc

    tail_path : {x y : OneTimeToken} {xs ys : List OneTimeToken} → x ∷ xs ≡ y ∷ ys → xs ≡ ys
    tail_path p = cc

-- The only token of the hash that was not consumed becomes consumed.
pub spend-IsSpent :
    (hash : String) (token : OneTimeToken) (now : ℕ) (missing : Fault) (tokens : List OneTimeToken)
    → find_token missing hash tokens ≡ ok token
    → IsSpent hash (update (spent now token) tokens)
unfolding find_token
spend-IsSpent hash token now missing tokens e =
    let (found, p, q) = >>=-eq-ok _ _ token e in
    one_usable hash token now tokens (only_row _ token (p ∙ ap ok (or_raise-ok _ found token q)))

pub no_token :
    (hash : String) (ts : List OneTimeToken) → IsSpent hash ts → select (usable hash) ts ≡ []
unfolding select
no_token hash [] h = refl
no_token hash (t ∷ ts) h = let rest = no_token hash ts h.1 in rw (spent_unusable hash t h.0) rest
  where
    spent_unusable :
        (hash : String) (t : OneTimeToken)
        → (str_eq t.token_hash hash ≡ true → is_none t.consumed_at ≡ false)
        → usable hash t ≡ false
    spent_unusable hash t q = ground arith

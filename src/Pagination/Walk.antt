-- ===== src/Pagination/Walk.antt =====
-- Following the cursors of a listing.
use backend_project.Prelude.{
  ℕ, zero, suc, ◌<◌, ◌≤◌, Uuid, String, Bool, true, false, ◌≡◌, ◌≢◌, ◌∙◌, sym, ap, refl, subst,
  arith, Bool-cases, inl, inr, Option, none, some, List, [], ◌∷◌, All, ltb, length, take, get_last?,
  str_eq, str_eq_iff, Option-cases,
}
use backend_project.Errors
use backend_project.Errors.{Result, ok}
use backend_project.Table.{Row, select}
use backend_project.Table.Laws.{UniqueKeys}
use backend_project.Pagination.{
  CursorCodec, object, text, encode_cursor, decode_cursor, is_after, order_by_id, cut_page,
  list_page, follow, walk,
}
use backend_project.Pagination.Pages.{
  last-All, take-drop, take-take-suc, short_page, full_page, full_page-shrinks,
}
use backend_project.Pagination.Order.{
  drop, Ascending, order_by_id-Ascending, select-Ascending, select-select, select-above,
}

not_later :
    (c : Option Uuid) (k i : Uuid)
    → is_after c k ≡ true
    → is_after c i ≡ false
    → is_after (some k) i ≡ false
not_later none k i h e = ground arith
not_later (some d) k i h e = ground arith

-- What `json`, `base64` and `uuid` promise: what is dumped is loaded again, a cursor is not the empty
-- text, and the text of an id is parsed to the id.
pub record IsFaithful (codec : CursorCodec) : Type 0 where
  pub loaded : (id : String) → codec.loads (codec.dumps id) ≡ some (object (some (text id)))
  pub not_empty : (id : String) → codec.dumps id ≢ ""
  pub uuid_back : (k : Uuid) → codec.parse_uuid (codec.show_uuid k) ≡ some k

decode_encoded :
    (codec : CursorCodec)
    → IsFaithful codec
    → (k : Uuid) → decode_cursor codec (some (encode_cursor codec k)) ≡ ok (some k)
unfolding decode_cursor encode_cursor
decode_encoded codec h k = elim (Bool-cases (str_eq (codec.dumps (codec.show_uuid k)) "")) [
  | inl e ↦ absurd (h.not_empty (codec.show_uuid k) ((str_eq_iff _ "").0 e))
  | inr e ↦ rw e (rw (h.loaded (codec.show_uuid k)) (rw (h.uuid_back k) refl))
]

module _ {A : Type 0} ⦃row : Row A⦄ where
  abbrev after : Option Uuid → A → Bool
  after c r = is_after c (row.key r)

  All-after :
      (k : Uuid) (xs : List A)
      → All (λ y. k < row.key y) xs
      → All (λ y. is_after (some k) (row.key y) ≡ true) xs
  All-after k [] h = tt
  All-after k (x ∷ xs) h = (ground arith, All-after k xs h.1)

  past_head :
      (x : A) (xs : List A)
      → All (λ y. row.key x < row.key y) xs
      → select (after (some (row.key x))) (x ∷ xs) ≡ xs
  unfolding select
  past_head x xs h =
      let out : is_after (some (row.key x)) (row.key x) ≡ false = ground arith in
      rw out (select-above (some (row.key x)) xs (All-after (row.key x) xs h))

  -- The rows after the last one of a page are the rows that the page leaves.
  after_page :
      (n : ℕ) (l : A) (xs : List A)
      → Ascending xs
      → get_last? (take (suc n) xs) ≡ some l
      → select (after (some (row.key l))) xs ≡ drop (suc n) xs
  unfolding select
  after_page n l [] a e = cc
  after_page zero l (x ∷ xs) a e =
      let same : x ≡ l = cc in
      subst (λ r. select (after (some (row.key r))) (x ∷ xs) ≡ xs) same (past_head x xs a.0)
  after_page (suc n) l (x ∷ []) a e =
      let same : x ≡ l = cc in
      subst (λ r. select (after (some (row.key r))) (x ∷ []) ≡ []) same (past_head x [] tt)
  after_page (suc n) l (x ∷ y ∷ ys) a e =
      let below : row.key x < row.key l =
        last-All (λ r. row.key x < row.key r) (suc n) l (y ∷ ys) a.0 e in
      let out : is_after (some (row.key l)) (row.key x) ≡ false = ground arith in
      rw out (after_page n l (y ∷ ys) a.1 e)

  -- A later cursor leaves fewer rows.
  after-after :
      (c : Option Uuid) (k : Uuid) (xs : List A)
      → is_after c k ≡ true
      → select (after (some k)) (select (after c) xs) ≡ select (after (some k)) xs
  unfolding select
  after-after c k [] e = refl
  after-after c k (x ∷ xs) e = elim (Bool-cases (is_after c (row.key x))) [
    | inl i ↦ elim (Bool-cases (is_after (some k) (row.key x))) [
      | inl j ↦ rw i (rw j (ap (λ r. x ∷ r) (after-after c k xs e)))
      | inr j ↦ rw i (rw j (after-after c k xs e))
    ]
    | inr i ↦ rw i (rw (not_later c k (row.key x) e i) (after-after c k xs e))
  ]

  select-after :
      (c : Option Uuid) (xs : List A)
      → All (λ y. is_after c (row.key y) ≡ true) (select (after c) xs)
  unfolding select
  select-after c [] = tt
  select-after c (x ∷ xs) = elim (Bool-cases (is_after c (row.key x))) [
    | inl i ↦ rw i (i, select-after c xs)
    | inr i ↦ rw i (select-after c xs)
  ]

  -- One page, and the rows that the rest of the walk returns.
  turn :
      (codec : CursorCodec) (n total : ℕ) (xs : List A) (rest : String → Result (List A))
      → ((l : A)
          → get_last? (take (suc n) xs) ≡ some l
          → rest (encode_cursor codec (row.key l)) ≡ ok (drop (suc n) xs))
      → (let page = cut_page codec (suc n) total (take (suc (suc n)) xs) in
          follow page.rows page.next_cursor rest)
        ≡ ok xs
  unfolding Errors.◌>>=◌
  turn codec n total xs rest h = elim (Bool-cases (ltb (suc n) (length (take (suc (suc n)) xs)))) [
    | inr e ↦ rw e (ap ok (take-take-suc (suc n) xs ∙ short_page (suc n) xs e))
    | inl e ↦ rw e (
        rw (take-take-suc (suc n) xs) (elim (Option-cases (get_last? (take (suc n) xs))) [
          | inl q ↦ absurd (full_page n xs e q)
          | inr (l, q) ↦ rw q (rw (h l q) (ap ok (take-drop (suc n) xs)))
        ]))
  ]

  module _ (codec : CursorCodec) (faithful : IsFaithful codec) (filter : A → Bool) (n : ℕ)
      (table : List A) (keys : UniqueKeys table) where
    rest_after : (c : Option Uuid) → List A
    rest_after c = select (after c) (select filter (order_by_id table))

    later_page :
        (c : Option Uuid) (l : A)
        → get_last? (take (suc n) (rest_after c)) ≡ some l
        → rest_after (some (row.key l)) ≡ drop (suc n) (rest_after c)
    unfolding rest_after
    later_page c l e =
        let found = select filter (order_by_id table) in
        let ascending =
          select-Ascending (after c) found
            (select-Ascending filter (order_by_id table) (order_by_id-Ascending table keys)) in
        let reached : is_after c (row.key l) ≡ true =
          last-All (λ r. is_after c (row.key r) ≡ true) (suc n) l (select (after c) found)
            (select-after c found) e in
        sym (after-after c (row.key l) found reached)
        ∙ after_page n l (select (after c) found) ascending e

    walk-rest :
        (fuel : ℕ) (cursor : Option String) (c : Option Uuid)
        → decode_cursor codec cursor ≡ ok c
        → length (rest_after c) < fuel
        → walk codec filter (suc n) table fuel cursor ≡ ok (rest_after c)
    unfolding walk list_page Errors.◌>>=◌ rest_after
    walk-rest zero cursor c e h = absurd (omega arith)
    walk-rest (suc m) cursor c e h = rw e (
        rw (select-select filter (after c) (order_by_id table)) (
          turn codec n (length (rest_after c)) (rest_after c) _ λ l q.
            walk-rest m (some (encode_cursor codec (row.key l))) (some (row.key l))
              (decode_encoded codec faithful (row.key l))
              (subst (λ xs. length xs < m) (sym (later_page c l q))
                (full_page-shrinks n m (rest_after c) (λ o. cc) h))
            ∙ ap ok (later_page c l q)))

  always_after : (xs : List A) → All (λ y. is_after none (row.key y) ≡ true) xs
  always_after [] = tt
  always_after (x ∷ xs) = (refl, always_after xs)

  -- A client that starts without a cursor and follows `next_cursor` to the end, on a table with unique
  -- keys that does not change meanwhile and with a limit of at least one, gets every row that passes
  -- the filter once, in the order of the keys, if encoded cursors are read back. As many pages as
  -- there are such rows, and one more, are enough.
  pub walk_complete :
      (codec : CursorCodec) (filter : A → Bool) (limit : ℕ) (table : List A) (fuel : ℕ)
      → IsFaithful codec
      → 1 ≤ limit
      → UniqueKeys table
      → length (select filter (order_by_id table)) < fuel
      → walk codec filter limit table fuel none ≡ ok (select filter (order_by_id table))
  unfolding rest_after decode_cursor
  walk_complete codec filter zero table fuel faithful h keys enough = absurd (omega arith)
  walk_complete codec filter (suc n) table fuel faithful h keys enough =
      let all = select-above none (select filter (order_by_id table)) (always_after _) in
      walk-rest codec faithful filter n table keys fuel none none refl
        (subst (λ xs. length xs < fuel) (sym all) enough)
      ∙ ap ok all

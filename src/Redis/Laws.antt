-- ===== src/Redis/Laws.antt =====
-- What a key reads as after it was set or deleted.
use backend_project.Prelude.{
  All, ℕ, ◌+◌, ◌<◌, String, Time, Bool, ◌&&◌, true, false, ◌≡◌, ◌≢◌, ◌↔◌, refl, sym, ap, ◌∙◌, ◌≤◌,
  if◌then◌else◌, Bool-cases, inl, inr, Option-cases, suc, Option, none, some, List, [], ◌∷◌, arith,
  ltb, str_eq, str_eq_iff, ◌==◌,
}
use backend_project.Redis.{
  Key, Entry, is_live, get, find, forget, setex, expire, incr, ReservationKey, CounterKey,
}

module _ {K : Type 0} ⦃k : Key K⦄ where
  pub same_refl : (a : K) → k.same a a ≡ true
  same_refl a = (k.same-iff a a).1 refl

  pub same_ne : (a b : K) → a ≢ b → k.same a b ≡ false
  same_ne a b h = elim (Bool-cases (k.same a b)) [
    | inl e ↦ absurd (h ((k.same-iff a b).0 e))
    | inr e ↦ e
  ]

and_left : (a b : Bool) → (a && b) ≡ true → a ≡ true
and_left a b e = ground arith

and_right : (a b : Bool) → (a && b) ≡ true → b ≡ true
and_right a b e = ground arith

live_earlier :
    (now later : Time) (o : Option Time)
    → now ≤ later
    → is_live now o ≡ false
    → is_live later o ≡ false
live_earlier now later none h e = e
live_earlier now later (some t) h e = ground arith

module _ {K V : Type 0} ⦃k : Key K⦄ where
  -- A deleted key is gone.
  pub get-forget : (now : Time) (a : K) (es : List (Entry K V)) → get now a (forget a es) ≡ none
  unfolding get forget
  get-forget now a [] = refl
  get-forget now a (e ∷ es) = elim (Bool-cases (k.same e.key a)) [
    | inl q ↦ rw q (get-forget now a es)
    | inr q ↦ rw q (rw q (get-forget now a es))
  ]

  -- Another key stays.
  pub get-forget_ne :
      (now : Time) (a b : K) (es : List (Entry K V))
      → a ≢ b
      → get now b (forget a es) ≡ get now b es
  unfolding get forget
  get-forget_ne now a b [] h = refl
  get-forget_ne now a b (e ∷ es) h = elim (Bool-cases (k.same e.key a)) [
    | inl q ↦
        let other : k.same e.key b ≡ false =
          same_ne e.key b (λ p. h (sym ((k.same-iff e.key a).0 q) ∙ p)) in
        rw q (rw other (get-forget_ne now a b es h))
    | inr q ↦ rw q (
        ap (λ r. if k.same e.key b && is_live now e.expires_at then some e.value else r)
          (get-forget_ne now a b es h))
  ]

  -- A key that was set reads as its value until it expires.
  pub get-setex :
      (now later : Time) (a : K) (seconds : ℕ) (v : V) (es : List (Entry K V))
      → later < now + seconds
      → get later a (setex now a seconds v es) ≡ some v
  unfolding get
  get-setex now later a seconds v es h =
      let live : ltb later (now + seconds) ≡ true = ground arith in rw (same_refl a) (rw live refl)

  pub get-setex_ne :
      (now later : Time) (a b : K) (seconds : ℕ) (v : V) (es : List (Entry K V))
      → a ≢ b
      → get later b (setex now a seconds v es) ≡ get later b es
  unfolding get
  get-setex_ne now later a b seconds v es h = rw (same_ne a b h) (get-forget_ne later a b es h)

  -- What is gone stays gone.
  pub get_later :
      (now later : Time) (a : K) (es : List (Entry K V))
      → now ≤ later
      → get now a es ≡ none
      → get later a es ≡ none
  unfolding get
  get_later now later a [] h e = refl
  get_later now later a (x ∷ es) h e =
      ground (arith, get_later now later a es h, live_earlier now later x.expires_at h)

  -- No entry has the key, live or not.
  abbrev pub IsForgotten : K → List (Entry K V) → Type 0
  IsForgotten a es = All (λ e. k.same e.key a ≡ false) es

  pub forget-IsForgotten : (a : K) (es : List (Entry K V)) → IsForgotten a (forget a es)
  unfolding forget
  forget-IsForgotten a [] = tt
  forget-IsForgotten a (e ∷ es) = elim (Bool-cases (k.same e.key a)) [
    | inl q ↦ rw q (forget-IsForgotten a es)
    | inr q ↦ rw q (q, forget-IsForgotten a es)
  ]

  pub forget_keeps :
      (a b : K) (es : List (Entry K V)) → IsForgotten b es → IsForgotten b (forget a es)
  unfolding forget
  forget_keeps a b [] h = tt
  forget_keeps a b (e ∷ es) h = elim (Bool-cases (k.same e.key a)) [
    | inl q ↦ rw q (forget_keeps a b es h.1)
    | inr q ↦ rw q (h.0, forget_keeps a b es h.1)
  ]

  pub get-IsForgotten :
      (now : Time) (a : K) (es : List (Entry K V)) → IsForgotten a es → get now a es ≡ none
  unfolding get
  get-IsForgotten now a [] h = refl
  get-IsForgotten now a (e ∷ es) h = rw h.0 (get-IsForgotten now a es h.1)

instance abbrev pub string_key : Key String
string_key = record { same = str_eq; same-iff = str_eq_iff }

module _ {K V : Type 0} ⦃k : Key K⦄ where
  find-forget_ne :
      (now : Time) (a b : K) (es : List (Entry K V))
      → a ≢ b
      → find now b (forget a es) ≡ find now b es
  unfolding find forget
  find-forget_ne now a b [] h = refl
  find-forget_ne now a b (e ∷ es) h = elim (Bool-cases (k.same e.key a)) [
    | inl q ↦
        let other : k.same e.key b ≡ false =
          same_ne e.key b (λ p. h (sym ((k.same-iff e.key a).0 q) ∙ p)) in
        rw q (rw other (find-forget_ne now a b es h))
    | inr q ↦ rw q (
        ap (λ r. if k.same e.key b && is_live now e.expires_at then some e else r)
          (find-forget_ne now a b es h))
  ]

  -- What stands first is found, and changes nothing for the other keys.
  pub find_head :
      (now : Time) (e : Entry K V) (es : List (Entry K V))
      → is_live now e.expires_at ≡ true
      → find now e.key (e ∷ es) ≡ some e
  unfolding find
  find_head now e es h = rw (same_refl e.key) (rw h refl)

  pub find_head_ne :
      (now : Time) (b : K) (e : Entry K V) (es : List (Entry K V))
      → e.key ≢ b
      → find now b (e ∷ forget e.key es) ≡ find now b es
  unfolding find
  find_head_ne now b e es h = rw (same_ne e.key b h) (find-forget_ne now e.key b es h)

  -- EXPIRE of a key changes nothing for the other keys.
  pub find-expire_ne :
      (now t : Time) (a b : K) (seconds : ℕ) (es : List (Entry K V))
      → a ≢ b
      → find t b (expire now a seconds es) ≡ find t b es
  find-expire_ne now t a b seconds es h = elim (Option-cases (find now a es)) [
    | inl e ↦ rw e refl
    | inr (x, e) ↦ rw e (
        find_head_ne t b (record { key = a; value = x.value; expires_at = some (now + seconds) }) es
          h)
  ]

module _ {K : Type 0} ⦃k : Key K⦄ where
  -- INCR of a key changes nothing for the other keys.
  pub find-incr_ne :
      (now t : Time) (a b : K) (es : List (Entry K ℕ))
      → a ≢ b
      → find t b (incr now a es).1 ≡ find t b es
  find-incr_ne now t a b es h = elim (Option-cases (find now a es)) [
    | inl e ↦ rw e (find_head_ne t b (record { key = a; value = 1; expires_at = none }) es h)
    | inr (x, e) ↦
        rw e (
          find_head_ne t b (record { key = a; value = suc x.value; expires_at = x.expires_at }) es
            h)
  ]

pub counter_same_iff :
    (a b : CounterKey)
    → ((str_eq a.scope b.scope && str_eq a.client_ip b.client_ip) ≡ true) ↔ (a ≡ b)
counter_same_iff a b = (
  λ e.
      joined ((str_eq_iff a.scope b.scope).0 (and_left _ _ e))
        ((str_eq_iff a.client_ip b.client_ip).0 (and_right _ _ e)),
  λ e.
      rw e (rw ((str_eq_iff b.scope b.scope).1 refl) ((str_eq_iff b.client_ip b.client_ip).1 refl)),
)
  where
    joined : a.scope ≡ b.scope → a.client_ip ≡ b.client_ip → a ≡ b
    joined p q = cc

instance abbrev pub counter_key : Key CounterKey
counter_key = record {
  same = λ a b. str_eq a.scope b.scope && str_eq a.client_ip b.client_ip;
  same-iff = counter_same_iff;
}

pub reservation_same_iff :
    (a b : ReservationKey)
    → (((a.tenant_id == b.tenant_id && a.warehouse_id == b.warehouse_id)
          && (a.variant_id == b.variant_id && str_eq a.reservation_id b.reservation_id))
        ≡ true)
      ↔ (a ≡ b)
reservation_same_iff a b = (
  λ e.
      joined e ((str_eq_iff a.reservation_id b.reservation_id).0 (and_right _ _ (and_right _ _ e))),
  λ e. rw e (ground (arith, (str_eq_iff b.reservation_id b.reservation_id).1 refl)),
)
  where
    joined :
        ((a.tenant_id == b.tenant_id && a.warehouse_id == b.warehouse_id)
            && (a.variant_id == b.variant_id && str_eq a.reservation_id b.reservation_id))
          ≡ true
        → a.reservation_id ≡ b.reservation_id
        → a ≡ b
    joined e q = ground arith

instance abbrev pub reservation_key : Key ReservationKey
reservation_key = record {
  same = λ a b.
      (a.tenant_id == b.tenant_id && a.warehouse_id == b.warehouse_id)
      && (a.variant_id == b.variant_id && str_eq a.reservation_id b.reservation_id);
  same-iff = reservation_same_iff;
}

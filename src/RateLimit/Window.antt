-- ===== src/RateLimit/Window.antt =====
-- How many requests of a client pass in the minute after the first one.
use backend_project.Prelude.{
  ℕ, suc, ◌+◌, ◌<◌, Time, ltb, ◌==◌, Bool, true, false, not, if◌then◌else◌, ◌≡◌, ◌≢◌, refl, sym, ap,
  subst, ◌∙◌, Bool-cases, inl, inr, none, some, List, [], ◌∷◌, All, arith,
}
use backend_project.Errors.{Fault, Result, ok, raise_if, raised}
use backend_project.Redis.{Redis, Entry, CounterKey, is_live, find, forget, incr, ◌>>=◌}
use backend_project.Redis.Laws.{same_refl, find_head, find-incr_ne, find-expire_ne, counter_key}
use backend_project.Auth.Library.{Settings}
use backend_project.RateLimit.{rate_limit}

-- A request at a time, from a client to a scope.
pub record Request : Type 0 where
  pub now : Time
  pub key : CounterKey

abbrev passed : Result (Unit {0}) → Bool
passed (ok a) = true
passed (raised f) = false

module _ (settings : Settings) where
  -- Which of the requests with the key pass, while all are served.
  unfoldable pub passes : CounterKey → List Request → Redis → List Bool
  passes key [] r = []
  passes key (q ∷ qs) r =
      let (result, r') = rate_limit settings q.now q.key r in
      let rest = passes key qs r' in
      if counter_key.same q.key key then passed result ∷ rest else rest

  -- Request number `n` and those after it pass up to the limit.
  unfoldable pub up_to_limit : CounterKey → ℕ → List Request → List Bool
  up_to_limit key n [] = []
  up_to_limit key n (q ∷ qs) =
      if counter_key.same q.key key
      then not (ltb settings.auth_rate_limit_per_minute n) ∷ up_to_limit key (suc n) qs
      else up_to_limit key n qs

  -- Up to time `end`, the key counts `n` requests, and it expires then.
  abbrev Counts : CounterKey → ℕ → Time → Redis → Type 0
  Counts key n end r =
      (t : Time)
      → t < end
      → find t key r.counters ≡ some (record { key = key; value = n; expires_at = some end })

passed-raise_if : (b : Bool) (f : Fault) → passed (raise_if b f) ≡ not b
passed-raise_if true f = refl
passed-raise_if false f = refl

live : (t end : Time) → t < end → is_live t (some end) ≡ true
live t end h = ground arith

absurd_bool : {b : Bool} → b ≡ true → b ≢ false
absurd_bool p q = cc

-- One request, by what its key counted before it.
module _ (settings : Settings) (now : Time) (key : CounterKey) (r : Redis) where
  abbrev after : Redis
  after = (rate_limit settings now key r).1

  first_request :
      find now key r.counters ≡ none
      → Counts settings key 1 (now + 60) after
        × (passed (rate_limit settings now key r).0
            ≡ not (ltb settings.auth_rate_limit_per_minute 1))
  unfolding rate_limit ◌>>=◌
  first_request h =
      let fresh : Entry CounterKey ℕ = record { key = key; value = 1; expires_at = none } in
      rw h (
        rw (find_head now fresh (forget key r.counters) refl) (
          λ t l.
              find_head t (record fresh { expires_at = some (now + 60) }) _ (live t (now + 60) l),
          passed-raise_if _ _,
        ))

  next_request :
      (n : ℕ) (end : Time)
      → now < end
      → Counts settings key (suc n) end r
      → Counts settings key (suc (suc n)) end after
        × (passed (rate_limit settings now key r).0
            ≡ not (ltb settings.auth_rate_limit_per_minute (suc (suc n))))
  unfolding rate_limit ◌>>=◌
  next_request n end h c =
      let later_one : (suc (suc n) == 1) ≡ false = ground arith in
      rw (c now h) (
        rw later_one (
          λ t l.
              find_head t (record { key = key; value = suc (suc n); expires_at = some end }) _
                (live t end l),
          passed-raise_if _ _,
        ))

  other_request :
      (b : CounterKey) (n : ℕ) (end : Time)
      → key ≢ b
      → Counts settings b n end r
      → Counts settings b n end after
  unfolding rate_limit ◌>>=◌
  other_request b n end ne c =
      let (count, counters) = incr now key r.counters in
      elim (Bool-cases (count == 1)) [
        | inl one ↦ rw one (λ t l.
            find-expire_ne now t key b 60 counters ne
            ∙ find-incr_ne now t key b r.counters ne
            ∙ c t l)
        | inr more ↦ rw more (λ t l. find-incr_ne now t key b r.counters ne ∙ c t l)
      ]

module _ (settings : Settings) (key : CounterKey) where
  later_requests :
      (n : ℕ) (end : Time) (qs : List Request) (r : Redis)
      → All (λ q. q.now < end) qs
      → Counts settings key (suc n) end r
      → passes settings key qs r ≡ up_to_limit settings key (suc (suc n)) qs
  unfolding passes up_to_limit
  later_requests n end [] r h c = refl
  later_requests n end (q ∷ qs) r h c = elim (Bool-cases (counter_key.same q.key key)) [
    | inl e ↦
        let same : q.key ≡ key = (counter_key.same-iff q.key key).0 e in
        let step =
          next_request settings q.now q.key r n end h.0
            (subst (λ a. Counts settings a (suc n) end r) (sym same) c) in
        let rest = later_requests (suc n) end qs (after settings q.now q.key r) h.1 (
          subst (λ a. Counts settings a (suc (suc n)) end (after settings q.now q.key r)) same
            step.0) in
        rw e (rw rest (ap (λ b. b ∷ up_to_limit settings key (suc (suc (suc n))) qs) step.1))
    | inr e ↦
        let ne : q.key ≢ key = λ p. absurd_bool ((counter_key.same-iff q.key key).1 p) e in
        rw e (
          later_requests n end qs _ h.1 (other_request settings q.now q.key r key (suc n) end ne c))
  ]

  -- If the key counts no requests when a request comes, then of this one and the requests that follow
  -- it within 60 seconds, with requests of other keys between them, exactly those with the key up to
  -- the limit pass, in their order.
  pub rate_limit-window :
      (first : Time) (qs : List Request) (r : Redis)
      → find first key r.counters ≡ none
      → All (λ q. q.now < first + 60) qs
      → passes settings key (record { now = first; key = key } ∷ qs) r
        ≡ up_to_limit settings key 1 (record { now = first; key = key } ∷ qs)
  unfolding passes up_to_limit
  rate_limit-window first qs r e h =
      let step = first_request settings first key r e in
      let rest = later_requests 0 (first + 60) qs (after settings first key r) h step.0 in
      rw (same_refl key) (rw rest (ap (λ b. b ∷ up_to_limit settings key 2 qs) step.1))

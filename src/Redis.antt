-- ===== src/Redis.antt =====
-- What the services keep in Redis (app/core/redis_client.py gives them the client): refresh sessions,
-- reservations and the counters of the rate limit, each under a prefix of its own. A key is the tuple
-- of the parts that its text joins, which the prefix and the fixed form of ids keep apart.
pub mod Laws
pub mod Effects
use backend_project.Prelude.{
  ℕ, suc, ◌+◌, Uuid, String, Time, ℤ, pos, ◌+ℤ◌, Bool, ◌&&◌, true, false, not, ◌==◌, str_eq, ltb,
  Option, none, some, List, [], ◌∷◌, if◌then◌else◌, ◌≡◌, ◌↔◌,
}
use backend_project.Errors.{Fault, Result, ok, raised}
use backend_project.Models.Enums.{UserRole}

-- The test that two keys are one.
pub record Key (K : Type 0) : Type 0 where
  pub same : K → K → Bool
  pub same-iff : (a b : K) → (same a b ≡ true) ↔ (a ≡ b)

-- A value, with the time from which it is gone.
pub record Entry (K V : Type 0) : Type 0 where
  pub key : K
  pub value : V
  pub expires_at : Option Time

abbrev pub is_live : Time → Option Time → Bool
is_live now none = true
is_live now (some t) = ltb now t

module _ {K V : Type 0} ⦃k : Key K⦄ where
  -- GET
  unfoldable pub get : Time → K → List (Entry K V) → Option V
  get now key [] = none
  get now key (e ∷ es) =
      let rest = get now key es in
      if k.same e.key key && is_live now e.expires_at then some e.value else rest

  unfoldable pub forget : K → List (Entry K V) → List (Entry K V)
  forget key [] = []
  forget key (e ∷ es) = let rest = forget key es in if k.same e.key key then rest else e ∷ rest

  -- SETEX: the key lives for so many seconds.
  abbrev pub setex : Time → K → ℕ → V → List (Entry K V) → List (Entry K V)
  setex now key seconds value es =
      record { key = key; value = value; expires_at = some (now + seconds) } ∷ forget key es

  -- The entry that a key has now
  unfoldable pub find : Time → K → List (Entry K V) → Option (Entry K V)
  find now key [] = none
  find now key (e ∷ es) =
      let rest = find now key es in
      if k.same e.key key && is_live now e.expires_at then some e else rest

  -- EXPIRE: nothing for a key that is gone
  abbrev restart : Time → K → ℕ → List (Entry K V) → Option (Entry K V) → List (Entry K V)
  restart now key seconds es none = es
  restart now key seconds es (some e) = setex now key seconds e.value es

  abbrev pub expire : Time → K → ℕ → List (Entry K V) → List (Entry K V)
  expire now key seconds es = restart now key seconds es (find now key es)

module _ {K : Type 0} ⦃k : Key K⦄ where
  -- INCR: a key that is gone counts as 0 and does not expire.
  abbrev bumped : K → Option (Entry K ℕ) → Entry K ℕ
  bumped key none = record { key = key; value = 1; expires_at = none }
  bumped key (some e) = record { key = key; value = suc e.value; expires_at = e.expires_at }

  abbrev pub incr : Time → K → List (Entry K ℕ) → ℕ × List (Entry K ℕ)
  incr now key es = let e = bumped key (find now key es) in (e.value, e ∷ forget key es)

-- `serialize_refresh_session`
pub record RefreshSession : Type 0 where
  pub user_id : Uuid
  pub tenant_id : Uuid
  pub role : UserRole

-- f"reservation:{tenant_id}:{warehouse_id}:{variant_id}:{reservation_id}"
pub record ReservationKey : Type 0 where
  pub tenant_id : Uuid
  pub warehouse_id : Uuid
  pub variant_id : Uuid
  pub reservation_id : String

pub record Reservation : Type 0 where
  pub quantity : ℤ
  pub order_reference : String

-- f"rate-limit:{scope}:{client_ip}"
pub record CounterKey : Type 0 where
  pub scope : String
  pub client_ip : String

pub record Redis : Type 0 where
  pub refresh_sessions : List (Entry String RefreshSession)
  pub reservations : List (Entry ReservationKey Reservation)
  pub counters : List (Entry CounterKey ℕ)

-- A call that reads and writes Redis; what it has written stays when it raises.
abbrev pub RedisExec : Type 0 → Type 0
RedisExec A = Redis → Result A × Redis

module _ {A B : Type 0} where
  abbrev pub proceed : Result A → (A → RedisExec B) → RedisExec B
  proceed (ok a) f r = f a r
  proceed (raised e) f r = (raised e, r)

  infixl 5 ◌>>=◌ ◌>>◌
  unfoldable pub ◌>>=◌ : RedisExec A → (A → RedisExec B) → RedisExec B
  ◌>>=◌ m f r = let (a, r') = m r in proceed a f r'

  abbrev pub ◌>>◌ : RedisExec A → RedisExec B → RedisExec B
  m >> n = m >>= λ _. n

module _ {A : Type 0} where
  abbrev pub lift : Result A → RedisExec A
  lift a r = (a, r)

  -- A command: what Redis answers and what it keeps.
  abbrev pub command : (Redis → A × Redis) → RedisExec A
  command f r = let (a, r') = f r in (ok a, r')

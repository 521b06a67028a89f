-- ===== src/Redis/Effects.antt =====
-- What a call on Redis that returns has done at each step.
use backend_project.Prelude.{◌≡◌, refl, ap}
use backend_project.Errors.{Result, ok, raised}
use backend_project.Redis.{Redis, RedisExec, proceed, lift, command, ◌>>=◌}

module _ {A B : Type 0} where
  pub bind-ok :
      (m : RedisExec A) (f : A → RedisExec B) (r s : Redis) (b : B)
      → (m >>= f) r ≡ (ok b, s)
      → (a : A) × ((t : Redis) × ((m r ≡ (ok a, t)) × (f a t ≡ (ok b, s))))
  unfolding ◌>>=◌
  bind-ok m f r s b e = go (m r) refl e
    where
      go :
          (x : Result A × Redis)
          → m r ≡ x
          → (let (a, t) = x in proceed a f t) ≡ (ok b, s)
          → (a : A) × ((t : Redis) × ((m r ≡ (ok a, t)) × (f a t ≡ (ok b, s))))
      go (ok a, t) p q = (a, (t, (p, q)))
      go (raised f, t) p q = cc

pub lift-ok :
    {A : Type 0} (a : Result A) (r s : Redis) (x : A) → lift a r ≡ (ok x, s) → (a ≡ ok x) × (r ≡ s)
lift-ok a r s x e = (ap (λ p. p.0) e, ap (λ p. p.1) e)

-- A call leaves Redis as `P` says, if it found it so, however it ends.
pub record Leaves {A : Type 0} (P : Redis → Type 0) (m : RedisExec A) : Type 0 where
  pub after : (r : Redis) → P r → P (m r).1

module _ {P : Redis → Type 0} where
  pub Leaves-lift : {A : Type 0} (a : Result A) → Leaves P (lift a)
  Leaves-lift a = record { after = λ r p. p }

  pub Leaves-command :
      {A : Type 0} (f : Redis → A × Redis) → ((r : Redis) → P r → P (f r).1) → Leaves P (command f)
  Leaves-command f h = record { after = h }

  proceed-Leaves :
      {A B : Type 0} (a : Result A) (f : A → RedisExec B) (r : Redis)
      → ((x : A) → Leaves P (f x))
      → P r
      → P (proceed a f r).1
  proceed-Leaves (ok x) f r h p = (h x).after r p
  proceed-Leaves (raised e) f r h p = p

  -- Both calls are read off the goal.
  pub Leaves-bind :
      {A B : Type 0} {m : RedisExec A} {next : A → RedisExec B}
      → Leaves P m
      → ((x : A) → Leaves P (next x))
      → Leaves P (m >>= next)
  unfolding ◌>>=◌
  Leaves-bind {m = m} {next = next} first rest = record {
    after = λ r p. let (a, s) = m r in proceed-Leaves a next s rest (first.after r p);
  }

-- A call that starts in `r` ends in a state that is as `Q` says.
pub record Reaches {A : Type 0} (Q : Redis → Type 0) (r : Redis) (m : RedisExec A) : Type 0 where
  pub reached : Q (m r).1

module _ {A B : Type 0} {Q : Redis → Type 0} {r : Redis} where
  -- It ends there if it starts there and the step raises.
  pub Reaches-lift_bind :
      {a : Result A} {next : A → RedisExec B}
      → Q r
      → ((x : A) → a ≡ ok x → Reaches Q r (next x))
      → Reaches Q r (lift a >>= next)
  unfolding ◌>>=◌
  Reaches-lift_bind {a = ok x} {next = next} h rest = record { reached = (rest x refl).reached }
  Reaches-lift_bind {a = raised f} {next = next} h rest = record { reached = h }

  pub Reaches-command_bind :
      (f : Redis → A × Redis) (next : A → RedisExec B)
      → Reaches Q (f r).1 (next (f r).0)
      → Reaches Q r (command f >>= next)
  unfolding ◌>>=◌
  Reaches-command_bind f next rest = record { reached = rest.reached }

pub Reaches-lift :
    {A : Type 0} {Q : Redis → Type 0} {r : Redis} {a : Result A} → Q r → Reaches Q r (lift a)
Reaches-lift h = record { reached = h }

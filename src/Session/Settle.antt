-- ===== src/Session/Settle.antt =====
-- What a transaction does, by what its body and its commit answer.
use backend_project.Prelude.{subst, sym, ◌≡◌, refl}
use backend_project.Errors.{Fault, Result, ok, raised, integrity_error, failure}
use backend_project.Models.{Database}
use backend_project.Session.Keeps.{Gives, Ends}
use backend_project.Session.{
  start, rollback_and_raise, Env, Outcome, accepted, rejected, failed, Session, Exec, pure, commit,
  committing, transaction, written, handled, continue, ◌>>=◌,
}

module _ {A : Type 0} (env : Env) (handler : Fault → Exec A) (s : Session) where
  abbrev pub conclude : Outcome → A → Database → Result A × Session
  conclude accepted a d = (ok a, record s { committed = d; working = d })
  conclude (rejected e) a d = handler integrity_error (record s { committed = e; working = d })
  conclude failed a d = handler failure (record s { working = d })

  abbrev pub settle : Result (A × Database) → Result A × Session
  settle (ok (a, d)) = conclude (env.outcome d) a d
  settle (raised x) = handler x s

  committed-conclude :
      (o : Outcome) (a : A) (d : Database)
      → (let (r, s') =
            continue
              (committing o (record s { working = d })).0
              (λ _. pure a)
              (committing o (record s { working = d })).1 in
          handled r handler s')
        ≡ conclude o a d
  unfolding pure
  committed-conclude accepted a d = refl
  committed-conclude (rejected e) a d = refl
  committed-conclude failed a d = refl

  pub transaction-settle :
      (f : Database → Result (A × Database)) → transaction env f handler s ≡ settle (f s.working)
  unfolding transaction ◌>>=◌
  transaction-settle f = go (f s.working)
    where
      go :
          (x : Result (A × Database))
          → (let (r, s') =
                continue (written x s).0 (λ a. commit env >>= λ _. pure a) (written x s).1 in
              handled r handler s')
            ≡ settle x
      go (ok (a, d)) = committed-conclude (env.outcome d) a d
      go (raised f) = refl

-- What a body gives, a transaction that returns has committed.
module _ {A : Type 0} (Q : A → Database → Type 0) (env : Env) (db : Database) where
  settle-Ends :
      (x : Result (A × Database))
      → Gives Q x
      → Ends (λ a s. Q a s.committed) (settle env rollback_and_raise (start db) x)
  unfolding rollback_and_raise ◌>>=◌
  settle-Ends (raised f) h = tt
  settle-Ends (ok (a, d)) h = by_outcome (env.outcome d)
    where
      by_outcome :
          (o : Outcome)
          → Ends (λ a s. Q a s.committed) (conclude env rollback_and_raise (start db) o a d)
      by_outcome accepted = h
      by_outcome (rejected e) = tt
      by_outcome failed = tt

  pub transaction-Ends :
      (f : Database → Result (A × Database))
      → Gives Q (f db)
      → Ends (λ a s. Q a s.committed) (transaction env f rollback_and_raise (start db))
  transaction-Ends f h =
      subst (Ends (λ a s. Q a s.committed))
        (sym (transaction-settle env rollback_and_raise (start db) f)) (settle-Ends (f db) h)

-- What holds of a call that returns holds of what it returned.
pub Ends-ok :
    {A : Type 0} (Q : A → Session → Type 0) (r : Result A × Session) (a : A) (s : Session)
    → Ends Q r
    → r ≡ (ok a, s)
    → Q a s
Ends-ok Q r a s h e = subst (Ends Q) e h

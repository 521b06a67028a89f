-- ===== src/Session/Returns.antt =====
-- What a call that returned has done at each step.
use backend_project.Prelude.{◌≡◌, ◌≢◌, refl, ap, ◌∙◌}
use backend_project.Errors.{Fault, Result, ok, raised}
use backend_project.Models.{Database}
use backend_project.Session.{
  Env, Outcome, accepted, rejected, failed, Session, Exec, pure, raise, read, commit, committing,
  written, continue, commit_after, ◌>>=◌,
}

module _ {A B : Type 0} where
  pub read_bind-ok :
      (f : Database → Result A) (next : A → Exec B) (s t : Session) (b : B)
      → (read f >>= next) s ≡ (ok b, t)
      → (a : A) × ((f s.working ≡ ok a) × (next a s ≡ (ok b, t)))
  unfolding ◌>>=◌
  read_bind-ok f next s t b e = by_answer (f s.working) refl e
    where
      by_answer :
          (x : Result A)
          → f s.working ≡ x
          → continue x next s ≡ (ok b, t)
          → (a : A) × ((f s.working ≡ ok a) × (next a s ≡ (ok b, t)))
      by_answer (ok a) p q = (a, (p, q))
      by_answer (raised x) p q = cc

module _ {A B : Type 0} where
  -- A call that ends by raising does not return.
  pub then_raise-returns :
      (m : Exec A) (f : Fault) (s t : Session) (b : B) → (m >>= λ _. raise f) s ≢ (ok b, t)
  unfolding ◌>>=◌
  then_raise-returns m f s t b e = by_answer (m s) e
    where
      by_answer : (x : Result A × Session) → continue x.0 (λ _. raise f) x.1 ≢ (ok b, t)
      by_answer (ok a, u) q = cc
      by_answer (raised g, u) q = cc

module _ {A : Type 0} where
  -- What it has stored, others see.
  pub commit_after-ok :
      (env : Env) (f : Database → Result (A × Database)) (s t : Session) (a : A)
      → commit_after env f s ≡ (ok a, t)
      → f s.working ≡ ok (a, t.committed)
  unfolding commit_after ◌>>=◌
  commit_after-ok env f s t a e = by_body (f s.working) refl e
    where
      by_outcome :
          (o : Outcome) (b : A) (d : Database)
          → (let (r, s') = committing o (record s { working = d }) in continue r (λ _. pure b) s')
            ≡ (ok a, t)
          → (b ≡ a) × (d ≡ t.committed)
      by_outcome accepted b d q = (cc, ap (λ p. p.1.committed) q)
      by_outcome (rejected x) b d q = cc
      by_outcome failed b d q = cc

      pair :
          {b : A} {d : Database}
          → b ≡ a
          → d ≡ t.committed
          → ◌≡◌ {A = Result (A × Database)} (ok (b, d)) (ok (a, t.committed))
      pair x y = cc

      by_body :
          (x : Result (A × Database))
          → f s.working ≡ x
          → (let (r, s') = written x s in continue r (λ b. commit env >>= λ _. pure b) s')
            ≡ (ok a, t)
          → f s.working ≡ ok (a, t.committed)
      by_body (ok (b, d)) p q = let (x, y) = by_outcome (env.outcome d) b d q in p ∙ pair x y
      by_body (raised x) p q = cc

  -- A body that returns, and a commit that is accepted.
  pub commit_after-accepted :
      (env : Env) (f : Database → Result (A × Database)) (s : Session) (a : A) (d : Database)
      → f s.working ≡ ok (a, d)
      → env.outcome d ≡ accepted
      → commit_after env f s ≡ (ok a, record s { committed = d; working = d })
  unfolding commit_after ◌>>=◌
  commit_after-accepted env f s a d e o = rw e (rw o refl)

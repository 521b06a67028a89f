-- ===== src/Session/Keeps.antt =====
-- Rely and guarantee. `Relies env P`: whatever other sessions have committed when ours is refused
-- satisfies `P`. `Keeps P m`: if the committed and the pending database satisfy `P` before `m`,
-- they do after it, however `m` ends. One rule for each way to build an action.
use backend_project.Prelude.{◌≡◌, refl, Option, none, some, String, Uuid}
use backend_project.Errors
use backend_project.Errors.{Fault, Result, ok, raised}
use backend_project.Models.{Database}
use backend_project.Session.{
  Env, Outcome, accepted, rejected, failed, Session, Exec, pure, raise, read, write, attempt,
  rollback, commit, send_task, rollback_and_raise, written, handled, continue, committing, sending,
  transaction, commit_after, on_conflict, ◌>>=◌,
}

pub record Relies (env : Env) (P : Database → Type 0) : Type 0 where
  pub others : (db d : Database) → env.outcome db ≡ rejected d → P d

abbrev pub Holds : (Database → Type 0) → Session → Type 0
Holds P s = P s.committed × P s.working

pub record Keeps {A : Type 0} (P : Database → Type 0) (m : Exec A) : Type 0 where
  pub at : (s : Session) → Holds P s → Holds P (m s).1

-- A body of queries and changes keeps `P`, where it does not raise.
abbrev pub Saves : {A : Type 0} → (Database → Type 0) → Result (A × Database) → Type 0
Saves P (ok (a, db)) = P db
Saves P (raised f) = Unit

-- The rule for a body's bind: what follows may use that `m` returned.
pub Saves-bind :
    {A B : Type 0} (P : Database → Type 0) (m : Result B) (f : B → Result (A × Database))
    → ((b : B) → m ≡ ok b → Saves P (f b))
    → Saves P (Errors.◌>>=◌ m f)
unfolding Errors.◌>>=◌
Saves-bind P (ok b) f h = h b refl
Saves-bind P (raised e) f h = tt

module _ {A : Type 0} {P : Database → Type 0} where
  pub Keeps-pure : (a : A) → Keeps P (pure a)
  unfolding pure
  Keeps-pure a = record { at = λ s h. h }

  pub Keeps-raise : (f : Fault) → Keeps P (raise {A = A} f)
  unfolding raise
  Keeps-raise f = record { at = λ s h. h }

  pub Keeps-read : (f : Database → Result A) → Keeps P (read f)
  unfolding read
  Keeps-read f = record { at = λ s h. h }

  pub Keeps-rollback_and_raise : (f : Fault) → Keeps P (rollback_and_raise {A = A} f)
  unfolding rollback_and_raise ◌>>=◌
  Keeps-rollback_and_raise f = record { at = λ s h. (h.0, h.0) }

module _ {A : Type 0} (P : Database → Type 0) where
  written-Holds :
      (r : Result (A × Database)) (s : Session) → Saves P r → Holds P s → Holds P (written r s).1
  written-Holds (ok (a, db)) s saved h = (h.0, saved)
  written-Holds (raised f) s saved h = h

  handled-Holds :
      (r : Result A) (handler : Fault → Exec A) (s : Session)
      → ((f : Fault) → Keeps P (handler f))
      → Holds P s
      → Holds P (handled r handler s).1
  handled-Holds (ok a) handler s k h = h
  handled-Holds (raised f) handler s k h = (k f).at s h

  continue-Holds :
      {B : Type 0} (r : Result A) (f : A → Exec B) (s : Session)
      → ((a : A) → Keeps P (f a))
      → Holds P s
      → Holds P (continue r f s).1
  continue-Holds (ok a) f s k h = (k a).at s h
  continue-Holds (raised e) f s k h = h

module _ (P : Database → Type 0) where
  committing-Holds :
      (o : Outcome) (s : Session)
      → ((d : Database) → o ≡ rejected d → P d)
      → Holds P s
      → Holds P (committing o s).1
  committing-Holds accepted s rely h = (h.1, h.1)
  committing-Holds (rejected d) s rely h = (rely d refl, h.1)
  committing-Holds failed s rely h = h

  sending-Holds :
      (o : Option String) (job : Uuid) (s : Session) → Holds P s → Holds P (sending o job s).1
  sending-Holds none job s h = h
  sending-Holds (some text) job s h = h

module _ {P : Database → Type 0} where
  pub Keeps-write :
      {A : Type 0} (f : Database → Result (A × Database))
      → ((db : Database) → P db → Saves P (f db))
      → Keeps P (write f)
  unfolding write
  Keeps-write f saves = record {
    at = λ s h. written-Holds P (f s.working) s (saves s.working h.1) h;
  }

  pub Keeps-rollback : Keeps P rollback
  unfolding rollback
  Keeps-rollback = record { at = λ s h. (h.0, h.0) }

  pub Keeps-commit : (env : Env) → Relies env P → Keeps P (commit env)
  unfolding commit
  Keeps-commit env rely = record {
    at = λ s h. committing-Holds P (env.outcome s.working) s (rely.others s.working) h;
  }

  pub Keeps-send_task : (env : Env) (job : Uuid) → Keeps P (send_task env job)
  unfolding send_task
  Keeps-send_task env job = record { at = λ s h. sending-Holds P (env.send_task job) job s h }

  pub Keeps-attempt :
      {A : Type 0} (m : Exec A) (handler : Fault → Exec A)
      → Keeps P m
      → ((f : Fault) → Keeps P (handler f))
      → Keeps P (attempt m handler)
  unfolding attempt
  Keeps-attempt m handler km kh = record {
    at = λ s h. let (r, s') = m s in handled-Holds P r handler s' kh (km.at s h);
  }

module _ {A B : Type 0} {P : Database → Type 0} where
  -- Both actions are read off the goal.
  pub Keeps-bind :
      {m : Exec A} {next : A → Exec B}
      → Keeps P m
      → ((a : A) → Keeps P (next a))
      → Keeps P (m >>= next)
  unfolding ◌>>=◌
  Keeps-bind {m = m} {next = next} first rest = record {
    at = λ s h. continue-Holds P (m s).0 next (m s).1 rest (first.at s h);
  }

  -- What follows a query may use that it returned.
  pub Keeps-read_ok :
      (f : Database → Result A) (next : A → Exec B)
      → ((db : Database) (a : A) → P db → f db ≡ ok a → Keeps P (next a))
      → Keeps P (read f >>= next)
  unfolding ◌>>=◌
  Keeps-read_ok f next rest = record { at = λ s h. by_answer s h (f s.working) refl }
    where
      by_answer :
          (s : Session) (h : Holds P s) (x : Result A)
          → f s.working ≡ x
          → Holds P (continue x next s).1
      by_answer s h (ok a) e = (rest s.working a h.1 e).at s h
      by_answer s h (raised x) e = h

  -- What follows a query that cannot fail may use what the query saw.
  pub Keeps-read_bind :
      (next : A → Exec B) (g : Database → A)
      → ((db : Database) → P db → Keeps P (next (g db)))
      → Keeps P (read (λ db. ok (g db)) >>= next)
  unfolding ◌>>=◌
  Keeps-read_bind next g rest = record { at = λ s h. (rest s.working h.1).at s h }

-- The rule for a query in one session: what follows may use what the query saw there.
pub read-Holds :
    {A B : Type 0} (P : Database → Type 0) (f : Database → Result A) (next : A → Exec B)
    (s : Session)
    → Holds P s
    → ((a : A) → f s.working ≡ ok a → Holds P (next a s).1)
    → Holds P ((read f >>= next) s).1
unfolding ◌>>=◌
read-Holds {A = A} P f next s h rest = by_answer (f s.working) refl
  where
    by_answer : (x : Result A) → f s.working ≡ x → Holds P (continue x next s).1
    by_answer (ok a) e = rest a e
    by_answer (raised x) e = h

pub ruleset keeps_rules = (
  Keeps-pure, Keeps-raise, Keeps-read, Keeps-rollback_and_raise, Keeps-rollback, Keeps-commit,
  Keeps-send_task, Keeps-attempt, Keeps-bind,
)

pub Keeps-on_conflict :
    {A : Type 0} {P : Database → Type 0} (conflict fault : Fault)
    → Keeps P (on_conflict {A = A} conflict fault)
unfolding on_conflict
Keeps-on_conflict conflict Fault.integrity_error = search keeps_rules
Keeps-on_conflict conflict _ = search keeps_rules

pub Keeps-transaction :
    {A : Type 0} {P : Database → Type 0} (env : Env) (f : Database → Result (A × Database))
    (handler : Fault → Exec A)
    → Relies env P
    → ((db : Database) → P db → Saves P (f db))
    → ((x : Fault) → Keeps P (handler x))
    → Keeps P (transaction env f handler)
unfolding transaction
Keeps-transaction env f handler rely saves kh =
    Keeps-attempt _ handler
      (Keeps-bind (Keeps-write f saves)
        (λ a. Keeps-bind (Keeps-commit env rely) (λ _. Keeps-pure a)))
      kh

pub Keeps-commit_after :
    {A : Type 0} {P : Database → Type 0} (env : Env)
    → Relies env P
    → (f : Database → Result (A × Database)) → ((db : Database) → P db → Saves P (f db))
    → Keeps P (commit_after env f)
unfolding commit_after
Keeps-commit_after env rely f saves =
    Keeps-bind (Keeps-write f saves) (λ a. Keeps-bind (Keeps-commit env rely) (λ _. Keeps-pure a))

-- What a body returns and leaves, where it does not raise.
abbrev pub Gives : {A : Type 0} → (A → Database → Type 0) → Result (A × Database) → Type 0
Gives Q (ok (a, db)) = Q a db
Gives Q (raised f) = Unit

pub Gives-bind :
    {A B : Type 0} (Q : A → Database → Type 0) (m : Result B) (f : B → Result (A × Database))
    → ((b : B) → m ≡ ok b → Gives Q (f b))
    → Gives Q (Errors.◌>>=◌ m f)
unfolding Errors.◌>>=◌
Gives-bind Q (ok b) f h = h b refl
Gives-bind Q (raised e) f h = tt

-- What a call returns and leaves, where it does not raise.
abbrev pub Ends : {A : Type 0} → (A → Session → Type 0) → Result A × Session → Type 0
Ends Q (ok a, s) = Q a s
Ends Q (raised f, s) = Unit

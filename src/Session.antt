-- ===== src/Session.antt =====
-- A request's session: SQLAlchemy's `AsyncSession` as the services use it (app/database.py makes
-- one for each request), exceptions (app/errors.py), and Celery's `send_task`.
-- `working` is the database as the open transaction sees it, `committed` the one that other
-- sessions see; a transaction starts with the two equal.

pub mod Keeps
pub mod Settle
pub mod Returns
pub use backend_project.Errors.{ErrorCode, Fault, Result, ok, raised}
use backend_project.Prelude.{ℕ, Option, none, some, List, [], ◌∷◌, Uuid, Time, String}
use backend_project.Models.{Database}

-- What PostgreSQL answers to a commit: the pending state is stored; or a constraint refuses it,
-- because of rows that others have committed meanwhile; or the commit fails otherwise.
pub data Outcome : Type 0 where
  accepted : Outcome
  rejected : Database → Outcome
  failed : Outcome

-- What a request gets from outside: the clock, `uuid.uuid4()` (the k-th id that it draws), the text
-- of `secrets.token_urlsafe(32)` and the salt of `PasswordHasher.hash` (it draws each once at most), the
-- answers of PostgreSQL, and the text with which `send_task` fails, if it fails (as the code keeps
-- it: at most 1000 characters).
pub record Env : Type 0 where
  pub now : Time
  pub uuid4 : ℕ → Uuid
  pub token_urlsafe : String
  pub salt : String
  pub outcome : Database → Outcome
  pub send_task : Uuid → Option String

pub record Session : Type 0 where
  pub committed : Database
  pub working : Database
  pub tasks : List Uuid

abbrev pub Exec : Type 0 → Type 0
Exec A = Session → Result A × Session

abbrev pub start : Database → Session
start db = record { committed = db; working = db; tasks = [] }

module _ {A : Type 0} where
  pub pure : A → Exec A
  pure a s = (ok a, s)

  pub raise : Fault → Exec A
  raise f s = (raised f, s)

  -- A query, with what the code computes from its rows.
  pub read : (Database → Result A) → Exec A
  read f s = (f s.working, s)

  abbrev pub written : Result (A × Database) → Exec A
  written (ok (a, db)) s = (ok a, record s { working = db })
  written (raised f) s = (raised f, s)

  -- Queries and changes of the pending state up to the next commit.
  pub write : (Database → Result (A × Database)) → Exec A
  write f s = written (f s.working) s

  abbrev pub handled : Result A → (Fault → Exec A) → Exec A
  handled (ok a) h s = (ok a, s)
  handled (raised f) h s = h f s

  -- `try: m except: h`
  pub attempt : Exec A → (Fault → Exec A) → Exec A
  attempt m h s = let (r, s') = m s in handled r h s'

unfoldable pub rollback : Exec (Unit {0})
rollback s = (ok tt, record s { working = s.committed })

abbrev pub committing : Outcome → Exec (Unit {0})
committing accepted s = (ok tt, record s { committed = s.working })
committing (rejected db) s = (raised Fault.integrity_error, record s { committed = db })
committing failed s = (raised Fault.failure, s)

unfoldable pub commit : Env → Exec (Unit {0})
commit env s = committing (env.outcome s.working) s

abbrev pub sending : Option String → Uuid → Exec (Option String)
sending none job s = (ok none, record s { tasks = job ∷ s.tasks })
sending (some text) job s = (ok (some text), s)

-- `celery_app.send_task`: the text of the exception, if it raised one.
unfoldable pub send_task : Env → Uuid → Exec (Option String)
send_task env job s = sending (env.send_task job) job s

-- What other sessions commit before the next statement, which reads or writes the rows as they are then;
-- nothing of ours is pending.
unfoldable pub others : (Database → Database) → Exec (Unit {0})
others f s = (ok tt, record s { committed = f s.committed; working = f s.working })

module _ {A B : Type 0} where
  abbrev pub continue : Result A → (A → Exec B) → Exec B
  continue (ok a) f s = f a s
  continue (raised e) f s = (raised e, s)

  -- Opening this opens the other actions too.
  infixl 5 ◌>>=◌ ◌>>◌
  unfoldable pub ◌>>=◌ : Exec A → (A → Exec B) → Exec B
  unfolding pure raise read write attempt rollback commit send_task others
  ◌>>=◌ m f s = let (r, s') = m s in continue r f s'

  abbrev pub ◌>>◌ : Exec A → Exec B → Exec B
  m >> n = m >>= λ _. n

-- `except Exception: await session.rollback(); raise`
unfoldable pub rollback_and_raise : {A : Type 0} → Fault → Exec A
rollback_and_raise f = do rollback; raise f

-- `try: f; await session.commit() except: handler`
unfoldable pub transaction :
    {A : Type 0} → Env → (Database → Result (A × Database)) → (Fault → Exec A) → Exec A
transaction env f handler = attempt (do a ← write f; commit env; pure a) handler

-- No `try`: what fails leaves the session to be closed.
unfoldable pub commit_after : {A : Type 0} → Env → (Database → Result (A × Database)) → Exec A
commit_after env f = do a ← write f; commit env; pure a

-- `except IntegrityError: rollback, raise 409`; other exceptions pass.
unfoldable pub on_conflict : {A : Type 0} → Fault → Fault → Exec A
on_conflict conflict Fault.integrity_error = do rollback; raise conflict
on_conflict conflict fault = raise fault

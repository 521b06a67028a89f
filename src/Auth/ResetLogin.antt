-- ===== src/Auth/ResetLogin.antt =====
-- A confirmed password reset lets the user log in with the new password.
use backend_project.Prelude.{
  Uuid, String, true, false, ◌==◌, str_eq, str_eq_iff, ◌≡◌, refl, sym, ap, ◌∙◌, some, [], ◌∷◌,
  arith,
}
use backend_project.Errors
use backend_project.Errors.{Result, ok, app_exception, invalid_reset_token}
use backend_project.Models.{Database, User, Tenant, OneTimeToken, user_row, token_row}
use backend_project.Table.{select, one_or_none, update}
use backend_project.Table.Laws.{UniqueKeys, Has, one_or_none-Has}
use backend_project.Table.Unique.{select_unique, select-update}
use backend_project.Session.{Env, Session, start, accepted, ◌>>=◌}
use backend_project.Session.Returns.{commit_after-accepted}
use backend_project.Access.{is_user}
use backend_project.Auth.Library.{Library, Settings, IsFaithful}
use backend_project.Auth.Checks.{authenticate}
use backend_project.Auth.Spend.{
  find_token, find_user, is_expired, spent, with_password, reset_password,
}
use backend_project.Auth.Accounts.{reset_or_expire, confirm_password_reset}

-- The database after the reset
abbrev pub reset_database : Library → Env → String → OneTimeToken → User → Database → Database
reset_database library env password token user db = record db {
  users = update (with_password library env password user) db.users;
  password_reset_tokens = update (spent env.now token) db.password_reset_tokens;
}

is_user-id : (i t : Uuid) (u : User) → is_user i t u ≡ true → u.id ≡ i
is_user-id i t u e = ground arith

is_user-active : (i t : Uuid) (u : User) → is_user i t u ≡ true → u.is_active ≡ true
is_user-active i t u e = ground arith

find_user-owner :
    (token : OneTimeToken) (owner : User) (db : Database)
    → UniqueKeys db.users
    → Has owner db.users
    → is_user token.user_id token.tenant_id owner ≡ true
    → find_user (app_exception 400 invalid_reset_token) token db ≡ ok owner
unfolding find_user Errors.◌>>=◌
find_user-owner token owner db keys listed own =
    let found =
      select_unique (is_user token.user_id token.tenant_id) owner db.users keys listed own
        (λ x e. is_user-id _ _ x e ∙ sym (is_user-id _ _ owner own)) in
    rw found refl

module _ (library : Library) (settings : Settings) (env : Env) (password : String)
    (row : OneTimeToken) (owner : User) (db : Database) where
  reset_password-owner :
      UniqueKeys db.users
      → Has owner db.users
      → is_user row.user_id row.tenant_id owner ≡ true
      → reset_password library env password row db
        ≡ ok (tt, reset_database library env password row owner db)
  unfolding reset_password Errors.◌>>=◌
  reset_password-owner keys listed own = rw (find_user-owner row owner db keys listed own) refl

  authenticate-reset :
      (home : Tenant)
      → IsFaithful library
      → UniqueKeys db.users
      → owner.is_active ≡ true
      → select (λ u. str_eq u.email owner.email) db.users ≡ owner ∷ []
      → one_or_none (select (λ t. t.id == owner.tenant_id) db.tenants) ≡ ok (some home)
      → home.is_active ≡ true
      → authenticate library
          (record { email = owner.email; password = password })
          (reset_database library env password row owner db)
        ≡ ok (with_password library env password owner)
  unfolding authenticate Errors.◌>>=◌
  authenticate-reset home faithful keys active by_email at_home open_home =
      let new = with_password library env password owner in
      let found =
        select-update (λ u. str_eq u.email owner.email) owner new db.users refl
          ((str_eq_iff owner.email owner.email).1 refl) keys by_email in
      rw found
        (rw active (rw (faithful.password_back env.salt password) (rw at_home (rw open_home refl))))

-- A reset with an unused token that has not expired, of an active user whose email no one else has and
-- whose tenant is active, returns if its commit is accepted, and then the user can log in with the new
-- password.
pub confirm_password_reset-login :
    (library : Library) (settings : Settings) (env : Env) (token password : String)
    (row : OneTimeToken) (owner : User) (home : Tenant) (db : Database)
    → IsFaithful library
    → UniqueKeys db.users
    → find_token
        (app_exception 400 invalid_reset_token)
        (library.sha256 token)
        db.password_reset_tokens
      ≡ ok row
    → is_expired env.now row ≡ false
    → is_user row.user_id row.tenant_id owner ≡ true
    → select (λ u. str_eq u.email owner.email) db.users ≡ owner ∷ []
    → one_or_none (select (λ t. t.id == owner.tenant_id) db.tenants) ≡ ok (some home)
    → home.is_active ≡ true
    → ((d : Database) → env.outcome d ≡ accepted)
    → (s : Session) × ((confirm_password_reset library settings env
            (record { token = token; new_password = password })
            (start db)
          ≡ (ok tt, s))
        × (authenticate library (record { email = owner.email; password = password }) s.committed
            ≡ ok (with_password library env password owner)))
unfolding confirm_password_reset reset_or_expire ◌>>=◌
confirm_password_reset-login library settings env token password row owner home db faithful keys
      found fresh own by_email at_home open_home outcome =
    let listed = (one_or_none-Has _ owner db.users (ap one_or_none by_email)).0 in
    let body = reset_password-owner library settings env password row owner db keys listed own in
    let d = reset_database library env password row owner db in
    let done =
      commit_after-accepted env (reset_password library env password row) (start db) tt d body
        (outcome d) in
    (
      record (start db) { committed = d; working = d },
      (
        rw found (rw fresh done),
        authenticate-reset library settings env password row owner db home faithful keys
            (is_user-active _ _ owner own) by_email at_home open_home,
      ),
    )

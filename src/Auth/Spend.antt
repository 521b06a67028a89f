-- ===== src/Auth/Spend.antt =====
-- app/services/auth_service.py: what verifying an email and confirming a password reset change.
use backend_project.Prelude.{
  String, Time, leb, Bool, true, false, ◌&&◌, str_eq, Option, none, some, is_none, List,
  if◌then◌else◌,
}
use backend_project.Errors.{
  Result, ok, ◌>>=◌, Fault, app_exception, email_required, user_not_found,
  invalid_verification_token, invalid_reset_token,
}
use backend_project.Models.{Database, User, OneTimeToken, user_row, token_row}
use backend_project.Table.{select, one_or_none, or_raise, update}
use backend_project.Session.{Env}
use backend_project.Access.{is_user}
use backend_project.Auth.Library.{Library, Settings, compare_digest}
use backend_project.Auth.OneTime.{given, consume}

-- `_HARDCODED_DEMO_MASTER_KEY`
abbrev pub demo_master_key : String
demo_master_key = "leanstock-demo-skeleton-key-do-not-use-in-real-prod-2026"

abbrev matches_setting : Library → String → Option String → Result Bool
matches_setting library candidate none = ok false
matches_setting library candidate (some master_token) =
    if str_eq master_token "" then ok false else compare_digest library candidate master_token

-- `_matches_master_secret`
unfoldable pub matches_master_secret : Library → Settings → String → Result Bool
matches_master_secret library settings candidate = do
  demo ← compare_digest library candidate demo_master_key
  if demo
      then ok true
      else matches_setting library candidate settings.email_verification_master_token

-- The query for an active user by email
abbrev pub user_by_email : String → Database → Result (Option User)
user_by_email email db = one_or_none (select (λ u. str_eq u.email email && u.is_active) db.users)

-- `user.email_verified_at or now`
abbrev pub verified_at : Option Time → Time → Time
verified_at none now = now
verified_at (some t) now = t

abbrev pub verified : User → Time → User
verified user now = record user {
  email_verified_at = some (verified_at user.email_verified_at now);
}

-- `_verify_email_with_master_token`, up to its commit
unfoldable pub verify_by_email : Env → Option String → Database → Result (Unit {0} × Database)
verify_by_email env request_email db = do
  email ← or_raise (app_exception 400 email_required) (given request_email)
  found ← user_by_email email db
  user ← or_raise (app_exception 404 user_not_found) found
  ok (
    tt,
    record db {
      users = update (verified user env.now) db.users;
      email_verification_tokens = consume env.now user.id db.email_verification_tokens;
    },
  )

-- The query for a token that is not consumed, by the hash of its text
unfoldable pub find_token : Fault → String → List OneTimeToken → Result OneTimeToken
find_token missing token_hash tokens = do
  found ← one_or_none (select (λ t. str_eq t.token_hash token_hash && is_none t.consumed_at) tokens)
  or_raise missing found

-- `_is_expired`
abbrev pub is_expired : Time → OneTimeToken → Bool
is_expired now token = leb token.expires_at now

abbrev pub spent : Time → OneTimeToken → OneTimeToken
spent now token = record token { consumed_at = some now }

-- The active user of a token
unfoldable pub find_user : Fault → OneTimeToken → Database → Result User
find_user missing token db = do
  found ← one_or_none (select (is_user token.user_id token.tenant_id) db.users)
  or_raise missing found

-- An expired token is spent too.
abbrev pub expire_verification : Env → OneTimeToken → Database → Result (Unit {0} × Database)
expire_verification env token db = ok (
  tt,
  record db {
    email_verification_tokens = update (spent env.now token) db.email_verification_tokens;
  },
)

unfoldable pub verify_user : Env → OneTimeToken → Database → Result (Unit {0} × Database)
unfolding find_user
verify_user env token db = do
  user ← find_user (app_exception 400 invalid_verification_token) token db
  ok (
    tt,
    record db {
      users = update (verified user env.now) db.users;
      email_verification_tokens = update (spent env.now token) db.email_verification_tokens;
    },
  )

abbrev pub expire_reset : Env → OneTimeToken → Database → Result (Unit {0} × Database)
expire_reset env token db = ok (
  tt,
  record db { password_reset_tokens = update (spent env.now token) db.password_reset_tokens },
)

abbrev pub with_password : Library → Env → String → User → User
with_password library env password user = record user {
  hashed_password = library.hash env.salt password;
}

unfoldable pub reset_password :
    Library → Env → String → OneTimeToken → Database → Result (Unit {0} × Database)
unfolding find_user
reset_password library env new_password token db = do
  user ← find_user (app_exception 400 invalid_reset_token) token db
  ok (
    tt,
    record db {
      users = update (with_password library env new_password user) db.users;
      password_reset_tokens = update (spent env.now token) db.password_reset_tokens;
    },
  )

-- ===== src/Auth/OneTime.antt =====
-- app/services/auth_service.py: the checks of registration and the changes of each transaction that
-- makes or spends a one-time token.
use backend_project.Prelude.{
  ℕ, ◌+◌, ◌*◌, Uuid, String, Time, Bool, true, false, not, ◌&&◌, ◌||◌, ◌==◌, str_eq, Option, none,
  some, is_none, is_some, List, [], ◌∷◌, if◌then◌else◌,
}
use backend_project.Errors.{
  Result, ok, raise_if, ◌>>=◌, ◌>>◌, app_exception, forbidden, email_not_verified, email_conflict,
  tenant_required, tenant_slug_conflict,
}
use backend_project.Models.{
  Database, User, Tenant, OneTimeToken, user_row, tenant_row, token_row, same_email, same_slug,
  same_hash,
}
use backend_project.Models.Enums.{UserRole, super_admin, tenant_admin, role_eq}
use backend_project.Table.{select, one_or_none, or_raise, insert}
use backend_project.Session.{Env}
use backend_project.Auth.Library.{Library, Settings}

pub record RegisterRequest : Type 0 where
  pub email : String
  pub password : String
  pub name : String
  pub role : UserRole
  pub tenant_name : Option String
  pub tenant_slug : Option String

-- `_role_creation_forbidden`
abbrev pub role_creation_forbidden : Option User → UserRole → Bool
role_creation_forbidden none role = not (role_eq role tenant_admin || role_eq role super_admin)
role_creation_forbidden (some actor) role =
    role_eq role super_admin && not (role_eq actor.role super_admin)

-- `current_user is not None and not _is_email_verified(current_user)`
abbrev unverified : Option User → Bool
unverified none = false
unverified (some actor) = is_none actor.email_verified_at

unfoldable pub check_registration : RegisterRequest → Option User → Database → Result (Unit {0})
check_registration request current_user db = do
  raise_if (role_creation_forbidden current_user request.role) (app_exception 403 forbidden)
  raise_if (unverified current_user) (app_exception 403 email_not_verified)
  existing_user ← one_or_none (select (λ u. str_eq u.email request.email) db.users)
  raise_if (is_some existing_user) (app_exception 409 email_conflict)

-- An empty text counts as missing.
abbrev pub given : Option String → Option String
given none = none
given (some text) = if str_eq text "" then none else some text

abbrev pub has_rows : {A : Type 0} → List A → Bool
has_rows [] = false
has_rows (x ∷ xs) = true

-- The tenant's name and slug, for a registration without a user
unfoldable pub check_bootstrap : RegisterRequest → Database → Result (String × String)
check_bootstrap request db = do
  raise_if (role_eq request.role super_admin && has_rows db.users) (app_exception 403 forbidden)
  name ← or_raise (app_exception 400 tenant_required) (given request.tenant_name)
  slug ← or_raise (app_exception 400 tenant_required) (given request.tenant_slug)
  existing_tenant ← one_or_none (select (λ t. str_eq t.slug slug) db.tenants)
  raise_if (is_some existing_tenant) (app_exception 409 tenant_slug_conflict)
  ok (name, slug)

abbrev pub new_tenant : Env → String → String → Tenant
new_tenant env name slug = record {
  id = env.uuid4 0;
  name = name;
  slug = slug;
  plan = "starter";
  is_active = true;
  created_at = env.now;
}

abbrev pub new_user : Library → Env → ℕ → Uuid → RegisterRequest → User
new_user library env k tenant_id request = record {
  id = env.uuid4 k;
  tenant_id = tenant_id;
  email = request.email;
  name = request.name;
  hashed_password = library.hash env.salt request.password;
  role = request.role;
  is_active = true;
  email_verified_at = none;
  created_at = env.now;
}

unfoldable pub add_user : User → Database → Result (User × Database)
add_user user db = do
  users ← insert same_email user db.users
  ok (user, record db { users = users })

-- Both rows of a registration without a user
unfoldable pub add_bootstrap :
    Library → Env → RegisterRequest → String × String → Database → Result (User × Database)
unfolding add_user
add_bootstrap library env request (name, slug) db = do
  tenants ← insert same_slug (new_tenant env name slug) db.tenants
  add_user (new_user library env 1 (env.uuid4 0) request) (record db { tenants = tenants })

-- The loop over the active tokens of a user
unfoldable pub consume : Time → Uuid → List OneTimeToken → List OneTimeToken
consume now user_id [] = []
consume now user_id (t ∷ ts) =
    (if t.user_id == user_id && is_none t.consumed_at
      then record t { consumed_at = some now }
      else t)
    ∷ consume now user_id ts

-- A token of the user that replaces his active ones; only its hash is stored.
unfoldable pub renew_token :
    Library → Env → ℕ → User → ℕ → List OneTimeToken → Result (List OneTimeToken)
renew_token library env k user seconds tokens =
    insert same_hash
      (record {
        id = env.uuid4 k;
        tenant_id = user.tenant_id;
        user_id = user.id;
        token_hash = library.sha256 (env.token_urlsafe);
        expires_at = env.now + seconds;
        consumed_at = none;
        created_at = env.now;
      })
      (consume env.now user.id tokens)

unfoldable pub add_verification_token :
    Library → Settings → Env → ℕ → User → Database → Result (String × Database)
unfolding renew_token
add_verification_token library settings env k user db = do
  tokens ←
      renew_token library env k user (3600 * settings.email_verification_token_expire_hours)
        db.email_verification_tokens
  ok (env.token_urlsafe, record db { email_verification_tokens = tokens })

unfoldable pub add_reset_token :
    Library → Settings → Env → ℕ → User → Database → Result (String × Database)
unfolding renew_token
add_reset_token library settings env k user db = do
  tokens ←
      renew_token library env k user (60 * settings.password_reset_token_expire_minutes)
        db.password_reset_tokens
  ok (env.token_urlsafe, record db { password_reset_tokens = tokens })

-- ===== src/Auth/Checks.antt =====
-- The checks of app/services/auth_service.py that read only, and the tokens of app/core/security.py.
use backend_project.Prelude.{
  ℕ, ◌+◌, ◌*◌, String, Time, Bool, true, not, ◌==◌, str_eq, Option, none, some,
}
use backend_project.Errors.{
  Result, ok, raise_if, ◌>>=◌, ◌>>◌, app_exception, failure, invalid_credentials, tenant_inactive,
  invalid_token, unauthorized,
}
use backend_project.Models.{Database, User}
use backend_project.Table.{select, one_or_none, or_raise}
use backend_project.Access.{Claims, is_user}
use backend_project.Auth.Library.{Library, Settings, verify_password}

pub record LoginRequest : Type 0 where
  pub email : String
  pub password : String

-- `_build_token`: the claims that are encoded
abbrev pub claims_of : Library → User → String → Time → Option String → Claims
claims_of library user typ exp jti = record {
  typ = typ;
  sub = library.show_uuid user.id;
  tenant_id = library.show_uuid user.tenant_id;
  role = some user.role;
  jti = jti;
  exp = exp;
}

abbrev pub access_token_expire_seconds : Settings → ℕ
access_token_expire_seconds settings = 60 * settings.access_token_expire_minutes

abbrev pub refresh_token_expire_seconds : Settings → ℕ
refresh_token_expire_seconds settings = 86400 * settings.refresh_token_expire_days

abbrev pub create_access_token : Library → Settings → Time → User → String
create_access_token library settings now user =
    library.encode_access
      (claims_of library user "access" (now + access_token_expire_seconds settings) none)

abbrev pub create_refresh_token : Library → Settings → Time → User → String → String
create_refresh_token library settings now user jti =
    library.encode_refresh
      (claims_of library user "refresh" (now + refresh_token_expire_seconds settings) (some jti))

-- The checks of `login_user`
unfoldable pub authenticate : Library → LoginRequest → Database → Result User
authenticate library request db = do
  found ← one_or_none (select (λ u. str_eq u.email request.email) db.users)
  user ← or_raise (app_exception 401 invalid_credentials) found
  raise_if (not user.is_active) (app_exception 401 invalid_credentials)
  matched ← verify_password library request.password user.hashed_password
  raise_if (not matched) (app_exception 401 invalid_credentials)
  home ← one_or_none (select (λ t. t.id == user.tenant_id) db.tenants)
  tenant ← or_raise (app_exception 401 tenant_inactive) home
  raise_if (not tenant.is_active) (app_exception 401 tenant_inactive)
  ok user

-- `decode_token(…, token_type="refresh")`, and that it is a refresh token
unfoldable pub refresh_claims : Library → Time → String → Result Claims
refresh_claims library now token = do
  claims ← or_raise (app_exception 401 invalid_token) (library.decode_refresh now token)
  raise_if (not (str_eq claims.typ "refresh")) (app_exception 401 invalid_token)
  ok claims

-- The active user that the claims of a refresh token name
unfoldable pub claimed_user : Library → Claims → Database → Result User
claimed_user library claims db = do
  user_id ← or_raise failure (library.parse_uuid claims.sub)
  tenant_id ← or_raise failure (library.parse_uuid claims.tenant_id)
  found ← one_or_none (select (is_user user_id tenant_id) db.users)
  or_raise (app_exception 401 unauthorized) found

-- A missing `jti` is None, which the key spells out and `not` finds empty.
abbrev pub jti_text : Option String → String
jti_text none = "None"
jti_text (some jti) = jti

abbrev pub no_jti : Option String → Bool
no_jti none = true
no_jti (some jti) = str_eq jti ""

-- ===== src/Access.antt =====
-- app/dependencies.py and app/core/rbac.py: whose request it is, and what the role allows. The token
-- library (`jose`) and `uuid.UUID` are an argument.
mod Tests
use backend_project.Prelude.{
  ℕ, Uuid, String, Time, Bool, true, false, not, ◌&&◌, ◌||◌, ◌==◌, str_eq, Option, none, some, List,
  any, is_none, is_some, ◌≡◌, ◌∙◌, ap, sym, subst, refl, arith,
}
use backend_project.Errors.{
  Result, ok, raised, raise_if, ◌>>=◌, ◌>>◌, app_exception, failure, unauthorized, invalid_token,
  forbidden, email_not_verified,
}
use backend_project.Models.{Database, User}
use backend_project.Models.Enums.{UserRole, role_eq}
use backend_project.Table.{select, one_or_none, or_raise}
use backend_project.Table.Laws.{Has, one_or_none-Has}
use backend_project.Stock.Laws.{ok_path}
use backend_project.Transfers.Lookup.{>>=-eq-ok, or_raise-ok, raise_if-ok}

-- The payload of a token, as far as the code reads it; a missing claim is empty.
pub record Claims : Type 0 where
  pub typ : String
  pub sub : String
  pub tenant_id : String
  pub role : Option UserRole
  pub jti : Option String
  pub exp : Time

pub record TokenLibrary : Type 0 where
  -- `jwt.decode` with the secret key for access tokens, or `JWTError`
  pub decode : String → Option Claims
  pub parse_uuid : String → Option Uuid

unfoldable pub decode_token : TokenLibrary → String → Result Claims
decode_token library token = or_raise (app_exception 401 invalid_token) (library.decode token)

abbrev pub is_user : Uuid → Uuid → User → Bool
is_user user_id tenant_id u = u.id == user_id && (u.tenant_id == tenant_id && u.is_active)

-- `_resolve_user_from_credentials`, where there are credentials
unfoldable pub token_user : TokenLibrary → String → Database → Result User
unfolding decode_token
token_user library token db = do
  claims ← decode_token library token
  raise_if (not (str_eq claims.typ "access")) (app_exception 401 invalid_token)
  raise_if (str_eq claims.sub "" || str_eq claims.tenant_id "") (app_exception 401 invalid_token)
  user_id ← or_raise failure (library.parse_uuid claims.sub)
  tenant_id ← or_raise failure (library.parse_uuid claims.tenant_id)
  found ← one_or_none (select (is_user user_id tenant_id) db.users)
  or_raise (app_exception 401 unauthorized) found

-- `get_current_user`
unfoldable pub get_current_user : TokenLibrary → Option String → Database → Result User
unfolding token_user
get_current_user library none db = raised (app_exception 401 unauthorized)
get_current_user library (some token) db = token_user library token db

-- `get_optional_current_user`
unfoldable pub get_optional_current_user :
    TokenLibrary → Option String → Database → Result (Option User)
get_optional_current_user library none db = ok none
get_optional_current_user library (some token) db = do
  user ← token_user library token db
  ok (some user)

-- The dependency that `require_roles` returns
unfoldable pub check_roles : List UserRole → User → Result User
check_roles roles user = do
  raise_if (is_none user.email_verified_at) (app_exception 403 email_not_verified)
  raise_if (not (any (λ role. role_eq user.role role) roles)) (app_exception 403 forbidden)
  ok user

unfoldable pub require_roles : TokenLibrary → List UserRole → Option String → Database → Result User
unfolding get_current_user check_roles
require_roles library roles credentials db = do
  user ← get_current_user library credentials db
  check_roles roles user

-- A stored, active and verified user with one of the roles.
pub record IsEntitled (roles : List UserRole) (db : Database) (u : User) : Type 0 where
  pub stored : Has u db.users
  pub active : u.is_active ≡ true
  pub verified : is_none u.email_verified_at ≡ false
  pub allowed : any (λ role. role_eq u.role role) roles ≡ true

-- The token names the user and the tenant, and is an access token.
pub record Names (library : TokenLibrary) (token : String) (u : User) : Type 0 where
  pub claims : Claims
  pub decoded : library.decode token ≡ some claims
  pub access : str_eq claims.typ "access" ≡ true
  pub user : library.parse_uuid claims.sub ≡ some u.id
  pub tenant : library.parse_uuid claims.tenant_id ≡ some u.tenant_id

is_user-fields :
    (user_id tenant_id : Uuid) (u : User)
    → is_user user_id tenant_id u ≡ true
    → (u.id ≡ user_id) × ((u.tenant_id ≡ tenant_id) × (u.is_active ≡ true))
is_user-fields user_id tenant_id u e = ground arith

not-false : (b : Bool) → not b ≡ false → b ≡ true
not-false b e = ground arith

token_user-Names :
    (library : TokenLibrary) (token : String) (db : Database) (u : User)
    → token_user library token db ≡ ok u
    → Names library token u × (Has u db.users × (u.is_active ≡ true))
unfolding token_user decode_token
token_user-Names library token db u e =
    let (claims, p, e1) = >>=-eq-ok _ _ u e in
    let (_, q, e2) = >>=-eq-ok _ _ u e1 in
    let (_, r, e3) = >>=-eq-ok _ _ u e2 in
    let (user_id, i, e4) = >>=-eq-ok _ _ u e3 in
    let (tenant_id, t, e5) = >>=-eq-ok _ _ u e4 in
    let (found, f, e6) = >>=-eq-ok _ _ u e5 in
    let (listed, here) =
      one_or_none-Has (is_user user_id tenant_id) u db.users
        (f ∙ ap ok (or_raise-ok _ found u e6)) in
    let (same, (own, active)) = is_user-fields user_id tenant_id u here in
    (
      record {
        claims = claims;
        decoded = or_raise-ok _ _ claims p;
        access = not-false _ (raise_if-ok _ _ _ q);
        user = or_raise-ok _ _ user_id i ∙ ap some (sym same);
        tenant = or_raise-ok _ _ tenant_id t ∙ ap some (sym own);
      },
      (listed, active),
    )

-- Where a route that requires roles lets a request with a token pass as a user, the token is an
-- access token with the id and the tenant of this user, who is stored, active, verified and has one
-- of the roles.
pub require_roles-IsEntitled :
    (library : TokenLibrary) (roles : List UserRole) (token : String) (db : Database) (u : User)
    → require_roles library roles (some token) db ≡ ok u
    → Names library token u × IsEntitled roles db u
unfolding require_roles get_current_user check_roles
require_roles-IsEntitled library roles token db u e =
    let (user, p, e1) = >>=-eq-ok _ _ u e in
    let (_, q, e2) = >>=-eq-ok _ _ u e1 in
    let (_, r, e3) = >>=-eq-ok _ _ u e2 in
    let same : user ≡ u = ok_path e3 in
    subst (λ x. Names library token x × IsEntitled roles db x) same
      (let (names, (listed, active)) = token_user-Names library token db user p in
        (
          names,
          record {
            stored = listed;
            active = active;
            verified = raise_if-ok _ _ _ q;
            allowed = not-false _ (raise_if-ok _ _ _ r);
          },
        ))

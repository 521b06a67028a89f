-- ===== src/Auth/Tokens.antt =====
-- `login_user`, `refresh_access_token` and `logout_user`: the sessions in Redis.
use backend_project.Prelude.{ℕ, String, Time, not, ◌||◌, str_eq, Option, is_none, is_some}
use backend_project.Errors.{ok, raise_if, app_exception, refresh_token_revoked, forbidden}
use backend_project.Models.{Database, User}
use backend_project.Session.{Env}
use backend_project.Redis.{
  Redis, RedisExec, RefreshSession, get, forget, setex, lift, command, ◌>>=◌, ◌>>◌,
}
use backend_project.Redis.Laws.{string_key}
use backend_project.Auth.Library.{Library, Settings}
use backend_project.Auth.Checks.{
  LoginRequest, authenticate, refresh_claims, claimed_user, jti_text, no_jti, create_access_token,
  create_refresh_token, access_token_expire_seconds, refresh_token_expire_seconds,
}

pub record TokenResponse : Type 0 where
  pub access_token : String
  pub refresh_token : String
  pub expires_in : ℕ

-- `serialize_refresh_session`
abbrev pub serialize_refresh_session : User → RefreshSession
serialize_refresh_session user = record {
  user_id = user.id;
  tenant_id = user.tenant_id;
  role = user.role;
}

abbrev pub find_session : Time → String → Redis → Option RefreshSession
find_session now jti r = get now jti r.refresh_sessions

abbrev pub set_session : Time → String → ℕ → RefreshSession → Redis → Redis
set_session now jti seconds session r = record r {
  refresh_sessions = setex now jti seconds session r.refresh_sessions;
}

abbrev pub delete_session : String → Redis → Redis
delete_session jti r = record r { refresh_sessions = forget jti r.refresh_sessions }

module _ (library : Library) (settings : Settings) (env : Env) where
  -- Both tokens of a user; the id drawn is the `jti`.
  unfoldable pub issue : User → RedisExec TokenResponse
  issue user = do
    let jti = library.show_uuid (env.uuid4 0)
    command (λ r. (
      tt,
      set_session env.now jti (refresh_token_expire_seconds settings)
          (serialize_refresh_session user) r,
    ))
    lift (
        ok (record {
          access_token = create_access_token library settings env.now user;
          refresh_token = create_refresh_token library settings env.now user jti;
          expires_in = access_token_expire_seconds settings;
        }))

  unfoldable pub login_user : LoginRequest → Database → RedisExec TokenResponse
  unfolding issue
  login_user request db = do user ← lift (authenticate library request db); issue user

  -- `refresh_access_token` up to its first write
  unfoldable pub check_refresh : String → Database → RedisExec (User × String)
  check_refresh token db = do
    claims ← lift (refresh_claims library env.now token)
    stored ← command (λ r. (find_session env.now (jti_text claims.jti) r, r))
    lift (raise_if (no_jti claims.jti || is_none stored) (app_exception 401 refresh_token_revoked))
    user ← lift (claimed_user library claims db)
    lift (ok (user, jti_text claims.jti))

  -- … and from there on
  unfoldable pub rotate_refresh : User → String → RedisExec TokenResponse
  unfolding issue
  rotate_refresh user jti = do command (λ r. (tt, delete_session jti r)); issue user

  unfoldable pub refresh_access_token : String → Database → RedisExec TokenResponse
  unfolding check_refresh rotate_refresh
  refresh_access_token token db = do (user, jti) ← check_refresh token db; rotate_refresh user jti

  -- `redis.delete` answers how many keys it has deleted.
  unfoldable pub logout_user : String → User → RedisExec (Unit {0})
  logout_user token current_user = do
    claims ← lift (refresh_claims library env.now token)
    lift (
        raise_if (not (str_eq claims.sub (library.show_uuid current_user.id)))
          (app_exception 403 forbidden))
    deleted ← command (λ r. (
      is_some (find_session env.now (jti_text claims.jti) r),
      delete_session (jti_text claims.jti) r,
    ))
    lift (raise_if (not deleted) (app_exception 401 refresh_token_revoked))

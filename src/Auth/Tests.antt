-- ===== src/Auth/Tests.antt =====
-- Sessions of the sample shop's administrator, run on the code.
use backend_project.Prelude.{
  ◌≡◌, ◌≢◌, ◌∙◌, sym, ap, refl, String, ℕ, ◌+◌, arith, some, [], ◌∷◌, true, inl,
}
use backend_project.Errors
use backend_project.Errors.{ErrorCode, Result, ok, raised, app_exception, refresh_token_revoked}
use backend_project.Models.{Database, Tenant, User}
use backend_project.Table.{select}
use backend_project.Session.{Env}
use backend_project.Redis.{Redis, ◌>>=◌}
use backend_project.Samples.{calm, shop, admin}
use backend_project.Access.{Claims, get_current_user}
use backend_project.Auth.Library.{access_library}
use backend_project.Auth.Checks.{
  LoginRequest, authenticate, claims_of, create_access_token, create_refresh_token,
}
use backend_project.Auth.Tokens.{
  TokenResponse, set_session, delete_session, rotate_refresh, find_session,
  serialize_refresh_session, check_refresh, login_user, issue, refresh_access_token,
}
use backend_project.Auth.Samples.{plain, plain-IsFaithful, settings}
use backend_project.Auth.RoundTrip.{login_user-tokens, refresh_token-read}
use backend_project.Auth.SingleUse.{Call, login, serve_tokens, refresh-single_use}
use backend_project.Redis.Laws.{get-setex, string_key}
use backend_project.Stock.Laws.{some_path}

abbrev pub company : Tenant
company = record {
  id = 1;
  name = "Shop";
  slug = "shop";
  plan = "free";
  is_active = true;
  created_at = 1;
}

abbrev open_shop : Database
open_shop = record shop { tenants = company ∷ [] }

abbrev credentials : LoginRequest
credentials = record { email = "admin@shop.kz"; password = "hash" }

abbrev nothing_kept : Redis
nothing_kept = record { refresh_sessions = []; reservations = []; counters = [] }

authenticated : authenticate plain credentials open_shop ≡ ok admin
unfolding authenticate plain select Errors.◌>>=◌
authenticated = refl

abbrev tokens : Env → TokenResponse
tokens env = record {
  access_token = create_access_token plain settings env.now admin;
  refresh_token = create_refresh_token plain settings env.now admin (plain.show_uuid (env.uuid4 0));
  expires_in = 1800;
}

abbrev with_session : Env → Redis → Redis
with_session env r =
    set_session env.now (plain.show_uuid (env.uuid4 0)) 604800 (serialize_refresh_session admin) r

abbrev one_session : Redis
one_session = with_session calm nothing_kept

logged_in :
    login_user plain settings calm credentials open_shop nothing_kept
    ≡ (ok (tokens calm), one_session)
unfolding login_user issue ◌>>=◌
logged_in = rw authenticated refl

-- A minute later, with new random numbers.
abbrev later : Env
later = record calm { now = 160; uuid4 = λ k. 5 + k }

login_user-tokens_example :
    (user : User) × ((authenticate plain credentials open_shop ≡ ok user)
      × ((get_current_user (access_library plain 160) (some (tokens calm).access_token) open_shop
            ≡ ok user)
          × ((fresh : TokenResponse) × ((t : Redis) × (refresh_access_token plain settings later
                    (tokens calm).refresh_token
                    open_shop
                    one_session
                  ≡ (ok fresh, t))))))
login_user-tokens_example =
    login_user-tokens plain settings calm later credentials open_shop (tokens calm) nothing_kept
      one_session plain-IsFaithful (tt, tt) (omega arith) (omega arith) logged_in

abbrev first_jti : String
first_jti = plain.show_uuid 1000

abbrev first_claims : Claims
first_claims = claims_of plain admin "refresh" 604900 (some first_jti)

first_decoded : plain.decode_refresh 160 (tokens calm).refresh_token ≡ some first_claims
first_decoded = plain-IsFaithful.refresh_back first_claims 160 (omega arith)

kept : find_session 160 first_jti one_session ≡ some (serialize_refresh_session admin)
kept = get-setex 100 160 first_jti 604800 (serialize_refresh_session admin) [] (omega arith)

both_checked :
    check_refresh plain settings later (tokens calm).refresh_token open_shop one_session
    ≡ (ok (admin, first_jti), one_session)
both_checked =
    refresh_token-read plain plain-IsFaithful settings 100 later 1000 open_shop admin one_session
      (tt, tt) (inl refl) refl (omega arith) kept

abbrev next_session : Redis
next_session = with_session later (delete_session first_jti one_session)

refreshed :
    refresh_access_token plain settings later (tokens calm).refresh_token open_shop one_session
    ≡ (ok (tokens later), next_session)
unfolding refresh_access_token rotate_refresh issue ◌>>=◌
refreshed = rw both_checked refl

-- Two requests with one refresh token, each of which has passed its checks before the other writes:
-- both get tokens.
raced :
    (env : Env)
    → rotate_refresh plain settings env admin first_jti next_session
      ≡ (ok (tokens env), with_session env (delete_session first_jti next_session))
unfolding rotate_refresh issue ◌>>=◌
raced env = refl

apart : (a b : ℕ) → a ≢ b → plain.show_uuid a ≢ plain.show_uuid b
apart a b h e = h (
    some_path
      (sym (plain-IsFaithful.uuid_back a) ∙ ap plain.parse_uuid e ∙ plain-IsFaithful.uuid_back b))

-- The same administrator logs in again.
abbrev another_login : Call
another_login = record {
  env = record calm { now = 170; uuid4 = λ k. 7 + k };
  db = open_shop;
  operation = login credentials;
}

refresh-single_use_example :
    (code : ErrorCode) × (refresh_access_token plain settings later
        (tokens calm).refresh_token
        open_shop
        (serve_tokens plain settings (another_login ∷ []) next_session)
      ≡ (
        raised (app_exception 401 code),
        serve_tokens plain settings (another_login ∷ []) next_session,
      ))
refresh-single_use_example =
    refresh-single_use plain settings later later (tokens calm).refresh_token first_jti admin
      open_shop open_shop first_claims (tokens later) one_session next_session (another_login ∷ [])
      plain-IsFaithful first_decoded refl (apart 5 1000 (λ e. omega (arith, e)))
      (apart 7 1000 (λ e. omega (arith, e)), tt) (inl refreshed)

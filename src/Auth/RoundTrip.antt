-- ===== src/Auth/RoundTrip.antt =====
-- What a login answers can be used: the access token names the user, the refresh token is accepted.
use backend_project.Prelude.{
  ◌+◌, ◌<◌, Uuid, String, Time, Bool, true, false, not, ◌≡◌, ◌∙◌, sym, refl, ap, subst, none, some,
  arith, ==-refl,
}
use backend_project.Errors
use backend_project.Errors.{Result, ok}
use backend_project.Stock.Laws.{ok_path}
use backend_project.Models.{Database, User, user_row}
use backend_project.Table.{select, one_or_none}
use backend_project.Table.Laws.{UniqueKeys, Has, one_or_none-Has}
use backend_project.Table.Unique.{select_unique}
use backend_project.Session.{Env}
use backend_project.Redis.{Redis, ◌>>=◌}
use backend_project.Redis.Effects.{bind-ok, lift-ok}
use backend_project.Redis.Laws.{string_key, get-setex}
use backend_project.Access.{is_user, token_user, decode_token, get_current_user}
use backend_project.Transfers.Lookup.{>>=-eq-ok, or_raise-ok, raise_if-ok}
use backend_project.Auth.Library.{Library, Settings, IsFaithful, access_library}
use backend_project.Auth.Checks.{
  LoginRequest, authenticate, refresh_claims, claimed_user, claims_of, create_access_token,
  create_refresh_token, access_token_expire_seconds, refresh_token_expire_seconds,
}
use backend_project.Auth.Tokens.{
  TokenResponse, find_session, set_session, issue, login_user, check_refresh, rotate_refresh,
  refresh_access_token, serialize_refresh_session,
}

not-not : (b : Bool) → not b ≡ false → b ≡ true
not-not b e = ground arith

-- Who logs in is a stored and active user.
authenticate-Has :
    (library : Library) (request : LoginRequest) (db : Database) (user : User)
    → authenticate library request db ≡ ok user
    → Has user db.users × (user.is_active ≡ true)
unfolding authenticate
authenticate-Has library request db user e =
    let (found, p, e1) = >>=-eq-ok _ _ user e in
    let (u, q, e2) = >>=-eq-ok _ _ user e1 in
    let (_, a, e3) = >>=-eq-ok _ _ user e2 in
    let (_, _, e4) = >>=-eq-ok _ _ user e3 in
    let (_, _, e5) = >>=-eq-ok _ _ user e4 in
    let (_, _, e6) = >>=-eq-ok _ _ user e5 in
    let (_, _, e7) = >>=-eq-ok _ _ user e6 in
    let (_, _, e8) = >>=-eq-ok _ _ user e7 in
    let same : u ≡ user = ok_path e8 in
    let (listed, _) = one_or_none-Has _ u db.users (p ∙ ap ok (or_raise-ok _ found u q)) in
    subst (λ x. Has x db.users × (x.is_active ≡ true)) same
      (listed, not-not u.is_active (raise_if-ok _ _ _ a))

is_user_self : (u : User) → u.is_active ≡ true → is_user u.id u.tenant_id u ≡ true
is_user_self u a = rw (==-refl u.id) (rw (==-refl u.tenant_id) a)

is_user-id : (i t : Uuid) (u : User) → is_user i t u ≡ true → u.id ≡ i
is_user-id i t u e = ground arith

-- The query for a user by the claims of his token.
user_found :
    (db : Database) (u : User)
    → UniqueKeys db.users
    → Has u db.users
    → u.is_active ≡ true
    → one_or_none (select (is_user u.id u.tenant_id) db.users) ≡ ok (some u)
user_found db u keys m a = ap one_or_none (
    select_unique (is_user u.id u.tenant_id) u db.users keys m (is_user_self u a)
      (λ x. is_user-id u.id u.tenant_id x))

module _ (library : Library) (faithful : IsFaithful library) (settings : Settings) where
  access_token-read :
      (now later : Time) (db : Database) (u : User)
      → UniqueKeys db.users
      → Has u db.users
      → u.is_active ≡ true
      → later < now + access_token_expire_seconds settings
      → get_current_user
          (access_library library later)
          (some (create_access_token library settings now u))
          db
        ≡ ok u
  unfolding get_current_user token_user decode_token Errors.◌>>=◌
  access_token-read now later db u keys m a h =
      rw (faithful.access_back (claims_of library u "access" _ none) later h) (
        rw (faithful.uuid_shown u.id) (
          rw (faithful.uuid_shown u.tenant_id) (
            rw (faithful.uuid_back u.id)
              (rw (faithful.uuid_back u.tenant_id) (rw (user_found db u keys m a) refl)))))

  pub refresh_token-read :
      (now : Time) (later : Env) (jti_id : Uuid) (db : Database) (u : User) (r : Redis)
      → UniqueKeys db.users
      → Has u db.users
      → u.is_active ≡ true
      → later.now < now + refresh_token_expire_seconds settings
      → find_session later.now (library.show_uuid jti_id) r ≡ some (serialize_refresh_session u)
      → check_refresh library settings later
          (create_refresh_token library settings now u (library.show_uuid jti_id))
          db
          r
        ≡ (ok (u, library.show_uuid jti_id), r)
  unfolding check_refresh refresh_claims claimed_user Errors.◌>>=◌ ◌>>=◌
  refresh_token-read now later jti_id db u r keys m a h stored =
      rw
        (faithful.refresh_back (claims_of library u "refresh" _ (some (library.show_uuid jti_id)))
          later.now h)
        (rw stored (
          rw (faithful.uuid_shown jti_id) (
            rw (faithful.uuid_back u.id)
              (rw (faithful.uuid_back u.tenant_id) (rw (user_found db u keys m a) refl)))))

  rotate_refresh-ok :
      (later : Env) (u : User) (jti : String) (r : Redis)
      → (fresh : TokenResponse) × ((t : Redis) × (rotate_refresh library settings later u jti r
            ≡ (ok fresh, t)))
  unfolding rotate_refresh issue ◌>>=◌
  rotate_refresh-ok later u jti r = (_, (_, refl))

  -- A token that passes the checks is rotated.
  rotated :
      (later : Env) (token jti : String) (db : Database) (u : User) (r : Redis)
      → check_refresh library settings later token db r ≡ (ok (u, jti), r)
      → (fresh : TokenResponse) × ((t : Redis) × (refresh_access_token library settings later token
              db r
            ≡ (ok fresh, t)))
  unfolding refresh_access_token ◌>>=◌
  rotated later token jti db u r e = rw e (rotate_refresh-ok later u jti r)

  issued :
      (env : Env) (u : User) (response : TokenResponse) (r s : Redis)
      → issue library settings env u r ≡ (ok response, s)
      → (response.access_token ≡ create_access_token library settings env.now u)
        × ((response.refresh_token
              ≡ create_refresh_token library settings env.now u (library.show_uuid (env.uuid4 0)))
            × (set_session env.now
                  (library.show_uuid (env.uuid4 0))
                  (refresh_token_expire_seconds settings)
                  (serialize_refresh_session u)
                  r
                ≡ s))
  unfolding issue ◌>>=◌
  issued env u response r s e =
      let answer = ok_path (ap (λ p. p.0) e) in
      (
        sym (ap (λ (t : TokenResponse). t.access_token) answer),
        (sym (ap (λ (t : TokenResponse). t.refresh_token) answer), ap (λ p. p.1) e),
      )

-- Where a login returns, users have different ids, and the tokens that it answers have not expired,
-- the credentials are those of an active user, the access token makes a later request this user's,
-- and the refresh token can be exchanged for new tokens.
pub login_user-tokens :
    (library : Library) (settings : Settings) (env later : Env) (request : LoginRequest)
    (db : Database) (response : TokenResponse) (r s : Redis)
    → IsFaithful library
    → UniqueKeys db.users
    → later.now < env.now + access_token_expire_seconds settings
    → later.now < env.now + refresh_token_expire_seconds settings
    → login_user library settings env request db r ≡ (ok response, s)
    → (user : User) × ((authenticate library request db ≡ ok user)
        × ((get_current_user (access_library library later.now) (some response.access_token) db
              ≡ ok user)
            × ((fresh : TokenResponse) × ((t : Redis) × (refresh_access_token library settings later
                      response.refresh_token db s
                    ≡ (ok fresh, t))))))
unfolding login_user
login_user-tokens library settings env later request db response r s faithful keys short long e =
    let (user, (r1, (e1, f1))) = bind-ok _ _ r s response e in
    let (who, here) = lift-ok _ r r1 user e1 in
    let (listed, active) = authenticate-Has library request db user who in
    let (access, (token, kept)) = issued library faithful settings env user response r1 s f1 in
    let jti = library.show_uuid (env.uuid4 0) in
    let stored : find_session later.now jti s ≡ some (serialize_refresh_session user) =
      ap (find_session later.now jti) (sym kept)
      ∙ get-setex env.now later.now jti _ (serialize_refresh_session user) r1.refresh_sessions
          long in
    let checked =
      refresh_token-read library faithful settings env.now later (env.uuid4 0) db user s keys listed
        active long stored in
    (
      user,
      (
        who,
        (
          ap (λ t. get_current_user (access_library library later.now) (some t) db) access
              ∙ access_token-read library faithful settings env.now later.now db user keys listed
                  active short,
          subst
              (λ t.
                (fresh : TokenResponse) × ((q : Redis) × (refresh_access_token library settings
                      later t db s
                    ≡ (ok fresh, q))))
              (sym token) (rotated library faithful settings later _ jti db user s checked),
        ),
      ),
    )

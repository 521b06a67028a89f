-- ===== src/Auth/Sessions.antt =====
-- A refresh token is spent by its use: what `refresh_access_token` and `logout_user` leave in Redis.
use backend_project.Prelude.{
  String, Bool, false, ◌||◌, ◌≡◌, ◌≢◌, ap, subst, Option, none, some, is_none, arith,
}
use backend_project.Errors.{ok}
use backend_project.Models.{Database, User}
use backend_project.Session.{Env}
use backend_project.Redis.{Redis}
use backend_project.Redis.Effects.{
  bind-ok, lift-ok, Leaves, Leaves-lift, Leaves-command, Leaves-bind,
}
use backend_project.Redis.Laws.{string_key, same_ne, IsForgotten, forget-IsForgotten, forget_keeps}
use backend_project.Access.{Claims}
use backend_project.Stock.Laws.{ok_path}
use backend_project.Transfers.Lookup.{raise_if-ok}
use backend_project.Auth.Library.{Library, Settings}
use backend_project.Auth.Checks.{LoginRequest, refresh_claims, jti_text, no_jti}
use backend_project.Auth.Tokens.{
  TokenResponse, issue, login_user, check_refresh, rotate_refresh, refresh_access_token,
  logout_user,
}

-- No session has the `jti`, whatever the time.
abbrev pub IsRevoked : String → Redis → Type 0
IsRevoked jti r = IsForgotten jti r.refresh_sessions

not_given : (o : Option String) (b : Bool) → (no_jti o || b) ≡ false → no_jti o ≡ false
not_given none b e = cc
not_given (some j) b e = ground arith

module _ (library : Library) (settings : Settings) where
  -- Nothing brings a `jti` back but a new session that draws it.
  module _ (env : Env) (jti : String) (other : library.show_uuid (env.uuid4 0) ≢ jti) where
    Leaves-issue : (user : User) → Leaves (IsRevoked jti) (issue library settings env user)
    unfolding issue
    Leaves-issue user =
        Leaves-bind
          (Leaves-command _ (λ r h. (
            same_ne (library.show_uuid (env.uuid4 0)) jti other,
            forget_keeps (library.show_uuid (env.uuid4 0)) jti r.refresh_sessions h,
          )))
          (λ _. Leaves-lift _)

    pub Leaves-login_user :
        (request : LoginRequest) (db : Database)
        → Leaves (IsRevoked jti) (login_user library settings env request db)
    unfolding login_user
    Leaves-login_user request db = Leaves-bind (Leaves-lift _) Leaves-issue

    Leaves-rotate_refresh :
        (user : User) (old : String)
        → Leaves (IsRevoked jti) (rotate_refresh library settings env user old)
    unfolding rotate_refresh
    Leaves-rotate_refresh user old =
        Leaves-bind (Leaves-command _ (λ r h. forget_keeps old jti r.refresh_sessions h))
          (λ _. Leaves-issue user)

    Leaves-check_refresh :
        (token : String) (db : Database)
        → Leaves (IsRevoked jti) (check_refresh library settings env token db)
    unfolding check_refresh
    Leaves-check_refresh token db = Leaves-bind (Leaves-lift _) λ claims.
        Leaves-bind (Leaves-command _ (λ r h. h)) λ stored.
          Leaves-bind (Leaves-lift _) λ _. Leaves-bind (Leaves-lift _) λ user. Leaves-lift _

    pub Leaves-refresh_access_token :
        (token : String) (db : Database)
        → Leaves (IsRevoked jti) (refresh_access_token library settings env token db)
    unfolding refresh_access_token
    Leaves-refresh_access_token token db =
        Leaves-bind (Leaves-check_refresh token db) λ found. Leaves-rotate_refresh found.0 found.1

    pub Leaves-logout_user :
        (token : String) (user : User)
        → Leaves (IsRevoked jti) (logout_user library settings env token user)
    unfolding logout_user
    Leaves-logout_user token user = Leaves-bind (Leaves-lift _) λ claims.
        Leaves-bind (Leaves-lift _) λ _.
          Leaves-bind (Leaves-command _ (λ r h. forget_keeps _ jti r.refresh_sessions h))
            λ _. Leaves-lift _

  pub check_refresh-claims :
      (env : Env) (token : String) (db : Database) (r s : Redis) (user : User) (jti : String)
      → check_refresh library settings env token db r ≡ (ok (user, jti), s)
      → (claims : Claims) × ((refresh_claims library env.now token ≡ ok claims)
          × ((jti_text claims.jti ≡ jti) × (no_jti claims.jti ≡ false)))
  unfolding check_refresh
  check_refresh-claims env token db r s user jti e =
      let (claims, (r1, (e1, f1))) = bind-ok _ _ r s _ e in
      let (stored, (r2, (e2, f2))) = bind-ok _ _ r1 s _ f1 in
      let (_, (r3, (e3, f3))) = bind-ok _ _ r2 s _ f2 in
      let (found, (r4, (e4, f4))) = bind-ok _ _ r3 s _ f3 in
      (
        claims,
        (
          (lift-ok _ r r1 claims e1).0,
          (
            ap (λ p. p.1) (ok_path (lift-ok _ r4 s (user, jti) f4).0),
            not_given claims.jti (is_none stored) (raise_if-ok _ _ _ (lift-ok _ r2 r3 _ e3).0),
          ),
        ),
      )

  -- A rotation that returns has revoked the old session.
  pub rotate_refresh-revokes :
      (env : Env) (user : User) (jti : String) (response : TokenResponse) (r s : Redis)
      → library.show_uuid (env.uuid4 0) ≢ jti
      → rotate_refresh library settings env user jti r ≡ (ok response, s)
      → IsRevoked jti s
  unfolding rotate_refresh
  rotate_refresh-revokes env user jti response r s other e =
      let (_, (t, (e1, f1))) = bind-ok _ _ r s response e in
      subst (IsRevoked jti) (ap (λ p. p.1) f1) (
        (Leaves-issue env jti other user).after t
          (subst (IsRevoked jti) (ap (λ p. p.1) e1) (forget-IsForgotten jti r.refresh_sessions)))

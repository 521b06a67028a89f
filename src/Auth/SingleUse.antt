-- ===== src/Auth/SingleUse.antt =====
-- A refresh token works once, over any sequence of calls.
use backend_project.Prelude.{
  String, Time, ◌≡◌, ◌≢◌, ◌∙◌, sym, refl, ap, subst, ◌⊎◌, inl, inr, some, List, [], ◌∷◌,
  Option-cases, Bool-cases, str_eq,
}
use backend_project.Errors
use backend_project.Errors.{
  ErrorCode, Result, ok, raised, raise_if, app_exception, invalid_token, refresh_token_revoked,
}
use backend_project.Stock.Laws.{ok_path, some_path}
use backend_project.Models.{Database, User}
use backend_project.Session.{Env}
use backend_project.Redis.{Redis, ◌>>=◌}
use backend_project.Redis.Effects.{bind-ok, lift-ok}
use backend_project.Redis.Laws.{string_key, forget-IsForgotten, get-IsForgotten}
use backend_project.Access.{Claims}
use backend_project.Transfers.Lookup.{>>=-eq-ok, or_raise-ok}
use backend_project.Auth.Library.{Library, Settings, IsFaithful}
use backend_project.Auth.Checks.{LoginRequest, refresh_claims, jti_text}
use backend_project.Auth.Tokens.{
  TokenResponse, login_user, check_refresh, refresh_access_token, logout_user,
}
use backend_project.Auth.Sessions.{
  IsRevoked, check_refresh-claims, rotate_refresh-revokes, Leaves-login_user,
  Leaves-refresh_access_token, Leaves-logout_user,
}

pub data Operation : Type 0 where
  login : LoginRequest → Operation
  refresh : String → Operation
  logout : String → User → Operation

-- A call, with the database that it reads.
pub record Call : Type 0 where
  pub env : Env
  pub db : Database
  pub operation : Operation

module _ (library : Library) (settings : Settings) where
  abbrev pub perform : Env → Database → Operation → Redis → Redis
  perform env db (login request) r = (login_user library settings env request db r).1
  perform env db (refresh token) r = (refresh_access_token library settings env token db r).1
  perform env db (logout token user) r = (logout_user library settings env token user r).1

  unfoldable pub serve_tokens : List Call → Redis → Redis
  serve_tokens [] r = r
  serve_tokens (c ∷ cs) r = serve_tokens cs (perform c.env c.db c.operation r)

  -- No call draws the id again.
  abbrev pub AllDraw : (String → Type 0) → List Call → Type 0
  AllDraw P [] = Unit
  AllDraw P (c ∷ cs) = P (library.show_uuid (c.env.uuid4 0)) × AllDraw P cs

  serve_tokens-IsRevoked :
      (jti : String) (cs : List Call) (r : Redis)
      → AllDraw (λ drawn. drawn ≢ jti) cs
      → IsRevoked jti r
      → IsRevoked jti (serve_tokens cs r)
  unfolding serve_tokens
  serve_tokens-IsRevoked jti [] r other h = h
  serve_tokens-IsRevoked jti (c ∷ cs) r other h =
      serve_tokens-IsRevoked jti cs _ other.1 (by_operation c.operation)
    where
      by_operation : (o : Operation) → IsRevoked jti (perform c.env c.db o r)
      by_operation (login request) =
          (Leaves-login_user library settings c.env jti other.0 request c.db).after r h
      by_operation (refresh token) =
          (Leaves-refresh_access_token library settings c.env jti other.0 token c.db).after r h
      by_operation (logout token user) =
          (Leaves-logout_user library settings c.env jti other.0 token user).after r h

  refresh_claims-decoded :
      (now : Time) (token : String) (claims : Claims)
      → refresh_claims library now token ≡ ok claims
      → library.decode_refresh now token ≡ some claims
  unfolding refresh_claims
  refresh_claims-decoded now token claims e =
      let (found, p, e1) = >>=-eq-ok _ _ claims e in
      let (_, q, e2) = >>=-eq-ok _ _ claims e1 in or_raise-ok _ _ claims (p ∙ ap ok (ok_path e2))

  -- The token of a call that returned is the token of a revoked session.
  spent_refresh :
      (env : Env) (token jti : String) (db : Database) (claims : Claims) (response : TokenResponse)
      (r s : Redis)
      → library.decode_refresh env.now token ≡ some claims
      → claims.jti ≡ some jti
      → library.show_uuid (env.uuid4 0) ≢ jti
      → refresh_access_token library settings env token db r ≡ (ok response, s)
      → IsRevoked jti s
  unfolding refresh_access_token
  spent_refresh env token jti db claims response r s d named other e =
      let (found, (t, (e1, f1))) = bind-ok _ _ r s response e in
      let (seen, (decoded, (text, given))) =
        check_refresh-claims library settings env token db r t found.0 found.1 e1 in
      let same : seen ≡ claims =
        some_path (sym (refresh_claims-decoded env.now token seen decoded) ∙ d) in
      let key : found.1 ≡ jti =
        sym text ∙ ap (λ (c : Claims). jti_text c.jti) same ∙ ap jti_text named in
      subst (λ j. IsRevoked j s) key
        (rotate_refresh-revokes library settings env found.0 found.1 response t s
          (λ q. other (q ∙ key)) f1)

  spent_logout :
      (env : Env) (token jti : String) (user : User) (claims : Claims) (r s : Redis)
      → library.decode_refresh env.now token ≡ some claims
      → claims.jti ≡ some jti
      → logout_user library settings env token user r ≡ (ok tt, s)
      → IsRevoked jti s
  unfolding logout_user
  spent_logout env token jti user claims r s d named e =
      let (seen, (r1, (e1, f1))) = bind-ok _ _ r s tt e in
      let (_, (r2, (e2, f2))) = bind-ok _ _ r1 s tt f1 in
      let (_, (r3, (e3, f3))) = bind-ok _ _ r2 s tt f2 in
      let same : seen ≡ claims =
        some_path
          (sym (refresh_claims-decoded env.now token seen (lift-ok _ r r1 seen e1).0) ∙ d) in
      let key : jti_text seen.jti ≡ jti =
        ap (λ (c : Claims). jti_text c.jti) same ∙ ap jti_text named in
      subst (λ j. IsRevoked j s) key
        (subst (IsRevoked (jti_text seen.jti)) (ap (λ p. p.1) e3 ∙ (lift-ok _ r3 s tt f3).1)
          (forget-IsForgotten (jti_text seen.jti) r2.refresh_sessions))

  -- A revoked token is refused.
  refused :
      (env later : Env) (token jti : String) (db : Database) (claims : Claims) (r : Redis)
      → IsFaithful library
      → library.decode_refresh env.now token ≡ some claims
      → claims.jti ≡ some jti
      → IsRevoked jti r
      → (code : ErrorCode) × (refresh_access_token library settings later token db r
          ≡ (raised (app_exception 401 code), r))
  unfolding refresh_access_token check_refresh refresh_claims ◌>>=◌ Errors.◌>>=◌
  refused env later token jti db claims r faithful d named h =
      elim (Option-cases (library.decode_refresh later.now token)) [
        | inl q ↦ (invalid_token, rw q refl)
        | inr (c, q) ↦
            let again : library.decode_refresh later.now token ≡ some claims =
              q ∙ ap some (sym (faithful.refresh_stable claims c env.now later.now token d q)) in
            elim (Bool-cases (str_eq claims.typ "refresh")) [
              | inr t ↦ (invalid_token, rw again (rw t refl))
              | inl t ↦ (
                refresh_token_revoked,
                rw again (
                    rw t (
                      rw named (
                        rw (get-IsForgotten later.now jti r.refresh_sessions h)
                          (elim (Bool-cases (str_eq jti "")) [
                            | inl b ↦ rw b refl
                            | inr b ↦ rw b refl
                          ])))),
              )
            ]
      ]

-- A refresh token works once. After a call that has rotated it or logged it out, and whatever calls
-- are served then, if none of them draws the token's id again (nor did the rotation), a refresh with
-- this token is refused with 401 and changes nothing, at any time and for any database.
pub refresh-single_use :
    (library : Library) (settings : Settings) (env later : Env) (token jti : String) (user : User)
    (db db' : Database) (claims : Claims) (response : TokenResponse) (r s : Redis) (cs : List Call)
    → IsFaithful library
    → library.decode_refresh env.now token ≡ some claims
    → claims.jti ≡ some jti
    → library.show_uuid (env.uuid4 0) ≢ jti
    → AllDraw library settings (λ drawn. drawn ≢ jti) cs
    → (refresh_access_token library settings env token db r ≡ (ok response, s))
      ⊎ (logout_user library settings env token user r ≡ (ok tt, s))
    → (code : ErrorCode) × (refresh_access_token library settings later token db'
          (serve_tokens library settings cs s)
        ≡ (raised (app_exception 401 code), serve_tokens library settings cs s))
refresh-single_use library settings env later token jti user db db' claims response r s cs faithful
      d named other draws done =
    refused library settings env later token jti db' claims (serve_tokens library settings cs s)
      faithful d named (serve_tokens-IsRevoked library settings jti cs s draws (spent done))
  where
    spent :
        (refresh_access_token library settings env token db r ≡ (ok response, s))
          ⊎ (logout_user library settings env token user r ≡ (ok tt, s))
        → IsRevoked jti s
    spent (inl e) =
        spent_refresh library settings env token jti db claims response r s d named other e
    spent (inr e) = spent_logout library settings env token jti user claims r s d named e

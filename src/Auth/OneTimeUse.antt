-- ===== src/Auth/OneTimeUse.antt =====
-- `confirm_password_reset` spends its token for good.
use backend_project.Prelude.{
  All, String, Bool, true, false, str_eq_iff, ◌≡◌, ◌≢◌, refl, ap, subst, none, some, List,
}
use backend_project.Errors
use backend_project.Errors.{Result, Fault, ok, raised, app_exception, invalid_reset_token}
use backend_project.Stock.Laws.{ok_path}
use backend_project.Models.{Database, OneTimeToken, token_row, same_hash}
use backend_project.Table.Laws.{update-All, insert-All}
use backend_project.Transfers.Lookup.{>>=-eq-ok}
use backend_project.Session.{Env, Session, start, ◌>>=◌}
use backend_project.Session.Keeps.{Relies, Saves-bind}
use backend_project.Session.Returns.{read_bind-ok, then_raise-returns, commit_after-ok}
use backend_project.EmailJobs.Keeps.{IgnoresMail}
use backend_project.Auth.Library.{Library, Settings}
use backend_project.Auth.OneTime.{
  renew_token, add_user, add_bootstrap, add_verification_token, add_reset_token,
}
use backend_project.Auth.Spend.{
  find_token, is_expired, verify_by_email, verify_user, reset_password,
}
use backend_project.Auth.Accounts.{
  PasswordResetConfirmRequest, reset_or_expire, confirm_password_reset,
}
use backend_project.Auth.Services.{SavesAll}
use backend_project.Auth.History.{
  AccountOperation, register, verify, resend, ask_reset, debug, confirm_reset, IsFrom, AccountCall,
  serve_accounts, serve_accounts-keeps,
}
use backend_project.Auth.SpentTokens.{IsSpent, consume-IsSpent, spend-IsSpent, no_token}

abbrev pub ResetSpent : String → Database → Type 0
ResetSpent hash db = IsSpent hash db.password_reset_tokens

ResetSpent-mail : (hash : String) → IgnoresMail (ResetSpent hash)
ResetSpent-mail hash = record { any_mail = λ db jobs h. h }

module _ (library : Library) (settings : Settings) (env : Env) (hash : String)
    (other : library.sha256 env.token_urlsafe ≢ hash) where
  ResetSpent-saved : SavesAll library settings (λ _. Unit {0}) env (ResetSpent hash)
  unfolding add_bootstrap add_user add_verification_token add_reset_token verify_by_email
      verify_user reset_password renew_token
  ResetSpent-saved = record {
    owner = λ request home seen h e db p.
        Saves-bind (ResetSpent hash) _ _ λ tenants _. Saves-bind (ResetSpent hash) _ _ λ users _. p;
    staff = λ request actor seen a e db p. Saves-bind (ResetSpent hash) _ _ λ users _. p;
    verification_token = λ k user db p. Saves-bind (ResetSpent hash) _ _ λ tokens _. p;
    reset_token = λ k user db p. Saves-bind (ResetSpent hash) _ _ λ tokens e.
        insert-All _ same_hash _ _ tokens e
          (consume-IsSpent hash env.now user.id db.password_reset_tokens p)
          (λ q. absurd (other ((str_eq_iff _ _).0 q)));
    by_email = λ email db p. Saves-bind (ResetSpent hash) _ _ λ text _.
        Saves-bind (ResetSpent hash) _ _ λ found f. Saves-bind (ResetSpent hash) _ _ λ user u. p;
    expired_verification = λ token db p. p;
    verification = λ token db p. Saves-bind (ResetSpent hash) _ _ λ user e. p;
    expired_reset = λ token db p. update-All _ _ db.password_reset_tokens p (λ _. refl);
    reset = λ password token db p.
        Saves-bind (ResetSpent hash) _ _
          λ user e. update-All _ _ db.password_reset_tokens p (λ _. refl);
  }

-- A reset that returns has found the only unused token of the hash, and has committed its change.
pub confirm_password_reset-ok :
    (library : Library) (settings : Settings) (env : Env) (request : PasswordResetConfirmRequest)
    (db : Database) (s : Session)
    → confirm_password_reset library settings env request (start db) ≡ (ok tt, s)
    → (token : OneTimeToken) × ((find_token
            (app_exception 400 invalid_reset_token)
            (library.sha256 request.token)
            db.password_reset_tokens
          ≡ ok token)
        × (reset_password library env request.new_password token db ≡ ok (tt, s.committed)))
unfolding confirm_password_reset reset_or_expire
confirm_password_reset-ok library settings env request db s e =
    let (token, (found, rest)) = read_bind-ok _ _ (start db) s tt e in
    (token, (found, by_expiry token (is_expired env.now token) rest))
  where
    by_expiry :
        (token : OneTimeToken) (b : Bool)
        → reset_or_expire library settings env request token b (start db) ≡ (ok tt, s)
        → reset_password library env request.new_password token db ≡ ok (tt, s.committed)
    by_expiry token true q = absurd (then_raise-returns _ _ (start db) s tt q)
    by_expiry token false q = commit_after-ok env _ (start db) s tt q

reset_password-ResetSpent :
    (library : Library) (env : Env) (password : String) (token : OneTimeToken) (db db' : Database)
    (hash : String)
    → find_token (app_exception 400 invalid_reset_token) hash db.password_reset_tokens ≡ ok token
    → reset_password library env password token db ≡ ok (tt, db')
    → ResetSpent hash db'
unfolding reset_password
reset_password-ResetSpent library env password token db db' hash found e =
    let (user, _, q) = >>=-eq-ok _ _ (tt, db') e in
    subst (ResetSpent hash) (ap (λ p. p.1) (ok_path q))
      (spend-IsSpent hash token env.now _ db.password_reset_tokens found)

-- A spent token is refused.
refused_reset :
    (library : Library) (settings : Settings) (env : Env) (request : PasswordResetConfirmRequest)
    (db : Database)
    → ResetSpent (library.sha256 request.token) db
    → confirm_password_reset library settings env request (start db)
      ≡ (raised (app_exception 400 invalid_reset_token), start db)
unfolding confirm_password_reset find_token ◌>>=◌ Errors.◌>>=◌
refused_reset library settings env request db h =
    rw (no_token (library.sha256 request.token) db.password_reset_tokens h) refl

pub IsFrom-anyone : (o : AccountOperation) → IsFrom (λ _. Unit {0}) o
IsFrom-anyone (register request none) = tt
IsFrom-anyone (register request (some actor)) = tt
IsFrom-anyone (verify token email) = tt
IsFrom-anyone (resend email) = tt
IsFrom-anyone (ask_reset email) = tt
IsFrom-anyone (debug email secret) = tt
IsFrom-anyone (confirm_reset request) = tt

-- A password reset that returns has spent its token: whatever account calls are served then, if no
-- call draws a token with the same hash, and what other sessions commit has no unused token of that
-- hash, a later reset with this token, whatever the password, is refused with 400 and changes nothing.
pub confirm_password_reset-single_use :
    (library : Library) (settings : Settings) (env later : Env) (token password again : String)
    (db : Database) (s : Session) (cs : List AccountCall)
    → confirm_password_reset library settings env
        (record { token = token; new_password = password })
        (start db)
      ≡ (ok tt, s)
    → All
        (λ c.
          Relies c.env (ResetSpent (library.sha256 token))
          × (library.sha256 c.env.token_urlsafe ≢ library.sha256 token))
        cs
    → confirm_password_reset library settings later
        (record { token = token; new_password = again })
        (start (serve_accounts library settings cs s.committed))
      ≡ (
        raised (app_exception 400 invalid_reset_token),
        start (serve_accounts library settings cs s.committed),
      )
confirm_password_reset-single_use library settings env later token password again db s cs e h =
    let (row, (found, saved)) = confirm_password_reset-ok library settings env _ db s e in
    let hash = library.sha256 token in
    refused_reset library settings later _ _ (
      serve_accounts-keeps library settings (λ _. Unit {0}) (ResetSpent-mail hash)
        (λ c. Relies c.env (ResetSpent hash) × (library.sha256 c.env.token_urlsafe ≢ hash))
        (λ c q.
          (q.0, (ResetSpent-saved library settings c.env hash q.1, IsFrom-anyone c.operation)))
        cs s.committed h
        (reset_password-ResetSpent library env password row db s.committed hash found saved))

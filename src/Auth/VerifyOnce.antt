-- ===== src/Auth/VerifyOnce.antt =====
-- `verify_email` spends its token for good.
use backend_project.Prelude.{
  All, String, Bool, true, false, str_eq_iff, ◌≡◌, ◌≢◌, refl, sym, ap, subst, ◌∙◌, Option, List,
}
use backend_project.Errors
use backend_project.Errors.{Result, Fault, ok, raised, app_exception, invalid_verification_token}
use backend_project.Stock.Laws.{ok_path}
use backend_project.Models.{Database, OneTimeToken, token_row, same_hash}
use backend_project.Table.Laws.{update-All, insert-All}
use backend_project.Transfers.Lookup.{>>=-eq-ok}
use backend_project.Session.{Env, Session, start, ◌>>=◌}
use backend_project.Session.Keeps.{Relies, Saves-bind}
use backend_project.Session.Returns.{read_bind-ok, then_raise-returns, commit_after-ok}
use backend_project.EmailJobs.Keeps.{IgnoresMail}
use backend_project.Auth.Library.{Library, Settings}
use backend_project.Auth.OneTime.{
  renew_token, add_user, add_bootstrap, add_verification_token, add_reset_token,
}
use backend_project.Auth.Spend.{
  find_token, is_expired, matches_master_secret, verify_by_email, verify_user, reset_password,
}
use backend_project.Auth.Accounts.{verify_or_expire, verify_with, verify_email}
use backend_project.Auth.Services.{SavesAll}
use backend_project.Auth.History.{AccountCall, serve_accounts, serve_accounts-keeps}
use backend_project.Auth.SpentTokens.{IsSpent, consume-IsSpent, spend-IsSpent, no_token}
use backend_project.Auth.OneTimeUse.{IsFrom-anyone}

abbrev pub VerificationSpent : String → Database → Type 0
VerificationSpent hash db = IsSpent hash db.email_verification_tokens

VerificationSpent-mail : (hash : String) → IgnoresMail (VerificationSpent hash)
VerificationSpent-mail hash = record { any_mail = λ db jobs h. h }

module _ (library : Library) (settings : Settings) (env : Env) (hash : String)
    (other : library.sha256 env.token_urlsafe ≢ hash) where
  VerificationSpent-saved : SavesAll library settings (λ _. Unit {0}) env (VerificationSpent hash)
  unfolding add_bootstrap add_user add_verification_token add_reset_token verify_by_email
      verify_user reset_password renew_token
  VerificationSpent-saved = record {
    owner = λ request home seen h e db p.
        Saves-bind (VerificationSpent hash) _ _
          λ tenants _. Saves-bind (VerificationSpent hash) _ _ λ users _. p;
    staff = λ request actor seen a e db p. Saves-bind (VerificationSpent hash) _ _ λ users _. p;
    verification_token = λ k user db p. Saves-bind (VerificationSpent hash) _ _ λ tokens e.
        insert-All _ same_hash _ _ tokens e
          (consume-IsSpent hash env.now user.id db.email_verification_tokens p)
          (λ q. absurd (other ((str_eq_iff _ _).0 q)));
    reset_token = λ k user db p. Saves-bind (VerificationSpent hash) _ _ λ tokens _. p;
    by_email = λ email db p. Saves-bind (VerificationSpent hash) _ _ λ text _.
        Saves-bind (VerificationSpent hash) _ _ λ found f.
          Saves-bind (VerificationSpent hash) _ _
            λ user u. consume-IsSpent hash env.now user.id db.email_verification_tokens p;
    expired_verification = λ token db p. update-All _ _ db.email_verification_tokens p (λ _. refl);
    verification = λ token db p.
        Saves-bind (VerificationSpent hash) _ _
          λ user e. update-All _ _ db.email_verification_tokens p (λ _. refl);
    expired_reset = λ token db p. p;
    reset = λ password token db p. Saves-bind (VerificationSpent hash) _ _ λ user e. p;
  }

-- A verification that returns, without the master secret, has found the only unused token of the
-- hash, and has committed its change.
verify_email-ok :
    (library : Library) (settings : Settings) (env : Env) (token : String) (email : Option String)
    (db : Database) (s : Session)
    → matches_master_secret library settings token ≡ ok false
    → verify_email library settings env token email (start db) ≡ (ok tt, s)
    → (row : OneTimeToken) × ((find_token
            (app_exception 400 invalid_verification_token)
            (library.sha256 token)
            db.email_verification_tokens
          ≡ ok row)
        × (verify_user env row db ≡ ok (tt, s.committed)))
unfolding verify_email verify_with verify_or_expire
verify_email-ok library settings env token email db s secret e =
    let (master, (m, rest)) = read_bind-ok _ _ (start db) s tt e in
    by_secret master (sym (ok_path (sym secret ∙ m))) rest
  where
    by_expiry :
        (row : OneTimeToken) (b : Bool)
        → verify_or_expire library settings env row b (start db) ≡ (ok tt, s)
        → verify_user env row db ≡ ok (tt, s.committed)
    by_expiry row true q = absurd (then_raise-returns _ _ (start db) s tt q)
    by_expiry row false q = commit_after-ok env _ (start db) s tt q

    by_secret :
        (master : Bool)
        → master ≡ false
        → verify_with library settings env token email master (start db) ≡ (ok tt, s)
        → (row : OneTimeToken) × ((find_token
                (app_exception 400 invalid_verification_token)
                (library.sha256 token)
                db.email_verification_tokens
              ≡ ok row)
            × (verify_user env row db ≡ ok (tt, s.committed)))
    by_secret true m q = absurd cc
    by_secret false m q =
        let (row, (found, rest)) = read_bind-ok _ _ (start db) s tt q in
        (row, (found, by_expiry row (is_expired env.now row) rest))

verify_user-VerificationSpent :
    (env : Env) (row : OneTimeToken) (db db' : Database) (hash : String)
    → find_token (app_exception 400 invalid_verification_token) hash db.email_verification_tokens
      ≡ ok row
    → verify_user env row db ≡ ok (tt, db')
    → VerificationSpent hash db'
unfolding verify_user
verify_user-VerificationSpent env row db db' hash found e =
    let (user, _, q) = >>=-eq-ok _ _ (tt, db') e in
    subst (VerificationSpent hash) (ap (λ p. p.1) (ok_path q))
      (spend-IsSpent hash row env.now _ db.email_verification_tokens found)

-- A spent token is refused.
refused_verification :
    (library : Library) (settings : Settings) (env : Env) (token : String) (email : Option String)
    (db : Database)
    → matches_master_secret library settings token ≡ ok false
    → VerificationSpent (library.sha256 token) db
    → verify_email library settings env token email (start db)
      ≡ (raised (app_exception 400 invalid_verification_token), start db)
unfolding verify_email verify_with find_token ◌>>=◌ Errors.◌>>=◌
refused_verification library settings env token email db secret h =
    rw secret rw (no_token (library.sha256 token) db.email_verification_tokens h) refl

-- A verification that returns, for a token that is no master secret, has spent it: whatever account
-- calls are served then, if no call draws a token with the same hash, and what other sessions commit
-- has no unused token of that hash, a later verification with this token is refused with 400 and
-- changes nothing.
pub verify_email-single_use :
    (library : Library) (settings : Settings) (env later : Env) (token : String)
    (email again : Option String) (db : Database) (s : Session) (cs : List AccountCall)
    → matches_master_secret library settings token ≡ ok false
    → verify_email library settings env token email (start db) ≡ (ok tt, s)
    → All
        (λ (c : AccountCall).
          Relies c.env (VerificationSpent (library.sha256 token))
          × (library.sha256 c.env.token_urlsafe ≢ library.sha256 token))
        cs
    → verify_email library settings later token again
        (start (serve_accounts library settings cs s.committed))
      ≡ (
        raised (app_exception 400 invalid_verification_token),
        start (serve_accounts library settings cs s.committed),
      )
verify_email-single_use library settings env later token email again db s cs secret e h =
    let (row, (found, saved)) = verify_email-ok library settings env token email db s secret e in
    let hash = library.sha256 token in
    refused_verification library settings later token again _ secret (
      serve_accounts-keeps library settings (λ _. Unit {0}) (VerificationSpent-mail hash)
        (λ c. Relies c.env (VerificationSpent hash) × (library.sha256 c.env.token_urlsafe ≢ hash))
        (λ c q. (
          q.0,
          (VerificationSpent-saved library settings c.env hash q.1, IsFrom-anyone c.operation),
        ))
        cs s.committed h (verify_user-VerificationSpent env row db s.committed hash found saved))

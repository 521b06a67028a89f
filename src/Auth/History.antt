-- ===== src/Auth/History.antt =====
-- The account operations as a whole: a sequence of calls, each from a session of its own.
use backend_project.Prelude.{All, String, Option, List, [], ◌∷◌}
use backend_project.Models.{Database, User}
use backend_project.Session.{Env, start}
use backend_project.Session.Keeps.{Relies}
use backend_project.EmailJobs.Keeps.{IgnoresMail}
use backend_project.Auth.Library.{Library, Settings}
use backend_project.Auth.OneTime.{RegisterRequest}
use backend_project.Auth.Accounts.{
  PasswordResetConfirmRequest, register_user, verify_email, resend_verification_email,
  request_password_reset, fetch_debug_verification_token, confirm_password_reset,
}
use backend_project.Auth.Services.{
  SavesAll, From, Keeps-register_user, Keeps-verify_email, Keeps-resend_verification_email,
  Keeps-request_password_reset, Keeps-fetch_debug_verification_token, Keeps-confirm_password_reset,
}

pub data AccountOperation : Type 0 where
  register : RegisterRequest → Option User → AccountOperation
  verify : String → Option String → AccountOperation
  resend ask_reset : String → AccountOperation
  debug : String → String → AccountOperation
  confirm_reset : PasswordResetConfirmRequest → AccountOperation

pub record AccountCall : Type 0 where
  pub env : Env
  pub operation : AccountOperation

abbrev pub IsFrom : (User → Type 0) → AccountOperation → Type 0
IsFrom Actor (register request current_user) = From Actor current_user
IsFrom Actor _ = Unit

module _ (library : Library) (settings : Settings) where
  -- The database that a call leaves
  abbrev pub perform_account : Env → AccountOperation → Database → Database
  perform_account env (register request current_user) db =
      (register_user library settings env request current_user (start db)).1.committed
  perform_account env (verify token email) db =
      (verify_email library settings env token email (start db)).1.committed
  perform_account env (resend email) db =
      (resend_verification_email library settings env email (start db)).1.committed
  perform_account env (ask_reset email) db =
      (request_password_reset library settings env email (start db)).1.committed
  perform_account env (debug email secret) db =
      (fetch_debug_verification_token library settings env email secret (start db)).1.committed
  perform_account env (confirm_reset request) db =
      (confirm_password_reset library settings env request (start db)).1.committed

  unfoldable pub serve_accounts : List AccountCall → Database → Database
  serve_accounts [] db = db
  serve_accounts (c ∷ cs) db = serve_accounts cs (perform_account c.env c.operation db)

  module _ {P : Database → Type 0} (Actor : User → Type 0) (mail : IgnoresMail P) where
    pub perform_account-keeps :
        (env : Env) (o : AccountOperation) (db : Database)
        → Relies env P
        → SavesAll library settings Actor env P
        → IsFrom Actor o
        → P db
        → P (perform_account env o db)
    perform_account-keeps env o db rely saves from h = by_operation o from
      where
        by_operation : (o : AccountOperation) → IsFrom Actor o → P (perform_account env o db)
        by_operation (register request current_user) a =
            ((Keeps-register_user library settings env rely mail saves request current_user a).at
              (start db) (h, h)).0
        by_operation (verify token email) a =
            ((Keeps-verify_email library settings env rely mail saves token email).at (start db)
              (h, h)).0
        by_operation (resend email) a =
            ((Keeps-resend_verification_email library settings env rely mail saves email).at
              (start db) (h, h)).0
        by_operation (ask_reset email) a =
            ((Keeps-request_password_reset library settings env rely mail saves email).at (start db)
              (h, h)).0
        by_operation (debug email secret) a =
            ((Keeps-fetch_debug_verification_token library settings env rely mail saves email
                secret).at
              (start db) (h, h)).0
        by_operation (confirm_reset request) a =
            ((Keeps-confirm_password_reset library settings env rely mail saves request).at
              (start db) (h, h)).0

    -- If whatever holds of each call lets it keep `P`, all calls keep it.
    pub serve_accounts-keeps :
        (Q : AccountCall → Type 0)
        → ((c : AccountCall)
            → Q c
            → Relies c.env P × (SavesAll library settings Actor c.env P × IsFrom Actor c.operation))
        → (cs : List AccountCall) (db : Database) → All Q cs
        → P db
        → P (serve_accounts cs db)
    unfolding serve_accounts
    serve_accounts-keeps Q step [] db h p = p
    serve_accounts-keeps Q step (c ∷ cs) db h p =
        let (rely, (saves, from)) = step c h.0 in
        serve_accounts-keeps Q step cs _ h.1
          (perform_account-keeps c.env c.operation db rely saves from p)

-- ===== src/Auth/Services.antt =====
-- Each account operation keeps what its transactions save and mails ignore.
use backend_project.Prelude.{ℕ, String, Bool, true, false, ◌≡◌, Option, none, some, is_some}
use backend_project.Errors.{ok}
use backend_project.Models.{Database, User, OneTimeToken}
use backend_project.Session.{Env}
use backend_project.Session.Keeps.{
  Keeps, Relies, Saves, Keeps-read_ok, Keeps-read, Keeps-bind, Keeps-transaction,
  Keeps-commit_after, Keeps-on_conflict, Keeps-pure, Keeps-raise,
}
use backend_project.EmailJobs.Keeps.{
  IgnoresMail, Keeps-queue_verification_email, Keeps-queue_password_reset_email,
}
use backend_project.Auth.Library.{Library, Settings}
use backend_project.Auth.OneTime.{
  RegisterRequest, check_registration, check_bootstrap, new_user, add_user, add_bootstrap,
  add_verification_token, add_reset_token,
}
use backend_project.Auth.Spend.{
  is_expired, verify_by_email, expire_verification, verify_user, expire_reset, reset_password,
}
use backend_project.Auth.Accounts.{
  PasswordResetConfirmRequest, create_email_verification_token, create_password_reset_token,
  send_verification, register_owner, register_staff, register_as, register_user, verify_or_expire,
  verify_with, verify_email, resend_unless, resend_to, resend_verification_email, reset_for,
  request_password_reset, fetch_debug_verification_token, reset_or_expire, confirm_password_reset,
}

-- Each transaction saves `P`, if who registers others is as `Actor` says; those of a registration may
-- use what its checks have seen.
pub record SavesAll (library : Library) (settings : Settings) (Actor : User → Type 0) (env : Env)
    (P : Database → Type 0) : Type 0 where
  pub owner :
      (request : RegisterRequest) (home : String × String) (seen : Database)
      → P seen
      → check_bootstrap request seen ≡ ok home
      → (db : Database) → P db
      → Saves P (add_bootstrap library env request home db)
  pub staff :
      (request : RegisterRequest) (actor : User) (seen : Database)
      → Actor actor
      → check_registration request (some actor) seen ≡ ok tt
      → (db : Database) → P db
      → Saves P (add_user (new_user library env 0 actor.tenant_id request) db)
  pub verification_token :
      (k : ℕ) (user : User) (db : Database)
      → P db
      → Saves P (add_verification_token library settings env k user db)
  pub reset_token :
      (k : ℕ) (user : User) (db : Database)
      → P db
      → Saves P (add_reset_token library settings env k user db)
  pub by_email :
      (email : Option String) (db : Database) → P db → Saves P (verify_by_email env email db)
  pub expired_verification :
      (token : OneTimeToken) (db : Database) → P db → Saves P (expire_verification env token db)
  pub verification :
      (token : OneTimeToken) (db : Database) → P db → Saves P (verify_user env token db)
  pub expired_reset :
      (token : OneTimeToken) (db : Database) → P db → Saves P (expire_reset env token db)
  pub reset :
      (password : String) (token : OneTimeToken) (db : Database)
      → P db
      → Saves P (reset_password library env password token db)

-- The call comes without a user, or from a user as `Actor` says.
abbrev pub From : (User → Type 0) → Option User → Type 0
From Actor none = Unit
From Actor (some actor) = Actor actor

module _ (library : Library) (settings : Settings) {Actor : User → Type 0} (env : Env)
    {P : Database → Type 0} (rely : Relies env P) (mail : IgnoresMail P)
    (saves : SavesAll library settings Actor env P) where
  Keeps-send_verification :
      (k : ℕ) (user : User) → Keeps P (send_verification library settings env k user)
  unfolding send_verification create_email_verification_token
  Keeps-send_verification k user =
      Keeps-bind (Keeps-commit_after env rely _ (saves.verification_token k user)) λ token.
        Keeps-bind (Keeps-queue_verification_email env rely mail _ user token) λ _. Keeps-pure user

  Keeps-register_owner :
      (request : RegisterRequest) → Keeps P (register_owner library settings env request)
  unfolding register_owner
  Keeps-register_owner request = Keeps-read_ok _ _ λ seen home h e.
      Keeps-bind
        (Keeps-transaction env _ _ rely (saves.owner request home seen h e) (Keeps-on_conflict _))
        λ user. Keeps-send_verification 2 user

  Keeps-register_staff :
      (request : RegisterRequest) (actor : User) (seen : Database)
      → Actor actor
      → check_registration request (some actor) seen ≡ ok tt
      → Keeps P (register_staff library settings env request actor)
  unfolding register_staff
  Keeps-register_staff request actor seen a e = Keeps-bind (Keeps-read _) λ _.
      Keeps-bind
        (Keeps-transaction env _ _ rely (saves.staff request actor seen a e) (Keeps-on_conflict _))
        λ user. Keeps-send_verification 1 user

  pub Keeps-register_user :
      (request : RegisterRequest) (current_user : Option User)
      → From Actor current_user
      → Keeps P (register_user library settings env request current_user)
  unfolding register_user register_as
  Keeps-register_user request none a = Keeps-bind (Keeps-read _) λ _. Keeps-register_owner request
  Keeps-register_user request (some actor) a =
      Keeps-read_ok _ _ λ seen _ h e. Keeps-register_staff request actor seen a e

  Keeps-verify_or_expire :
      (token : OneTimeToken) (b : Bool) → Keeps P (verify_or_expire library settings env token b)
  unfolding verify_or_expire
  Keeps-verify_or_expire token true =
      Keeps-bind (Keeps-commit_after env rely _ (saves.expired_verification token))
        λ _. Keeps-raise _
  Keeps-verify_or_expire token false = Keeps-commit_after env rely _ (saves.verification token)

  Keeps-verify_with :
      (token : String) (email : Option String) (b : Bool)
      → Keeps P (verify_with library settings env token email b)
  unfolding verify_with
  Keeps-verify_with token email true = Keeps-commit_after env rely _ (saves.by_email email)
  Keeps-verify_with token email false =
      Keeps-bind (Keeps-read _) λ found. Keeps-verify_or_expire found (is_expired env.now found)

  pub Keeps-verify_email :
      (token : String) (email : Option String)
      → Keeps P (verify_email library settings env token email)
  unfolding verify_email
  Keeps-verify_email token email =
      Keeps-bind (Keeps-read _) λ master. Keeps-verify_with token email master

  Keeps-resend_unless :
      (user : User) (b : Bool) → Keeps P (resend_unless library settings env user b)
  Keeps-resend_unless user true = Keeps-pure tt
  Keeps-resend_unless user false = Keeps-bind (Keeps-send_verification 0 user) λ _. Keeps-pure tt

  Keeps-resend_to : (found : Option User) → Keeps P (resend_to library settings env found)
  Keeps-resend_to none = Keeps-pure tt
  Keeps-resend_to (some user) = Keeps-resend_unless user (is_some user.email_verified_at)

  pub Keeps-resend_verification_email :
      (email : String) → Keeps P (resend_verification_email library settings env email)
  unfolding resend_verification_email
  Keeps-resend_verification_email email = Keeps-bind (Keeps-read _) λ found. Keeps-resend_to found

  Keeps-reset_for : (found : Option User) → Keeps P (reset_for library settings env found)
  unfolding create_password_reset_token
  Keeps-reset_for none = Keeps-pure tt
  Keeps-reset_for (some user) =
      Keeps-bind (Keeps-commit_after env rely _ (saves.reset_token 0 user)) λ token.
        Keeps-bind (Keeps-queue_password_reset_email env rely mail 1 user token) λ _. Keeps-pure tt

  pub Keeps-request_password_reset :
      (email : String) → Keeps P (request_password_reset library settings env email)
  unfolding request_password_reset
  Keeps-request_password_reset email = Keeps-bind (Keeps-read _) λ found. Keeps-reset_for found

  pub Keeps-fetch_debug_verification_token :
      (email secret : String)
      → Keeps P (fetch_debug_verification_token library settings env email secret)
  unfolding fetch_debug_verification_token create_email_verification_token
  Keeps-fetch_debug_verification_token email secret = Keeps-bind (Keeps-read _) λ _.
      Keeps-bind (Keeps-read _) λ _. Keeps-bind (Keeps-read _) λ _.
        Keeps-bind (Keeps-read _) λ user.
          Keeps-bind (Keeps-read _)
            λ _. Keeps-commit_after env rely _ (saves.verification_token 0 user)

  Keeps-reset_or_expire :
      (request : PasswordResetConfirmRequest) (token : OneTimeToken) (b : Bool)
      → Keeps P (reset_or_expire library settings env request token b)
  unfolding reset_or_expire
  Keeps-reset_or_expire request token true =
      Keeps-bind (Keeps-commit_after env rely _ (saves.expired_reset token)) λ _. Keeps-raise _
  Keeps-reset_or_expire request token false =
      Keeps-commit_after env rely _ (saves.reset request.new_password token)

  pub Keeps-confirm_password_reset :
      (request : PasswordResetConfirmRequest)
      → Keeps P (confirm_password_reset library settings env request)
  unfolding confirm_password_reset
  Keeps-confirm_password_reset request =
      Keeps-bind (Keeps-read _)
        λ found. Keeps-reset_or_expire request found (is_expired env.now found)

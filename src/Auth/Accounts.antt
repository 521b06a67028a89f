-- ===== src/Auth/Accounts.antt =====
-- app/services/auth_service.py: registration, verifying an email and resetting a password.
use backend_project.Prelude.{
  ℕ, suc, String, Bool, true, false, not, ◌||◌, Option, none, some, is_some,
}
use backend_project.Errors.{
  raise_if, app_exception, forbidden, email_conflict, tenant_slug_conflict, user_not_found,
  already_verified, invalid_verification_token, verification_token_expired, invalid_reset_token,
  reset_token_expired,
}
use backend_project.Models.{User, OneTimeToken}
use backend_project.Models.Enums.{super_admin, tenant_admin, role_eq}
use backend_project.Table.{or_raise}
use backend_project.Session.{
  Env, Exec, pure, raise, read, transaction, commit_after, on_conflict, ◌>>=◌, ◌>>◌,
}
use backend_project.EmailJobs.{queue_verification_email, queue_password_reset_email}
use backend_project.Auth.Library.{Library, Settings}
use backend_project.Auth.OneTime.{
  RegisterRequest, check_registration, check_bootstrap, new_user, add_user, add_bootstrap,
  add_verification_token, add_reset_token,
}
use backend_project.Auth.Spend.{
  matches_master_secret, user_by_email, verify_by_email, find_token, is_expired,
  expire_verification, verify_user, expire_reset, reset_password,
}

pub record PasswordResetConfirmRequest : Type 0 where
  pub token : String
  pub new_password : String

module _ (library : Library) (settings : Settings) (env : Env) where
  -- `_create_email_verification_token`
  unfoldable pub create_email_verification_token : ℕ → User → Exec String
  create_email_verification_token k user =
      commit_after env (add_verification_token library settings env k user)

  -- `_create_password_reset_token`
  unfoldable pub create_password_reset_token : ℕ → User → Exec String
  create_password_reset_token k user =
      commit_after env (add_reset_token library settings env k user)

  -- A fresh token, and the mail with it
  unfoldable pub send_verification : ℕ → User → Exec User
  unfolding create_email_verification_token
  send_verification k user = do
    token ← create_email_verification_token k user
    queue_verification_email env (suc k) user token
    pure user

  unfoldable pub register_owner : RegisterRequest → Exec User
  unfolding send_verification
  register_owner request = do
    home ← read (check_bootstrap request)
    user ←
        transaction env (add_bootstrap library env request home)
          (on_conflict (app_exception 409 tenant_slug_conflict))
    send_verification 2 user

  unfoldable pub register_staff : RegisterRequest → User → Exec User
  unfolding send_verification
  register_staff request actor = do
    read (λ db.
        raise_if (not (role_eq actor.role tenant_admin || role_eq actor.role super_admin))
          (app_exception 403 forbidden))
    user ←
        transaction env (add_user (new_user library env 0 actor.tenant_id request))
          (on_conflict (app_exception 409 email_conflict))
    send_verification 1 user

  unfoldable pub register_as : RegisterRequest → Option User → Exec User
  unfolding register_owner register_staff
  register_as request none = register_owner request
  register_as request (some actor) = register_staff request actor

  unfoldable pub register_user : RegisterRequest → Option User → Exec User
  unfolding register_as
  register_user request current_user = do
    read (check_registration request current_user)
    register_as request current_user

  -- What comes of a token that was found
  unfoldable pub verify_or_expire : OneTimeToken → Bool → Exec (Unit {0})
  verify_or_expire token true = do
    commit_after env (expire_verification env token)
    raise (app_exception 400 verification_token_expired)
  verify_or_expire token false = commit_after env (verify_user env token)

  unfoldable pub verify_with : String → Option String → Bool → Exec (Unit {0})
  unfolding verify_or_expire
  verify_with token request_email true = commit_after env (verify_by_email env request_email)
  verify_with token request_email false = do
    found ← read (λ db.
        find_token (app_exception 400 invalid_verification_token) (library.sha256 token)
          db.email_verification_tokens)
    verify_or_expire found (is_expired env.now found)

  unfoldable pub verify_email : String → Option String → Exec (Unit {0})
  unfolding verify_with
  verify_email token request_email = do
    master ← read (λ db. matches_master_secret library settings token)
    verify_with token request_email master

  abbrev pub resend_unless : User → Bool → Exec (Unit {0})
  resend_unless user true = pure tt
  resend_unless user false = do send_verification 0 user; pure tt

  abbrev pub resend_to : Option User → Exec (Unit {0})
  resend_to none = pure tt
  resend_to (some user) = resend_unless user (is_some user.email_verified_at)

  unfoldable pub resend_verification_email : String → Exec (Unit {0})
  unfolding send_verification
  resend_verification_email request_email = do
    found ← read (user_by_email request_email)
    resend_to found

  abbrev pub reset_for : Option User → Exec (Unit {0})
  reset_for none = pure tt
  reset_for (some user) = do
    token ← create_password_reset_token 0 user
    queue_password_reset_email env 1 user token
    pure tt

  unfoldable pub request_password_reset : String → Exec (Unit {0})
  unfolding create_password_reset_token
  request_password_reset request_email = do
    found ← read (user_by_email request_email)
    reset_for found

  unfoldable pub fetch_debug_verification_token : String → String → Exec String
  unfolding create_email_verification_token
  fetch_debug_verification_token email admin_secret = do
    matched ← read (λ db. matches_master_secret library settings admin_secret)
    read (λ db. raise_if (not matched) (app_exception 403 forbidden))
    found ← read (user_by_email email)
    user ← read (λ db. or_raise (app_exception 404 user_not_found) found)
    read (λ db. raise_if (is_some user.email_verified_at) (app_exception 400 already_verified))
    create_email_verification_token 0 user

  unfoldable pub reset_or_expire :
      PasswordResetConfirmRequest → OneTimeToken → Bool → Exec (Unit {0})
  reset_or_expire request token true = do
    commit_after env (expire_reset env token)
    raise (app_exception 400 reset_token_expired)
  reset_or_expire request token false =
      commit_after env (reset_password library env request.new_password token)

  unfoldable pub confirm_password_reset : PasswordResetConfirmRequest → Exec (Unit {0})
  unfolding reset_or_expire
  confirm_password_reset request = do
    found ← read (λ db.
        find_token (app_exception 400 invalid_reset_token) (library.sha256 request.token)
          db.password_reset_tokens)
    reset_or_expire request found (is_expired env.now found)

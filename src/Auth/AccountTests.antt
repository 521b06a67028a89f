-- ===== src/Auth/AccountTests.antt =====
-- Accounts of the sample shop, run on the code.
use backend_project.Prelude.{false, ◌≡◌, ◌≢◌, ◌==◌, refl, ap, List, [], ◌∷◌, some, none, str_eq}
use backend_project.Errors
use backend_project.Errors.{
  ok, raised, app_exception, invalid_reset_token, invalid_verification_token,
}
use backend_project.Models.{Database, OneTimeToken}
use backend_project.Models.Enums.{super_admin, analyst}
use backend_project.Table.{select, one_or_none}
use backend_project.Session.{Session, start, commit_after, ◌>>=◌}
use backend_project.Samples.{calm, calm_relies, shop, admin}
use backend_project.Auth.Samples.{plain, plain-IsFaithful, settings}
use backend_project.Auth.Tests.{company}
use backend_project.Auth.Checks.{authenticate}
use backend_project.Auth.OneTime.{RegisterRequest}
use backend_project.Auth.Spend.{
  find_token, find_user, reset_password, with_password, matches_master_secret, verify_user,
}
use backend_project.Auth.Accounts.{
  reset_or_expire, confirm_password_reset, verify_or_expire, verify_with, verify_email,
}
use backend_project.Auth.History.{AccountCall, register, resend, ask_reset, serve_accounts}
use backend_project.Auth.Roles.{AllOrdinary, serve_accounts-AllOrdinary}
use backend_project.Auth.OneTimeUse.{ResetSpent, confirm_password_reset-single_use}
use backend_project.Auth.VerifyOnce.{VerificationSpent, verify_email-single_use}
use backend_project.Auth.ResetLogin.{reset_database, confirm_password_reset-login}

abbrev newcomer : RegisterRequest
newcomer = record {
  email = "root@evil.kz";
  password = "Passw0rd!";
  name = "Root";
  role = super_admin;
  tenant_name = some "Evil";
  tenant_slug = some "evil";
}

-- Super admins are asked for without a user and by a tenant's administrator, who then registers an analyst.
abbrev registrations : List AccountCall
registrations =
    record { env = calm; operation = register newcomer none }
    ∷ record { env = calm; operation = register newcomer (some admin) }
    ∷ record { env = calm; operation = register (record newcomer { role = analyst }) (some admin) }
    ∷ []

serve_accounts-AllOrdinary_example : AllOrdinary (serve_accounts plain settings registrations shop)
serve_accounts-AllOrdinary_example =
    serve_accounts-AllOrdinary plain settings registrations shop
      (
        (calm_relies AllOrdinary, tt),
        ((calm_relies AllOrdinary, refl), ((calm_relies AllOrdinary, refl), tt)),
      )
      (refl, (refl, tt))

abbrev reset_row : OneTimeToken
reset_row = record {
  id = 80;
  tenant_id = 1;
  user_id = 40;
  token_hash = "secret";
  expires_at = 200;
  consumed_at = none;
  created_at = 90;
}

abbrev asked : Database
asked = record shop { tenants = company ∷ []; password_reset_tokens = reset_row ∷ [] }

row_found :
    find_token
      (app_exception 400 invalid_reset_token)
      (plain.sha256 "secret")
      asked.password_reset_tokens
    ≡ ok reset_row
unfolding plain find_token select Errors.◌>>=◌
row_found = refl

admin_found : select (λ u. str_eq u.email admin.email) asked.users ≡ admin ∷ []
unfolding select
admin_found = refl

home_found : select (λ t. t.id == admin.tenant_id) asked.tenants ≡ company ∷ []
unfolding select
home_found = refl

confirm_password_reset-login_example :
    (s : Session) × ((confirm_password_reset plain settings calm
          (record { token = "secret"; new_password = "N3wPass!" })
          (start asked)
        ≡ (ok tt, s))
      × (authenticate plain (record { email = admin.email; password = "N3wPass!" }) s.committed
          ≡ ok (with_password plain calm "N3wPass!" admin)))
confirm_password_reset-login_example =
    confirm_password_reset-login plain settings calm "secret" "N3wPass!" reset_row admin company
      asked plain-IsFaithful (tt, tt) row_found refl refl admin_found (ap one_or_none home_found)
      refl (λ d. refl)

fresh_other : plain.sha256 "fresh" ≢ plain.sha256 "secret"
unfolding plain
fresh_other e = cc

abbrev after_reset : Session
after_reset =
    let d = reset_database plain calm "N3wPass!" reset_row admin asked in
    record (start asked) { committed = d; working = d }

reset_done :
    confirm_password_reset plain settings calm
      (record { token = "secret"; new_password = "N3wPass!" })
      (start asked)
    ≡ (ok tt, after_reset)
unfolding plain confirm_password_reset reset_or_expire reset_password find_token find_user select
    commit_after ◌>>=◌ Errors.◌>>=◌
reset_done = refl

confirm_password_reset-single_use_example :
    confirm_password_reset plain settings calm
      (record { token = "secret"; new_password = "An0ther!" })
      (start (
        serve_accounts plain settings
          (record { env = calm; operation = ask_reset "admin@shop.kz" } ∷ [])
          after_reset.committed))
    ≡ (
      raised (app_exception 400 invalid_reset_token),
      start (
          serve_accounts plain settings
            (record { env = calm; operation = ask_reset "admin@shop.kz" } ∷ [])
            after_reset.committed),
    )
confirm_password_reset-single_use_example =
    confirm_password_reset-single_use plain settings calm calm "secret" "N3wPass!" "An0ther!" asked
      after_reset (record { env = calm; operation = ask_reset "admin@shop.kz" } ∷ []) reset_done
      ((calm_relies (ResetSpent (plain.sha256 "secret")), fresh_other), tt)

abbrev invited : Database
invited = record shop { tenants = company ∷ []; email_verification_tokens = reset_row ∷ [] }

abbrev after_verification : Session
after_verification = (verify_email plain settings calm "secret" none (start invited)).1

secret_differs : matches_master_secret plain settings "secret" ≡ ok false
unfolding plain matches_master_secret Errors.◌>>=◌
secret_differs = refl

verification_done :
    verify_email plain settings calm "secret" none (start invited) ≡ (ok tt, after_verification)
unfolding plain verify_email verify_with verify_or_expire verify_user matches_master_secret
    find_token find_user select commit_after ◌>>=◌ Errors.◌>>=◌
verification_done = refl

verify_email-single_use_example :
    verify_email plain settings calm "secret" none (
      start (
        serve_accounts plain settings
          (record { env = calm; operation = resend "admin@shop.kz" } ∷ [])
          after_verification.committed))
    ≡ (
      raised (app_exception 400 invalid_verification_token),
      start (
          serve_accounts plain settings
            (record { env = calm; operation = resend "admin@shop.kz" } ∷ [])
            after_verification.committed),
    )
verify_email-single_use_example =
    verify_email-single_use plain settings calm calm "secret" none none invited after_verification
      (record { env = calm; operation = resend "admin@shop.kz" } ∷ []) secret_differs
      verification_done ((calm_relies (VerificationSpent (plain.sha256 "secret")), fresh_other), tt)

-- ===== src/Auth/Roles.antt =====
-- Who may create a super admin: `register_user` and what else changes accounts.
use backend_project.Prelude.{
  All, String, Bool, true, false, not, ◌&&◌, ◌≡◌, refl, ap, ◌∙◌, some, List, [], ◌∷◌, All, arith,
}
use backend_project.Errors.{Fault, ok}
use backend_project.Models.{Database, User, OneTimeToken, user_row, tenant_row, same_email}
use backend_project.Models.Enums.{super_admin, role_eq}
use backend_project.Table.{update, insert}
use backend_project.Table.Laws.{All-Has, one_or_none-Has, update-All, insert-ok}
use backend_project.Transfers.Lookup.{>>=-eq-ok, or_raise-ok, raise_if-ok}
use backend_project.Session.{Env}
use backend_project.Session.Keeps.{Relies, Saves, Saves-bind}
use backend_project.EmailJobs.Keeps.{IgnoresMail}
use backend_project.Auth.Library.{Library, Settings}
use backend_project.Auth.OneTime.{
  RegisterRequest, check_registration, check_bootstrap, has_rows, add_user, add_bootstrap,
  add_verification_token, add_reset_token,
}
use backend_project.Auth.Spend.{
  user_by_email, verify_by_email, find_user, verify_user, reset_password,
}
use backend_project.Auth.Services.{SavesAll}
use backend_project.Auth.History.{AccountCall, IsFrom, serve_accounts, serve_accounts-keeps}

abbrev pub IsOrdinary : User → Type 0
IsOrdinary u = role_eq u.role super_admin ≡ false

-- There are users, and none is a super admin.
abbrev pub AllOrdinary : Database → Type 0
AllOrdinary db = (has_rows db.users ≡ true) × All IsOrdinary db.users

AllOrdinary-mail : IgnoresMail AllOrdinary
AllOrdinary-mail = record { any_mail = λ db jobs h. h }

insert-Ordinary :
    (r : User) (xs ys : List User)
    → insert same_email r xs ≡ ok ys
    → IsOrdinary r
    → All IsOrdinary xs
    → (has_rows ys ≡ true) × All IsOrdinary ys
insert-Ordinary r xs ys e p h = rw (insert-ok same_email r xs ys e).0 (refl, (p, h))

update-has_rows : (r : User) (xs : List User) → has_rows (update r xs) ≡ has_rows xs
unfolding update
update-has_rows r [] = refl
update-has_rows r (x ∷ xs) = refl

update-Ordinary :
    (r : User) (db : Database)
    → IsOrdinary r
    → AllOrdinary db
    → (has_rows (update r db.users) ≡ true) × All IsOrdinary (update r db.users)
update-Ordinary r db p h =
    (update-has_rows r db.users ∙ h.0, update-All IsOrdinary r db.users h.1 p)

add_user-Ordinary :
    (user : User) (db : Database)
    → IsOrdinary user
    → All IsOrdinary db.users
    → Saves AllOrdinary (add_user user db)
unfolding add_user
add_user-Ordinary user db p h =
    Saves-bind AllOrdinary _ _ λ users e. insert-Ordinary user db.users users e p h

bootstrap_role :
    (request : RegisterRequest) (home : String × String) (db : Database)
    → AllOrdinary db
    → check_bootstrap request db ≡ ok home
    → role_eq request.role super_admin ≡ false
unfolding check_bootstrap
bootstrap_role request home db h e =
    let (_, p, e1) = >>=-eq-ok _ _ home e in
    let guard = raise_if-ok _ _ _ p in and_left_false _ _ guard h.0
  where
    and_left_false : (a b : Bool) → (a && b) ≡ false → b ≡ true → a ≡ false
    and_left_false a b g t = ground arith

staff_role :
    (request : RegisterRequest) (actor : User) (db : Database)
    → IsOrdinary actor
    → check_registration request (some actor) db ≡ ok tt
    → role_eq request.role super_admin ≡ false
unfolding check_registration
staff_role request actor db a e =
    let (_, p, e1) = >>=-eq-ok _ _ tt e in and_not_false _ _ (raise_if-ok _ _ _ p) a
  where
    and_not_false : (r s : Bool) → (r && not s) ≡ false → s ≡ false → r ≡ false
    and_not_false r s g t = ground arith

found_by_email :
    (email : String) (db : Database) (user : User)
    → user_by_email email db ≡ ok (some user)
    → AllOrdinary db
    → IsOrdinary user
found_by_email email db user e h =
    All-Has IsOrdinary user db.users h.1 (one_or_none-Has _ user db.users e).0

found_by_token :
    (missing : Fault) (token : OneTimeToken) (db : Database) (user : User)
    → find_user missing token db ≡ ok user
    → AllOrdinary db
    → IsOrdinary user
unfolding find_user
found_by_token missing token db user e h =
    let (found, p, q) = >>=-eq-ok _ _ user e in
    All-Has IsOrdinary user db.users h.1
      (one_or_none-Has _ user db.users (p ∙ ap ok (or_raise-ok _ found user q))).0

module _ (library : Library) (settings : Settings) (env : Env) where
  AllOrdinary-saved : SavesAll library settings IsOrdinary env AllOrdinary
  unfolding add_bootstrap add_verification_token add_reset_token verify_by_email verify_user
      reset_password
  AllOrdinary-saved = record {
    owner = λ request home seen h e db p.
        Saves-bind AllOrdinary _ _
          λ tenants _. add_user-Ordinary _ _ (bootstrap_role request home seen h e) p.1;
    staff = λ request actor seen a e db p.
        add_user-Ordinary _ _ (staff_role request actor seen a e) p.1;
    verification_token = λ k user db p. Saves-bind AllOrdinary _ _ λ tokens _. p;
    reset_token = λ k user db p. Saves-bind AllOrdinary _ _ λ tokens _. p;
    by_email = λ email db p. Saves-bind AllOrdinary _ _ λ text _.
        Saves-bind AllOrdinary _ _ λ found f. Saves-bind AllOrdinary _ _ λ user u.
          update-Ordinary _ db
            (found_by_email text db user (f ∙ ap ok (or_raise-ok _ found user u)) p) p;
    expired_verification = λ token db p. p;
    verification = λ token db p.
        Saves-bind AllOrdinary _ _
          λ user e. update-Ordinary _ db (found_by_token _ token db user e p) p;
    expired_reset = λ token db p. p;
    reset = λ password token db p.
        Saves-bind AllOrdinary _ _
          λ user e. update-Ordinary _ db (found_by_token _ token db user e p) p;
  }

-- Once there are users and none is a super admin, no super admin appears, whatever account operations
-- are called, if each call comes without a user or from one who is no super admin, and if what other
-- sessions commit has users and no super admin.
pub serve_accounts-AllOrdinary :
    (library : Library) (settings : Settings) (cs : List AccountCall) (db : Database)
    → All (λ (c : AccountCall). Relies c.env AllOrdinary × IsFrom IsOrdinary c.operation) cs
    → AllOrdinary db
    → AllOrdinary (serve_accounts library settings cs db)
serve_accounts-AllOrdinary library settings cs db h p =
    serve_accounts-keeps library settings IsOrdinary AllOrdinary-mail
      (λ c. Relies c.env AllOrdinary × IsFrom IsOrdinary c.operation)
      (λ c q. (q.0, (AllOrdinary-saved library settings c.env, q.1))) cs db h p

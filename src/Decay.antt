-- ===== src/Decay.antt =====
-- app/services/decay_service.py: dead stock is marked, and then discounted cycle by cycle.
pub mod Price
pub mod Cycle
pub mod Loops
pub mod Services
pub mod Floor
pub mod Laws
mod Tests
use backend_project.Prelude.{
  ℕ, suc, ◌+◌, Uuid, Bool, true, false, ◌&&◌, ◌||◌, not, ◌==◌, pos, Option, List, [], ◌∷◌, length,
  is_some, if◌then◌else◌,
}
use backend_project.Errors.{ok}
use backend_project.Models.{Database, User, ProductVariant}
use backend_project.Models.Enums.{UserRole, super_admin, tenant_admin, role_eq}
use backend_project.Table.{select}
use backend_project.Session.{Env, Exec, pure, read, transaction, rollback_and_raise, ◌>>=◌, ◌>>◌}
use backend_project.EmailJobs.{queue_decay_alert_email}
use Cycle.{Settings, Locks, of_tenant, decay}

pub record DecayRunResult : Type 0 where
  pub marked_liquidating : ℕ
  pub discounted : ℕ

abbrev pub active_users : Option Uuid → Database → List User
active_users tenant_id db = select (λ u. u.is_active && of_tenant tenant_id u.tenant_id) db.users

abbrev pub is_recipient : User → Bool
is_recipient u =
    is_some u.email_verified_at && (role_eq u.role tenant_admin || role_eq u.role super_admin)

-- How many of the changed items are the tenant's.
unfoldable pub count : Uuid → List Uuid → ℕ
count tenant_id [] = 0
count tenant_id (t ∷ ts) = (if t == tenant_id then 1 else 0) + count tenant_id ts

-- `recipient_result is None`
abbrev pub has_result : Uuid → List Uuid → List Uuid → Bool
has_result tenant_id marked discounted =
    not (count tenant_id marked == 0) || not (count tenant_id discounted == 0)

-- The mails of the notification loop; each draws an id.
unfoldable pub mail_results : Env → List Uuid → List Uuid → ℕ → List User → Exec (Unit {0})
mail_results env marked discounted k [] = pure tt
mail_results env marked discounted k (u ∷ us) =
    let rest = mail_results env marked discounted (suc k) us in
    if is_recipient u && has_result u.tenant_id marked discounted
    then (do
      queue_decay_alert_email env k u (pos (count u.tenant_id marked))
          (pos (count u.tenant_id discounted))
      rest)
    else rest

-- The ids drawn: from 0 the logs', at most one for each item marked or discounted, then the mails'.
unfoldable pub run_decay_cycle : Env → Settings → Locks → Option Uuid → Exec DecayRunResult
run_decay_cycle env settings locks tenant_id = do
  variants ← read (λ db. ok (select (λ v. of_tenant tenant_id v.tenant_id) db.product_variants))
  users ← read (λ db. ok (active_users tenant_id db))
  (marked, discounted) ←
      transaction env (decay env settings locks tenant_id users variants) rollback_and_raise
  if length marked == 0 && length discounted == 0
      then pure tt
      else mail_results env marked discounted (length marked + length discounted) users
  pure (record { marked_liquidating = length marked; discounted = length discounted })

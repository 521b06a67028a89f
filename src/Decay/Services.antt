-- ===== src/Decay/Services.antt =====
-- `run_decay_cycle` keeps whatever its transaction saves and mails ignore.
use backend_project.Prelude.{ℕ, ◌==◌, ◌&&◌, Uuid, Option, List, [], ◌∷◌, length}
use backend_project.Models.{Database, User}
use backend_project.Table.{select}
use backend_project.Session.{Env}
use backend_project.Session.Keeps.{
  Keeps, Relies, Saves, Keeps-rollback_and_raise, Keeps-transaction, Keeps-bind, Keeps-read,
  Keeps-read_bind, Keeps-pure,
}
use backend_project.EmailJobs.Keeps.{IgnoresMail, Keeps-queue_decay_alert_email}
use backend_project.Transfers.Services.{Keeps-if}
use backend_project.Decay.{is_recipient, has_result, mail_results, run_decay_cycle}
use backend_project.Decay.Cycle.{Settings, Locks, of_tenant, decay}

module _ {P : Database → Type 0} (env : Env) (rely : Relies env P) (mail : IgnoresMail P) where
  Keeps-mail_results :
      (marked discounted : List Uuid) (k : ℕ) (users : List User)
      → Keeps P (mail_results env marked discounted k users)
  unfolding mail_results
  Keeps-mail_results marked discounted k [] = Keeps-pure tt
  Keeps-mail_results marked discounted k (u ∷ us) =
      let rest = Keeps-mail_results marked discounted _ us in
      Keeps-if (is_recipient u && has_result u.tenant_id marked discounted) _ _
        (Keeps-bind (Keeps-queue_decay_alert_email env rely mail k u _ _) (λ _. rest)) rest

  pub Keeps-run_decay_cycle :
      (settings : Settings) (locks : Locks) (tenant_id : Option Uuid)
      → ((before : Database)
          → P before
          → (users : List User) (db : Database) → P db
          → Saves P (
              decay env settings locks tenant_id users
                (select (λ v. of_tenant tenant_id v.tenant_id) before.product_variants)
                db))
      → Keeps P (run_decay_cycle env settings locks tenant_id)
  unfolding run_decay_cycle
  Keeps-run_decay_cycle settings locks tenant_id saves = Keeps-read_bind _ _ λ before h.
      Keeps-bind (Keeps-read _) λ users.
        Keeps-bind (Keeps-transaction env _ _ rely (saves before h users) Keeps-rollback_and_raise)
          λ changed.
            Keeps-bind
              (Keeps-if (length changed.0 == 0 && length changed.1 == 0) _ _ (Keeps-pure tt)
                (Keeps-mail_results changed.0 changed.1 _ users))
              (λ _. Keeps-pure _)

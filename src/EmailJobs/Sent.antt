-- ===== src/EmailJobs/Sent.antt =====
-- A mail that is queued without an exception has left the rest of the pending database committed.
use backend_project.Prelude.{ℕ, Uuid, String, ◌≡◌, arith}
use backend_project.Errors.{ok}
use backend_project.Models.{User, StockTransfer, EmailJob, Message}
use backend_project.Session.{Env, Session, ◌>>=◌}
use backend_project.EmailJobs.{create_email_job, Event, created, completed, queue_transfer_email}

pub create_email_job-ok :
    (env : Env) (k : ℕ) (tenant_id : Uuid) (email : String) (message : Message) (purpose : String)
    (s s' : Session) (job : EmailJob)
    → create_email_job env k tenant_id email message purpose s ≡ (ok job, s')
    → s'.committed.stock_transfers ≡ s.working.stock_transfers
unfolding create_email_job ◌>>=◌
create_email_job-ok env k tenant_id email message purpose s s' job e = ground arith

pub queue_transfer_email-ok :
    (env : Env) (k : ℕ) (recipient : User) (transfer : StockTransfer) (event : Event)
    (s s' : Session) (job : EmailJob)
    → queue_transfer_email env k recipient transfer event s ≡ (ok job, s')
    → s'.committed.stock_transfers ≡ s.working.stock_transfers
unfolding queue_transfer_email
queue_transfer_email-ok env k recipient transfer created s s' job e =
    create_email_job-ok env k _ _ _ _ s s' job e
queue_transfer_email-ok env k recipient transfer completed s s' job e =
    create_email_job-ok env k _ _ _ _ s s' job e

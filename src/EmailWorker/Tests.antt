-- ===== src/EmailWorker/Tests.antt =====
-- One job, delivered in order and by two workers at a time.
use backend_project.Prelude.{ℕ, zero, suc, refl, [], ◌∷◌, some, none, pos, ◌+ℤ◌, arith}
use backend_project.Models.{EmailJob, EmailJobStatus, job_row}
use backend_project.Models.Rows.{verification}
use backend_project.Table.{select, update}
use backend_project.EmailWorker.{
  begin, counted, marked_sent, marked_failed, record_sent, record_failure, Answer, Post,
  send_email_job,
}
use backend_project.EmailWorker.Delivery.{Stored, IsDelivered, send_email_job-IsDelivered}
use backend_project.EmailWorker.Steps.{
  System, Steps, begins, mails_out, refuses, records_sent, records_failure, stay, then,
}
use backend_project.EmailWorker.Refused.{IsRefused, send_email_job-IsRefused}
use backend_project.EmailWorker.Counted.{CountsMails, Steps-CountsMails}

abbrev welcome : EmailJob
welcome = record {
  id = 90;
  tenant_id = 1;
  recipient_email = "admin@shop.kz";
  message = verification "Admin" "token";
  purpose = "email_verification";
  status = EmailJobStatus.queued;
  retry_count = pos 0;
  error_message = none;
  created_at = 100;
  sent_at = none;
  last_attempt_at = none;
}

abbrev queued_post : Post
queued_post = record { jobs = welcome ∷ []; mails = [] }

-- The provider refuses twice, then takes the mail.
abbrev answers : ℕ → Answer
answers zero = record { now = 400; send_email = λ mail. none }
answers (suc zero) = record { now = 300; send_email = λ mail. none }
answers (suc (suc k)) = record { now = 200; send_email = λ mail. some "timeout" }

welcome-Stored : Stored welcome (welcome ∷ [])
unfolding select
welcome-Stored = refl

send_email_job-IsDelivered_example :
    IsDelivered welcome queued_post (send_email_job answers 3 90 queued_post)
send_email_job-IsDelivered_example =
    send_email_job-IsDelivered answers 3 1 welcome queued_post (tt, tt) welcome-Stored (λ e. cc)
      (omega arith) refl

-- The provider always refuses.
abbrev refusals : ℕ → Answer
refusals k = record { now = 200; send_email = λ mail. some "timeout" }

send_email_job-IsRefused_example :
    IsRefused welcome queued_post "timeout" 4 (send_email_job refusals 3 90 queued_post)
send_email_job-IsRefused_example =
    send_email_job-IsRefused refusals (λ k. "timeout") 3 welcome queued_post (tt, tt) welcome-Stored
      (λ e. cc) (λ k l. refl)

abbrev idle : System
idle = record { jobs = welcome ∷ []; sending = 0; done = 0; failing = 0; mails = 0 }

abbrev twice : EmailJob
twice = record welcome { retry_count = pos 2; last_attempt_at = some 120 }

abbrev overwritten : EmailJob
overwritten = marked_failed 140 "timeout" (marked_sent 130 twice)

abbrev after_both : System
after_both = record { jobs = overwritten ∷ []; sending = 0; done = 0; failing = 0; mails = 1 }

-- Both begin, one sends and records it, the other fails and records that: a mail that is out ends as failed.
both : Steps 90 idle after_both
unfolding begin record_sent record_failure select update ◌+ℤ◌
both = then (begins 110 (counted 110 welcome) _ refl) (
    then (begins 120 twice _ refl) (
      then (mails_out 1 refl) (
        then (refuses 0 refl) (
          then (records_sent 130 0 _ refl refl)
            (then (records_failure 140 "timeout" 0 _ refl refl) stay)))))

Steps-CountsMails_example : CountsMails 90 after_both
Steps-CountsMails_example = Steps-CountsMails 90 idle after_both both (λ e. omega arith, tt)

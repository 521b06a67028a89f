-- ===== src/EmailWorker/Delivery.antt =====
-- A task that is tried often enough sends its mail.
use backend_project.Prelude.{
  ℕ, zero, suc, ◌≤◌, String, Time, ◌==◌, ==-refl, none, some, List, [], ◌∷◌, ◌≡◌, ◌≢◌, refl, sym,
  ap, ◌∙◌, inl, inr, arith, Option-cases, Bool-cases, ==-iff,
}
use backend_project.Errors.{Result, ok, raised, failure}
use backend_project.Models.{EmailJob, EmailJobStatus, job_row}
use backend_project.Table.{select, one_or_none, update}
use backend_project.Table.Laws.{UniqueKeys, update-UniqueKeys}
use backend_project.Table.Unique.{select-update}
use backend_project.EmailWorker.{
  Begun, find_job, counted, marked_failed, marked_sent, begin, record_sent, record_failure, Status,
  Mail, mail_of, Post, send_email, Answer, send_once, send_email_job,
}

-- The job is stored under its id, alone.
abbrev pub Stored : EmailJob → List EmailJob → Type 0
Stored job jobs = select (λ j. j.id == job.id) jobs ≡ job ∷ []

Stored-update :
    (old new : EmailJob) (jobs : List EmailJob)
    → new.id ≡ old.id
    → UniqueKeys jobs
    → Stored old jobs
    → select (λ j. j.id == old.id) (update new jobs) ≡ new ∷ []
Stored-update old new jobs same keys h =
    select-update (λ j. j.id == old.id) old new jobs same (rw same (==-refl old.id)) keys h

find-Stored :
    (job : EmailJob) (jobs : List EmailJob) → Stored job jobs → find_job job.id jobs ≡ ok (some job)
find-Stored job jobs h = ap one_or_none h

begin-unsent :
    (now : Time) (job : EmailJob) (jobs : List EmailJob) (status : EmailJobStatus)
    → Stored job jobs
    → job.status ≡ status
    → status ≢ EmailJobStatus.sent
    → begin now job.id jobs ≡ ok (Begun.sending (counted now job), update (counted now job) jobs)
unfolding begin
begin-unsent now job jobs EmailJobStatus.queued h e ne = rw (find-Stored job jobs h) (rw e refl)
begin-unsent now job jobs EmailJobStatus.failed h e ne = rw (find-Stored job jobs h) (rw e refl)
begin-unsent now job jobs EmailJobStatus.sent h e ne = absurd (ne refl)

module _ (answer : Answer) (job : EmailJob) (post : Post) (keys : UniqueKeys post.jobs)
    (stored : Stored job post.jobs) (unsent : job.status ≢ EmailJobStatus.sent) where
  abbrev pub tried : EmailJob
  tried = counted answer.now job

  -- The rows after an attempt that ends by storing this one
  abbrev pub ended : EmailJob → List EmailJob
  ended last = update last (update tried post.jobs)

  tried_found : find_job job.id (update tried post.jobs) ≡ ok (some tried)
  tried_found = ap one_or_none (Stored-update job tried post.jobs refl keys stored)

  pub attempt_delivers :
      answer.send_email (mail_of job) ≡ none
      → send_once answer job.id post ≡ (
        ok Status.sent,
        record { jobs = ended (marked_sent answer.now tried); mails = mail_of job ∷ post.mails },
      )
  unfolding send_once record_sent send_email
  attempt_delivers e =
      rw (begin-unsent answer.now job post.jobs job.status stored refl unsent)
        (rw e (rw tried_found refl))

  pub attempt_fails :
      (text : String)
      → answer.send_email (mail_of job) ≡ some text
      → send_once answer job.id post ≡ (
        raised failure,
        record { jobs = ended (marked_failed answer.now text tried); mails = post.mails },
      )
  unfolding send_once record_failure send_email
  attempt_fails text e =
      rw (begin-unsent answer.now job post.jobs job.status stored refl unsent)
        (rw e (rw tried_found refl))

  pub ends_as :
      (last : EmailJob) → last.id ≡ job.id → select (λ j. j.id == job.id) (ended last) ≡ last ∷ []
  ends_as last same =
      Stored-update tried last (update tried post.jobs) same
        (update-UniqueKeys tried post.jobs keys)
        (Stored-update job tried post.jobs refl keys stored)

  pub ended-UniqueKeys : (last : EmailJob) → UniqueKeys (ended last)
  ended-UniqueKeys last = update-UniqueKeys last _ (update-UniqueKeys tried post.jobs keys)

-- How the task ends well: it answers so, the row says so, and one mail more is out, the job's.
abbrev pub IsDelivered : EmailJob → Post → Result Status × Post → Type 0
IsDelivered job post r =
    (r.0 ≡ ok Status.sent)
    × ((r.1.mails ≡ mail_of job ∷ post.mails)
        × ((last : EmailJob) × ((select (λ j. j.id == job.id) r.1.jobs ≡ last ∷ [])
              × (last.status ≡ EmailJobStatus.sent))))

IsDelivered-now :
    (answer : Answer) (job : EmailJob) (post : Post) (keys : UniqueKeys post.jobs)
    (stored : Stored job post.jobs) (unsent : job.status ≢ EmailJobStatus.sent)
    → IsDelivered job post (
      ok Status.sent,
      record {
        jobs =
            ended answer job post keys stored unsent
              (marked_sent answer.now (counted answer.now job));
        mails = mail_of job ∷ post.mails;
      },
    )
IsDelivered-now answer job post keys stored unsent =
    let last = marked_sent answer.now (counted answer.now job) in
    (refl, (refl, (last, (ends_as answer job post keys stored unsent last refl, refl))))

earlier :
    (answers : ℕ → Answer) (mail : Mail) (retries k : ℕ) (text : String)
    → k ≤ suc retries
    → (answers k).send_email mail ≡ none
    → (answers (suc retries)).send_email mail ≡ some text
    → k ≤ retries
earlier answers mail retries k text l e d = elim (Bool-cases (k == suc retries)) [
  | inl q ↦
      let same : k ≡ suc retries = (==-iff k (suc retries)).0 q in
      absurd (none-some (sym e ∙ ap (λ n. (answers n).send_email mail) same ∙ d))
  | inr q ↦ ground arith
]
  where
    none-some : none ≢ some text
    none-some p = cc

pub failed_unsent : EmailJobStatus.failed ≢ EmailJobStatus.sent
failed_unsent p = cc

-- Of a job that is stored under a unique id and not sent yet, exactly one mail goes out, with the job's
-- recipient and message, and the job is answered and recorded as sent, by a task with so many retries
-- if `send_email` returns for this mail in one of its attempts; the k-th attempt is counted from the
-- last one.
pub send_email_job-IsDelivered :
    (answers : ℕ → Answer) (retries k : ℕ) (job : EmailJob) (post : Post)
    → UniqueKeys post.jobs
    → Stored job post.jobs
    → job.status ≢ EmailJobStatus.sent
    → k ≤ retries
    → (answers k).send_email (mail_of job) ≡ none
    → IsDelivered job post (send_email_job answers retries job.id post)
unfolding send_email_job
send_email_job-IsDelivered answers zero zero job post keys stored unsent l e =
    rw (attempt_delivers (answers zero) job post keys stored unsent e)
      (IsDelivered-now (answers zero) job post keys stored unsent)
send_email_job-IsDelivered answers zero (suc k) job post keys stored unsent l e =
    absurd (omega (arith, l))
send_email_job-IsDelivered answers (suc retries) k job post keys stored unsent l e =
    let answer = answers (suc retries) in
    elim (Option-cases (answer.send_email (mail_of job))) [
      | inl d ↦
          rw (attempt_delivers answer job post keys stored unsent d)
            (IsDelivered-now answer job post keys stored unsent)
      | inr (text, d) ↦
          let last = marked_failed answer.now text (counted answer.now job) in
          rw (attempt_fails answer job post keys stored unsent text d) (
            send_email_job-IsDelivered answers retries k last _
              (ended-UniqueKeys answer job post keys stored unsent last)
              (ends_as answer job post keys stored unsent last refl) failed_unsent
              (earlier answers (mail_of job) retries k text l e d) e)
    ]

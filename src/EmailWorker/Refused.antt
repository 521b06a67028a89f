-- ===== src/EmailWorker/Refused.antt =====
-- A task of which every attempt fails.
use backend_project.Prelude.{
  ℕ, zero, suc, ◌≤◌, String, ℤ, pos, ◌+ℤ◌, ◌==◌, some, [], ◌∷◌, ◌≡◌, ◌≢◌, refl, ◌∙◌, arith,
  int_laws,
}
use backend_project.Errors.{Result, raised, failure}
use backend_project.Models.{EmailJob, EmailJobStatus, job_row}
use backend_project.Table.{select}
use backend_project.Table.Laws.{UniqueKeys}
use backend_project.EmailWorker.{
  counted, marked_failed, Status, mail_of, Post, Answer, send_email_job,
}
use backend_project.EmailWorker.Delivery.{
  Stored, ended-UniqueKeys, ends_as, attempt_fails, failed_unsent,
}

-- How the task ends badly: it raises, no mail more is out, and the row has the last error and counts
-- so many attempts more.
abbrev pub IsRefused : EmailJob → Post → String → ℕ → Result Status × Post → Type 0
IsRefused job post text attempts r =
    (r.0 ≡ raised failure)
    × ((r.1.mails ≡ post.mails)
        × ((last : EmailJob) × ((select (λ j. j.id == job.id) r.1.jobs ≡ last ∷ [])
              × ((last.status ≡ EmailJobStatus.failed)
                  × ((last.error_message ≡ some text)
                      × (last.retry_count ≡ job.retry_count +ℤ pos attempts))))))

one_more : (a : ℤ) (n : ℕ) → (a +ℤ pos 1) +ℤ pos n ≡ a +ℤ pos (suc n)
one_more a n = grind int_laws

within : (n k : ℕ) → k ≤ n → k ≤ suc n
within n k l = omega (arith, l)

-- If `send_email` raises for the mail of a job in every attempt, where the job is stored under a unique
-- id and not sent yet: the task raises in the end, no mail more is out, and the row is marked as failed,
-- with the error of the last attempt, and counts one attempt more than there are retries.
pub send_email_job-IsRefused :
    (answers : ℕ → Answer) (texts : ℕ → String) (retries : ℕ) (job : EmailJob) (post : Post)
    → UniqueKeys post.jobs
    → Stored job post.jobs
    → job.status ≢ EmailJobStatus.sent
    → ((k : ℕ) → k ≤ retries → (answers k).send_email (mail_of job) ≡ some (texts k))
    → IsRefused job post (texts 0) (suc retries) (send_email_job answers retries job.id post)
unfolding send_email_job
send_email_job-IsRefused answers texts zero job post keys stored unsent e =
    let answer = answers zero in
    let last = marked_failed answer.now (texts 0) (counted answer.now job) in
    rw (attempt_fails answer job post keys stored unsent (texts 0) (e zero (omega arith))) (
      refl,
      (refl, (last, (ends_as answer job post keys stored unsent last refl, (refl, (refl, refl))))),
    )
send_email_job-IsRefused answers texts (suc retries) job post keys stored unsent e =
    let answer = answers (suc retries) in
    let text = texts (suc retries) in
    let last = marked_failed answer.now text (counted answer.now job) in
    let refused = e (suc retries) (omega arith) in
    let (raises, (mails, (row, (found, (status, (error, count)))))) =
      send_email_job-IsRefused answers texts retries last _
        (ended-UniqueKeys answer job post keys stored unsent last)
        (ends_as answer job post keys stored unsent last refl) failed_unsent
        (λ k l. e k (within retries k l)) in
    rw (attempt_fails answer job post keys stored unsent text refused) (
      raises,
      (mails, (row, (found, (status, (error, count ∙ one_more job.retry_count (suc retries)))))),
    )

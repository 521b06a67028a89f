-- ===== src/EmailWorker.antt =====
-- app/tasks/email_task.py: the worker's task `send_email_job`, with its retries. Each `async with`
-- block is a transaction of its own that locks the row of the job; sending is the mail provider's.
pub mod Delivery
pub mod Steps
pub mod Counted
pub mod Refused
mod Tests
use backend_project.Prelude.{
  ℕ, zero, suc, Uuid, String, Time, ℤ, pos, ◌+ℤ◌, Bool, true, false, ◌==◌, Option, none, some, List,
  ◌∷◌, if◌then◌else◌,
}
use backend_project.Errors.{Fault, Result, ok, raised, failure}
use backend_project.Models.Rows.{Message}
use backend_project.Models.{EmailJob, EmailJobStatus, job_row}
use backend_project.Table.{select, one_or_none, update}

-- What the first transaction finds
pub data Begun : Type 0 where
  missing already_sent : Begun
  sending : EmailJob → Begun

pub data Status : Type 0 where
  missing already_sent sent : Status

abbrev pub find_job : Uuid → List EmailJob → Result (Option EmailJob)
find_job id jobs = one_or_none (select (λ j. j.id == id) jobs)

abbrev pub counted : Time → EmailJob → EmailJob
counted now job = record job { retry_count = job.retry_count +ℤ pos 1; last_attempt_at = some now }

abbrev pub attempt_job : Time → List EmailJob → EmailJob → EmailJobStatus → Begun × List EmailJob
attempt_job now jobs job EmailJobStatus.sent = (Begun.already_sent, jobs)
attempt_job now jobs job EmailJobStatus.queued =
    (Begun.sending (counted now job), update (counted now job) jobs)
attempt_job now jobs job EmailJobStatus.failed =
    (Begun.sending (counted now job), update (counted now job) jobs)

abbrev pub begin_found :
    Time → List EmailJob → Result (Option EmailJob) → Result (Begun × List EmailJob)
begin_found now jobs (Result.raised f) = raised f
begin_found now jobs (Result.ok none) = ok (Begun.missing, jobs)
begin_found now jobs (Result.ok (some job)) = ok (attempt_job now jobs job job.status)

-- The first transaction of `_send_email_job`
unfoldable pub begin : Time → Uuid → List EmailJob → Result (Begun × List EmailJob)
begin now id jobs = begin_found now jobs (find_job id jobs)

abbrev pub change_found :
    (EmailJob → EmailJob) → List EmailJob → Result (Option EmailJob) → Result (List EmailJob)
change_found f jobs (Result.raised x) = raised x
change_found f jobs (Result.ok none) = ok jobs
change_found f jobs (Result.ok (some job)) = ok (update (f job) jobs)

abbrev pub marked_failed : Time → String → EmailJob → EmailJob
marked_failed now text job = record job {
  status = EmailJobStatus.failed;
  error_message = some text;
  last_attempt_at = some now;
}

abbrev pub marked_sent : Time → EmailJob → EmailJob
marked_sent now job = record job {
  status = EmailJobStatus.sent;
  sent_at = some now;
  error_message = none;
}

-- The transaction of the `except`
unfoldable pub record_failure : Time → String → Uuid → List EmailJob → Result (List EmailJob)
record_failure now text id jobs = change_found (marked_failed now text) jobs (find_job id jobs)

-- The last transaction
unfoldable pub record_sent : Time → Uuid → List EmailJob → Result (List EmailJob)
record_sent now id jobs = change_found (marked_sent now) jobs (find_job id jobs)

-- What `send_email` is given: the texts of subject and body are the message's.
pub record Mail : Type 0 where
  pub recipient_email : String
  pub message : Message

abbrev pub mail_of : EmailJob → Mail
mail_of job = record { recipient_email = job.recipient_email; message = job.message }

-- What one attempt gets from outside: the time, and for a mail, the text of the exception (its first
-- 1000 characters) that `send_email` raises, if it raises one.
pub record Answer : Type 0 where
  pub now : Time
  pub send_email : Mail → Option String

-- The rows, and the mails that went out: those for which `send_email` returned, the last one first.
pub record Post : Type 0 where
  pub jobs : List EmailJob
  pub mails : List Mail

abbrev pub taken : Option String → Mail → List Mail → Option String × List Mail
taken none mail mails = (none, mail ∷ mails)
taken (some text) mail mails = (some text, mails)

-- The call of `send_email`: the text of the exception, if it raised one, and the mails after it
unfoldable pub send_email : Answer → EmailJob → List Mail → Option String × List Mail
send_email answer job mails = taken (answer.send_email (mail_of job)) (mail_of job) mails

abbrev pub keep_failed : Post → Result (List EmailJob) → Result Status × Post
keep_failed post (Result.raised x) = (raised x, post)
keep_failed post (Result.ok jobs) = (raised failure, record post { jobs = jobs })

abbrev pub keep_sent : Post → Result (List EmailJob) → Result Status × Post
keep_sent post (Result.raised x) = (raised x, post)
keep_sent post (Result.ok jobs) = (ok Status.sent, record post { jobs = jobs })

-- What is recorded after `send_email`
abbrev pub deliver : Time → Uuid → Option String → Post → Result Status × Post
deliver now id none post = keep_sent post (record_sent now id post.jobs)
deliver now id (some text) post = keep_failed post (record_failure now text id post.jobs)

abbrev pub after_begin :
    Answer → Uuid → Post → Result (Begun × List EmailJob) → Result Status × Post
after_begin answer id post (Result.raised x) = (raised x, post)
after_begin answer id post (Result.ok (Begun.missing, jobs)) =
    (ok Status.missing, record post { jobs = jobs })
after_begin answer id post (Result.ok (Begun.already_sent, jobs)) =
    (ok Status.already_sent, record post { jobs = jobs })
after_begin answer id post (Result.ok (Begun.sending job, jobs)) =
    let (error, mails) = send_email answer job post.mails in
    deliver answer.now id error (record { jobs = jobs; mails = mails })

-- `_send_email_job`, of which an exception leaves what was committed
unfoldable pub send_once : Answer → Uuid → Post → Result Status × Post
unfolding begin record_sent record_failure send_email
send_once answer id post = after_begin answer id post (begin answer.now id post.jobs)

-- Whether the task is tried again
abbrev pub raises : Result Status → Bool
raises (Result.ok s) = false
raises (Result.raised f) = true

-- `send_email_job`: a task that raises is tried again while retries are left. `answers k` is what the
-- k-th attempt from the last one gets.
unfoldable pub send_email_job : (ℕ → Answer) → ℕ → Uuid → Post → Result Status × Post
unfolding send_once
send_email_job answers zero id post = send_once (answers zero) id post
send_email_job answers (suc retries) id post =
    let (result, post') = send_once (answers (suc retries)) id post in
    let again = send_email_job answers retries id post' in
    if raises result then again else (result, post')

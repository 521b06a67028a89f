-- ===== src/EmailWorker/Counted.antt =====
-- The row of a job counts every mail that goes out for it.
use backend_project.Prelude.{
  ℕ, suc, ◌+◌, Uuid, Time, ℤ, pos, ◌+ℤ◌, ◌≤ℤ◌, false, ◌==◌, ==-iff, ◌≡◌, refl, sym, ap, ◌∙◌, Option,
  none, some, List, [], ◌∷◌, All, subst, Bool-cases, ◌≢◌, ◌≤◌, arith, int_laws, inl, inr,
}
use backend_project.Errors.{Result, ok, raised}
use backend_project.Stock.Laws.{ok_path}
use backend_project.Models.{EmailJob, EmailJobStatus, job_row}
use backend_project.Table.{update}
use backend_project.Table.Laws.{All-Has, one_or_none-Has}
use backend_project.EmailWorker.{
  Begun, find_job, counted, begin, attempt_job, begin_found, change_found, marked_sent,
  marked_failed, record_sent, record_failure,
}
use backend_project.EmailWorker.Steps.{
  System, Step, Steps, begins, mails_out, refuses, records_sent, records_failure, stops, stops_done,
  stops_failing, stay, then,
}

-- The attempts that the row of the job counts are at least the mails and the workers about to send one.
abbrev pub CountsMails : Uuid → System → Type 0
CountsMails id s = All (λ j. j.id ≡ id → pos (s.sending + s.mails) ≤ℤ j.retry_count) s.jobs

update_row :
    (Q : EmailJob → Type 0) (id : Uuid) (new : EmailJob) (jobs : List EmailJob)
    → new.id ≡ id
    → Q new
    → All (λ j. j.id ≡ id → Q j) (update new jobs)
unfolding update
update_row Q id new [] same q = tt
update_row Q id new (x ∷ xs) same q =
    let rest = update_row Q id new xs same q in
    elim (Bool-cases (x.id == new.id)) [
      | inl e ↦ rw e (λ _. q, rest)
      | inr e ↦ rw e (λ p. absurd (differ x.id new.id e (p ∙ sym same)), rest)
    ]
  where
    differ : (a b : Uuid) → (a == b) ≡ false → a ≢ b
    differ a b e p = ground arith

-- What a transaction makes of the row it finds
found_row :
    (Q : EmailJob → Type 0) (id : Uuid) (job : EmailJob) (jobs : List EmailJob)
    → find_job id jobs ≡ ok (some job)
    → All (λ j. j.id ≡ id → Q j) jobs
    → (job.id ≡ id) × Q job
found_row Q id job jobs e h =
    let (listed, here) = one_or_none-Has (λ j. j.id == id) job jobs e in
    let same : job.id ≡ id = (==-iff job.id id).0 here in
    (same, All-Has (λ j. j.id ≡ id → Q j) job jobs h listed same)

change_found-keeps :
    (Q : EmailJob → Type 0) (f : EmailJob → EmailJob) (id : Uuid) (jobs jobs' : List EmailJob)
    → ((j : EmailJob) → (f j).id ≡ j.id)
    → ((j : EmailJob) → Q j → Q (f j))
    → All (λ j. j.id ≡ id → Q j) jobs
    → change_found f jobs (find_job id jobs) ≡ ok jobs'
    → All (λ j. j.id ≡ id → Q j) jobs'
change_found-keeps Q f id jobs jobs' same step h e = by_answer (find_job id jobs) refl e
  where
    by_answer :
        (r : Result (Option EmailJob))
        → find_job id jobs ≡ r
        → change_found f jobs r ≡ ok jobs'
        → All (λ j. j.id ≡ id → Q j) jobs'
    by_answer (ok none) p q = subst (All (λ j. j.id ≡ id → Q j)) (ok_path q) h
    by_answer (ok (some job)) p q =
        let (own, old) = found_row Q id job jobs p h in
        subst (All (λ j. j.id ≡ id → Q j)) (ok_path q)
          (update_row Q id (f job) jobs (same job ∙ own) (step job old))
    by_answer (raised x) p q = cc

-- The first transaction counts the attempt.
begin-counts :
    (id : Uuid) (n : ℕ) (now : Time) (job : EmailJob) (jobs jobs' : List EmailJob)
    → All (λ j. j.id ≡ id → pos n ≤ℤ j.retry_count) jobs
    → begin now id jobs ≡ ok (Begun.sending job, jobs')
    → All (λ j. j.id ≡ id → pos (suc n) ≤ℤ j.retry_count) jobs'
unfolding begin
begin-counts id n now job jobs jobs' h e = by_answer (find_job id jobs) refl e
  where
    one_more : (a : ℤ) → pos n ≤ℤ a → pos (suc n) ≤ℤ a +ℤ pos 1
    one_more a l = grind int_laws

    by_status :
        (old : EmailJob) (status : EmailJobStatus)
        → find_job id jobs ≡ ok (some old)
        → attempt_job now jobs old status ≡ (Begun.sending job, jobs')
        → All (λ j. j.id ≡ id → pos (suc n) ≤ℤ j.retry_count) jobs'
    by_status old EmailJobStatus.sent p q = cc
    by_status old EmailJobStatus.queued p q =
        let (own, least) = found_row (λ j. pos n ≤ℤ j.retry_count) id old jobs p h in
        subst (All (λ j. j.id ≡ id → pos (suc n) ≤ℤ j.retry_count)) (ap (λ x. x.1) q)
          (update_row _ id (counted now old) jobs own (one_more old.retry_count least))
    by_status old EmailJobStatus.failed p q =
        let (own, least) = found_row (λ j. pos n ≤ℤ j.retry_count) id old jobs p h in
        subst (All (λ j. j.id ≡ id → pos (suc n) ≤ℤ j.retry_count)) (ap (λ x. x.1) q)
          (update_row _ id (counted now old) jobs own (one_more old.retry_count least))

    by_answer :
        (r : Result (Option EmailJob))
        → find_job id jobs ≡ r
        → begin_found now jobs r ≡ ok (Begun.sending job, jobs')
        → All (λ j. j.id ≡ id → pos (suc n) ≤ℤ j.retry_count) jobs'
    by_answer (ok none) p q = cc
    by_answer (ok (some old)) p q = by_status old old.status p (ok_path q)
    by_answer (raised x) p q = cc

fewer :
    (id : Uuid) (a b : ℕ) (jobs : List EmailJob)
    → b ≤ a
    → All (λ j. j.id ≡ id → pos a ≤ℤ j.retry_count) jobs
    → All (λ j. j.id ≡ id → pos b ≤ℤ j.retry_count) jobs
fewer id a b [] l h = tt
fewer id a b (j ∷ js) l h =
    (λ e. let least = h.0 e in omega (arith, least, l), fewer id a b js l h.1)

Step-CountsMails : (id : Uuid) (s t : System) → Step id s t → CountsMails id s → CountsMails id t
unfolding record_sent record_failure
Step-CountsMails id s t (begins now job jobs e) h =
    fewer id _ _ jobs (omega arith) (begin-counts id (s.sending + s.mails) now job s.jobs jobs h e)
Step-CountsMails id s t (mails_out n e) h = fewer id _ _ s.jobs (omega (arith, e)) h
Step-CountsMails id s t (refuses n e) h = fewer id _ _ s.jobs (omega (arith, e)) h
Step-CountsMails id s t (records_sent now n jobs e q) h =
    change_found-keeps (λ j. pos (s.sending + s.mails) ≤ℤ j.retry_count) (marked_sent now) id s.jobs
      jobs (λ j. refl) (λ j l. l) h q
Step-CountsMails id s t (records_failure now text n jobs e q) h =
    change_found-keeps (λ j. pos (s.sending + s.mails) ≤ℤ j.retry_count) (marked_failed now text) id
      s.jobs jobs (λ j. refl) (λ j l. l) h q
Step-CountsMails id s t (stops n e) h = fewer id _ _ s.jobs (omega (arith, e)) h
Step-CountsMails id s t (stops_done n e) h = h
Step-CountsMails id s t (stops_failing n e) h = h

-- Whatever workers deliver a job at a time, in whatever order their transactions and the provider's
-- answers fall, and whichever of them stop: if at first the row of the job counts at least the mails
-- and the workers about to send one, it always does, so that `retry_count` is never below the number
-- of mails that went out.
pub Steps-CountsMails :
    (id : Uuid) (s t : System) → Steps id s t → CountsMails id s → CountsMails id t
Steps-CountsMails id s t stay h = h
Steps-CountsMails id s t (then {t = m} first rest) h =
    Steps-CountsMails id m t rest (Step-CountsMails id s m first h)

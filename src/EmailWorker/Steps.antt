-- ===== src/EmailWorker/Steps.antt =====
-- Deliveries of one job by several workers at a time: each transaction and each answer of the provider
-- is a step, and a worker may stop between two of them.
use backend_project.Prelude.{ℕ, suc, Uuid, String, Time, List, ◌≡◌}
use backend_project.Errors.{ok}
use backend_project.Models.{EmailJob}
use backend_project.EmailWorker.{Begun, begin, record_sent, record_failure}

-- How many workers are about to send, have sent, or have failed to, and how many mails are out.
pub record System : Type 0 where
  pub jobs : List EmailJob
  pub sending : ℕ
  pub done : ℕ
  pub failing : ℕ
  pub mails : ℕ

module _ (id : Uuid) where
  pub data Step : System → System → Type 0 where
    begins :
        {s : System} (now : Time) (job : EmailJob) (jobs : List EmailJob)
        → begin now id s.jobs ≡ ok (Begun.sending job, jobs)
        → Step s (record s { jobs = jobs; sending = suc s.sending })
    -- The provider takes the mail.
    mails_out :
        {s : System} (n : ℕ)
        → s.sending ≡ suc n
        → Step s (record s { sending = n; done = suc s.done; mails = suc s.mails })
    -- The provider raises.
    refuses :
        {s : System} (n : ℕ)
        → s.sending ≡ suc n
        → Step s (record s { sending = n; failing = suc s.failing })
    records_sent :
        {s : System} (now : Time) (n : ℕ) (jobs : List EmailJob)
        → s.done ≡ suc n
        → record_sent now id s.jobs ≡ ok jobs
        → Step s (record s { jobs = jobs; done = n })
    records_failure :
        {s : System} (now : Time) (text : String) (n : ℕ) (jobs : List EmailJob)
        → s.failing ≡ suc n
        → record_failure now text id s.jobs ≡ ok jobs
        → Step s (record s { jobs = jobs; failing = n })
    -- A worker is lost before it sends, or before it records what came of it.
    stops : {s : System} (n : ℕ) → s.sending ≡ suc n → Step s (record s { sending = n })
    stops_done : {s : System} (n : ℕ) → s.done ≡ suc n → Step s (record s { done = n })
    stops_failing : {s : System} (n : ℕ) → s.failing ≡ suc n → Step s (record s { failing = n })

  pub data Steps : System → System → Type 0 where
    stay : {s : System} → Steps s s
    then : {s t u : System} → Step s t → Steps t u → Steps s u

  pub Steps-join : {s t u : System} → Steps s t → Steps t u → Steps s u
  Steps-join stay q = q
  Steps-join (then first rest) q = then first (Steps-join rest q)

-- ===== src/Transfers/Conservation.antt =====
-- No operation of the transfer service makes or loses a unit of stock.
use backend_project.Prelude.{All, Uuid, Bool, ℤ, pos, ◌≤ℤ◌, ◌+ℤ◌, ◌≡◌, List, some, ap, ◌∙◌}
use backend_project.Models.{Database, User}
use backend_project.Errors.{Result, ok, raised}
use backend_project.Session.{Env, start}
use backend_project.Session.Keeps.{Relies, Saves}
use backend_project.EmailJobs.Keeps.{IgnoresMail}
use backend_project.Transfers.{
  TransferCreateRequest, TransferConfirmRequest, create_transfer, confirm_transfer, cancel_transfer,
}
use backend_project.Transfers.Ledger.{IsSound, Balanced, Booked, ledger, reported, everything}
use backend_project.Transfers.Create.{debit-Balanced}
use backend_project.Transfers.Confirm.{credit-Booked}
use backend_project.Transfers.Cancel.{restore-Balanced}
use backend_project.Transfers.History.{
  Operation, Call, create, confirm, cancel, IsValidOperation, perform, serve, serve_induction,
}
use backend_project.Transfers.Services.{
  Keeps-create_transfer, Keeps-confirm_transfer, Keeps-cancel_transfer,
}

IsSound-mail :
    (db : Database) (jobs : List _) → IsSound db → IsSound (record db { email_jobs = jobs })
IsSound-mail db jobs h = record {
  item_keys = h.item_keys;
  transfer_keys = h.transfer_keys;
  stocked = h.stocked;
  sent = h.sent;
}

Balanced-mail : (c : Uuid → Bool) (n m : ℤ) → IgnoresMail (Balanced c n m)
Balanced-mail c n m = record {
  any_mail = λ db jobs h. record {
    sound = IsSound-mail db jobs h.sound;
    balance = h.balance;
    reports = h.reports;
  };
}

Booked-mail : (n : ℤ) → IgnoresMail (Booked n)
Booked-mail n = record {
  any_mail = λ db jobs h. record { sound = IsSound-mail db jobs h.sound; books = h.books };
}

-- What keeps every split of the books keeps the books.
Booked-of_Balanced :
    {A : Type 0} (r : Database → Result (A × Database)) (n : ℤ)
    → ((k m : ℤ) (db : Database)
        → Balanced everything k m db
        → Saves (Balanced everything k m) (r db))
    → (db : Database) → Booked n db
    → Saves (Booked n) (r db)
Booked-of_Balanced {A} r n keep db b = join (r db) (
    keep (ledger everything db) (reported db) db
      (record { sound = b.sound; balance = λ i. ledger everything db; reports = λ i. reported db }))
  where
    join :
        (x : Result (A × Database))
        → Saves (Balanced everything (ledger everything db) (reported db)) x
        → Saves (Booked n) x
    join (ok (a, d)) h = record {
      sound = h.sound;
      books =
          ap (λ (t : ℤ). t +ℤ reported d) h.balance
          ∙ ap (λ (t : ℤ). ledger everything db +ℤ t) h.reports
          ∙ b.books;
    }
    join (raised f) h = tt

module _ (env : Env) (tenant_id : Uuid) (actor : User) where
  -- Creating a transfer of at least one unit keeps the ledger of every choice of variants (what is
  -- on hand and on the road), the reports and soundness in the committed database, whether the call
  -- succeeds or fails, provided that what other sessions commit keeps them.
  pub create_transfer-conserves :
      (request : TransferCreateRequest) (c : Uuid → Bool) (n m : ℤ) (db : Database)
      → pos 1 ≤ℤ request.quantity
      → Relies env (Balanced c n m)
      → Balanced c n m db
      → Balanced c n m (create_transfer env tenant_id actor request (start db)).1.committed
  create_transfer-conserves request c n m db h rely b =
      ((Keeps-create_transfer env rely (Balanced-mail c n m) tenant_id actor request
          (λ d. debit-Balanced env tenant_id actor request c n m d h)).at
        (start db) (b, b)).0

  -- Cancelling a transfer keeps the ledger of every choice of variants, the reports and soundness
  -- in the committed database, whether the call succeeds or fails, provided that what other sessions
  -- commit keeps them.
  pub cancel_transfer-conserves :
      (transfer_id : Uuid) (c : Uuid → Bool) (n m : ℤ) (db : Database)
      → Relies env (Balanced c n m)
      → Balanced c n m db
      → Balanced c n m (cancel_transfer env tenant_id actor transfer_id (start db)).1.committed
  cancel_transfer-conserves transfer_id c n m db rely b =
      ((Keeps-cancel_transfer env rely (Balanced-mail c n m) tenant_id actor transfer_id
          (restore-Balanced env tenant_id actor transfer_id c n m)).at
        (start db) (b, b)).0

  -- Confirming a transfer with at least one received unit, or with no number given, keeps the sum of
  -- what is on hand, on the road and reported missing, and soundness, in the committed database,
  -- whether the call succeeds or fails, provided that what other sessions commit keeps them.
  pub confirm_transfer-Booked :
      (transfer_id : Uuid) (request : TransferConfirmRequest) (n : ℤ) (db : Database)
      → ((r : ℤ) → request.received_quantity ≡ some r → pos 1 ≤ℤ r)
      → Relies env (Booked n)
      → Booked n db
      → Booked n (confirm_transfer env tenant_id actor transfer_id request (start db)).1.committed
  confirm_transfer-Booked transfer_id request n db valid rely b =
      ((Keeps-confirm_transfer env rely (Booked-mail n) tenant_id actor transfer_id request
          (λ d. credit-Booked env tenant_id actor transfer_id request n d valid)).at
        (start db) (b, b)).0

  create_transfer-Booked :
      (request : TransferCreateRequest) (n : ℤ) (db : Database)
      → pos 1 ≤ℤ request.quantity
      → Relies env (Booked n)
      → Booked n db
      → Booked n (create_transfer env tenant_id actor request (start db)).1.committed
  create_transfer-Booked request n db h rely b =
      ((Keeps-create_transfer env rely (Booked-mail n) tenant_id actor request (
          Booked-of_Balanced _ n
            (λ k m d. debit-Balanced env tenant_id actor request everything k m d h))).at
        (start db) (b, b)).0

  cancel_transfer-Booked :
      (transfer_id : Uuid) (n : ℤ) (db : Database)
      → Relies env (Booked n)
      → Booked n db
      → Booked n (cancel_transfer env tenant_id actor transfer_id (start db)).1.committed
  cancel_transfer-Booked transfer_id n db rely b =
      ((Keeps-cancel_transfer env rely (Booked-mail n) tenant_id actor transfer_id
          (Booked-of_Balanced _ n (restore-Balanced env tenant_id actor transfer_id everything))).at
        (start db) (b, b)).0

perform-Booked :
    (n : ℤ) (c : Call)
    → IsValidOperation c.operation × Relies c.env (Booked n)
    → (db : Database) → Booked n db
    → Booked n (perform c.env c.tenant_id c.actor c.operation db)
perform-Booked n c h db b = by_operation c.operation h.0
  where
    by_operation :
        (o : Operation) → IsValidOperation o → Booked n (perform c.env c.tenant_id c.actor o db)
    by_operation (create request) valid =
        create_transfer-Booked c.env c.tenant_id c.actor request n db valid h.1 b
    by_operation (confirm id request) valid =
        confirm_transfer-Booked c.env c.tenant_id c.actor id request n db valid h.1 b
    by_operation (cancel id) valid = cancel_transfer-Booked c.env c.tenant_id c.actor id n db h.1 b

-- Whatever valid calls are served, in whatever order and with whatever outcome, from a sound
-- database: the units on hand, on the road and reported missing are together as many as before
-- (and primary keys stay unique, no stock is negative, every transfer moves at least one unit),
-- provided that the same holds of what other sessions commit.
pub serve-Booked :
    (cs : List Call) (n : ℤ) (db : Database)
    → All (λ (c : Call). IsValidOperation c.operation × Relies c.env (Booked n)) cs
    → Booked n db
    → Booked n (serve cs db)
serve-Booked cs n db h b = serve_induction (perform-Booked n) cs h db b

-- ===== src/Transfers/Retry.antt =====
-- `request_id` makes `create_transfer` idempotent.
use backend_project.Prelude.{
  Uuid, Bool, true, false, ◌≡◌, ◌∙◌, ◌⊎◌, sym, subst, refl, ◌&&◌, ◌==◌, ==-refl, str_eq, List, [],
  ◌∷◌, Option, some, none, arith, if◌then◌else◌, Bool-cases, inl, inr,
}
use text.Mathlib.TextPositions.{eq_refl}
use backend_project.Errors.{
  Fault, Result, ok, raised, app_exception, integrity_error, failure, invalid_transfer,
}
use backend_project.Models.{Database, User, StockTransfer, EmailJob, same_request, transfer_row}
use backend_project.Table.{select, one_or_none}
use backend_project.Table.Laws.{insert-ok}
use backend_project.Session.{
  Env, Outcome, accepted, rejected, failed, Session, start, pure, read, raise, continue,
  rollback_and_raise, ◌>>=◌,
}
use backend_project.Session.Keeps.{Gives, Gives-bind, Ends}
use backend_project.Session.Settle.{conclude, settle, transaction-settle}
use backend_project.EmailJobs.{created, queue_transfer_email}
use backend_project.EmailJobs.Sent.{queue_transfer_email-ok}
use backend_project.Transfers.{
  TransferCreateRequest, create_transfer, store_new, try_store, mail_created, on_create_fault,
  existing_or_raise, unless_existing,
}
use backend_project.Transfers.Bodies.{
  existing_transfer, new_transfer, debit, assert_tenant_entities_exist,
}

module _ (tenant_id : Uuid) (request : TransferCreateRequest) where
  abbrev asked : StockTransfer → Bool
  asked t = t.tenant_id == tenant_id && str_eq t.request_id request.request_id

  alone : (xs : List StockTransfer) → one_or_none xs ≡ ok none → xs ≡ []
  alone xs e = ground arith

  -- Once the request's transfer is stored it is the one that the request finds.
  existing-new :
      (db d : Database) (t : StockTransfer)
      → existing_transfer tenant_id request.request_id db ≡ ok none
      → d.stock_transfers ≡ t ∷ db.stock_transfers
      → t.tenant_id ≡ tenant_id
      → t.request_id ≡ request.request_id
      → existing_transfer tenant_id request.request_id d ≡ ok (some t)
  unfolding existing_transfer select
  existing-new db d t none_yet e own same = rw (e, own, same, ==-refl, eq_refl, alone _ none_yet)

module _ (env : Env) (tenant_id : Uuid) (actor : User) (request : TransferCreateRequest) where
  -- What `debit` and then the `try` statement leave.
  abbrev AddsOne : Database → StockTransfer × Bool → Database → Type 0
  AddsOne db (t, b) d =
      (d.stock_transfers ≡ t ∷ db.stock_transfers)
      × (t.tenant_id ≡ tenant_id)
      × (t.request_id ≡ request.request_id)
      × (b ≡ true)

  abbrev Found : StockTransfer × Bool → Session → Type 0
  Found (t, b) s = existing_transfer tenant_id request.request_id s.committed ≡ ok (some t)

  abbrev StoredOrFound : Database → StockTransfer × Bool → Session → Type 0
  StoredOrFound db (t, b) s = AddsOne db (t, b) s.working ⊎ (Found (t, b) s × (b ≡ false))

  debit-AddsOne :
      (db : Database)
      → Gives
          (AddsOne db)
          (debit env tenant_id actor request (new_transfer env tenant_id actor request) db)
  unfolding debit
  debit-AddsOne db = Gives-bind (AddsOne db) _ _ λ found p. Gives-bind (AddsOne db) _ _ λ source q.
      Gives-bind (AddsOne db) _ _ λ transfers r.
        ((insert-ok same_request _ db.stock_transfers transfers r).0, refl, refl, refl)

  after_race :
      (db : Database) (x : Result (Option StockTransfer)) (s : Session)
      → existing_transfer tenant_id request.request_id s.committed ≡ x
      → Ends (StoredOrFound db) (continue x (existing_or_raise integrity_error) s)
  unfolding ◌>>=◌
  after_race db (ok none) s e = tt
  after_race db (ok (some t)) s e = inr (e, refl)
  after_race db (raised f) s e = tt

  on_create_fault-Ends :
      (db : Database) (fault : Fault) (s : Session)
      → Ends (StoredOrFound db) (on_create_fault tenant_id request fault s)
  unfolding ◌>>=◌ rollback_and_raise
  on_create_fault-Ends db (app_exception status code) s = tt
  on_create_fault-Ends db integrity_error s =
      after_race db _ (record s { working = s.committed }) refl
  on_create_fault-Ends db _ s = tt

  settle-Ends :
      (db : Database) (x : Result ((StockTransfer × Bool) × Database))
      → Gives (AddsOne db) x
      → Ends (StoredOrFound db) (settle env (on_create_fault tenant_id request) (start db) x)
  settle-Ends db (ok ((t, b), d)) h = by_outcome (env.outcome d)
    where
      by_outcome :
          (o : Outcome)
          → Ends
              (StoredOrFound db)
              (conclude env (on_create_fault tenant_id request) (start db) o (t, b) d)
      by_outcome accepted = inl h
      by_outcome (rejected e) = on_create_fault-Ends db integrity_error _
      by_outcome failed = on_create_fault-Ends db failure _
  settle-Ends db (raised f) h = on_create_fault-Ends db f (start db)

  try_store-Ends :
      (db : Database) → Ends (StoredOrFound db) (try_store env tenant_id actor request (start db))
  unfolding try_store
  try_store-Ends db =
      subst (Ends (StoredOrFound db))
        (sym (transaction-settle env (on_create_fault tenant_id request) (start db) _))
        (settle-Ends db _ (debit-AddsOne db))

  mail_created-Ends :
      (db : Database) (t : StockTransfer) (b : Bool) (s : Session)
      → existing_transfer tenant_id request.request_id db ≡ ok none
      → StoredOrFound db (t, b) s
      → Ends Found (mail_created env actor (t, b) s)
  unfolding mail_created ◌>>=◌
  mail_created-Ends db t false s none_yet (inl h) = absurd (cc h.3)
  mail_created-Ends db t false s none_yet (inr h) = h.0
  mail_created-Ends db t true s none_yet (inr h) = absurd (cc h.1)
  mail_created-Ends db t true s none_yet (inl h) =
      mailed (queue_transfer_email env 3 actor t created s) refl
    where
      mailed :
          (x : Result EmailJob × Session)
          → queue_transfer_email env 3 actor t created s ≡ x
          → Ends Found (continue x.0 (λ _. pure (t, true)) x.1)
      mailed (ok job, s') e =
          existing-new tenant_id request db s'.committed t none_yet
            (queue_transfer_email-ok env 3 actor t created s s' job e ∙ h.0) h.1 h.2
      mailed (raised f, s') e = tt

  store_new-Ends :
      (db : Database)
      → existing_transfer tenant_id request.request_id db ≡ ok none
      → Ends Found (store_new env tenant_id actor request (start db))
  unfolding store_new ◌>>=◌
  store_new-Ends db none_yet = checked (assert_tenant_entities_exist tenant_id request db)
    where
      stored :
          (x : Result (StockTransfer × Bool) × Session)
          → Ends (StoredOrFound db) x
          → Ends Found (continue x.0 (mail_created env actor) x.1)
      stored (ok (t, b), s) h = mail_created-Ends db t b s none_yet h
      stored (raised f, s) h = tt

      checked :
          (x : Result (Unit {0}))
          → Ends Found (
              continue x
                (λ _. try_store env tenant_id actor request >>= mail_created env actor)
                (start db))
      checked (ok u) = stored (try_store env tenant_id actor request (start db)) (try_store-Ends db)
      checked (raised f) = tt

  create_transfer-Ends :
      (db : Database) → Ends Found (create_transfer env tenant_id actor request (start db))
  unfolding create_transfer ◌>>=◌
  create_transfer-Ends db = by_places (request.from_warehouse_id == request.to_warehouse_id)
    where
      by_lookup :
          (x : Result (Option StockTransfer))
          → existing_transfer tenant_id request.request_id db ≡ x
          → Ends Found (
              continue x
                (λ o. unless_existing o (store_new env tenant_id actor request))
                (start db))
      by_lookup (ok none) e = store_new-Ends db e
      by_lookup (ok (some t)) e = e
      by_lookup (raised f) e = tt

      by_places :
          (x : Bool)
          → Ends Found (
              (if x
                  then raise (app_exception 400 invalid_transfer)
                  else (read (existing_transfer tenant_id request.request_id) >>= λ o.
                      unless_existing o (store_new env tenant_id actor request)))
                (start db))
      by_places true = tt
      by_places false = by_lookup (existing_transfer tenant_id request.request_id db) refl

  create_transfer-existing :
      (env' : Env) (actor' : User) (db : Database) (t : StockTransfer)
      → (request.from_warehouse_id == request.to_warehouse_id) ≡ false
      → existing_transfer tenant_id request.request_id db ≡ ok (some t)
      → create_transfer env' tenant_id actor' request (start db) ≡ (ok (t, false), start db)
  unfolding create_transfer ◌>>=◌
  create_transfer-existing env' actor' db t apart e = rw (apart, e)

  -- A transfer from a warehouse to itself is refused.
  create_transfer-same_place :
      (db : Database)
      → (request.from_warehouse_id == request.to_warehouse_id) ≡ true
      → create_transfer env tenant_id actor request (start db)
        ≡ (raised (app_exception 400 invalid_transfer), start db)
  unfolding create_transfer ◌>>=◌
  create_transfer-same_place db same = rw same

  apart_of_ok :
      (db : Database) (x : StockTransfer × Bool) (s : Session)
      → create_transfer env tenant_id actor request (start db) ≡ (ok x, s)
      → (request.from_warehouse_id == request.to_warehouse_id) ≡ false
  apart_of_ok db x s e = elim (Bool-cases (request.from_warehouse_id == request.to_warehouse_id)) [
    | inl same ↦ cc (create_transfer-same_place db same, e)
    | inr apart ↦ apart
  ]

  -- If a call returns the transfer `t`, new or old, then the same request made again, by any user of
  -- the tenant and in any environment, returns `t` as an old one, commits nothing and queues nothing.
  pub create_transfer-retry :
      (env' : Env) (actor' : User) (db : Database) (t : StockTransfer) (b : Bool) (s : Session)
      → create_transfer env tenant_id actor request (start db) ≡ (ok (t, b), s)
      → create_transfer env' tenant_id actor' request (start s.committed)
        ≡ (ok (t, false), start s.committed)
  create_transfer-retry env' actor' db t b s e =
      create_transfer-existing env' actor' s.committed t (apart_of_ok db (t, b) s e)
        (subst (Ends Found) e (create_transfer-Ends db))

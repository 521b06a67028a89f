-- ===== src/Transfers/Terminal.antt =====
-- A transfer that is not on the road any more is final: no operation changes its row.
use backend_project.Prelude.{All, Uuid, ◌≡◌, ◌≢◌, ◌∙◌, ap, inr, List}
use backend_project.Models.{Database, User, StockTransfer, transfer_row, same_request}
use backend_project.Models.Enums.{in_transit}
use backend_project.Table.Laws.{
  UniqueKeys, Has, Has-unique, update-Has_ne, update-UniqueKeys, insert-ok, insert-UniqueKeys,
}
use backend_project.Session.{Env, start}
use backend_project.Session.Keeps.{Relies, Saves, Saves-bind}
use backend_project.EmailJobs.Keeps.{IgnoresMail}
use backend_project.Transfers.Bodies.{
  TransferCreateRequest, TransferConfirmRequest, new_transfer, debit, credit, restore,
}
use backend_project.Transfers.Services.{
  Keeps-create_transfer, Keeps-confirm_transfer, Keeps-cancel_transfer,
}
use backend_project.Transfers.History.{
  Operation, Call, create, confirm, cancel, perform, serve, serve_induction,
}
use backend_project.Transfers.Lookup.{get_transfer-Has, in_transit_of_guard}

-- The transfer `t` is stored, under a key of its own.
pub record Stores (t : StockTransfer) (db : Database) : Type 0 where
  pub keys : UniqueKeys db.stock_transfers
  pub stored : Has t db.stock_transfers

pub Stores-mail : (t : StockTransfer) → IgnoresMail (Stores t)
Stores-mail t = record { any_mail = λ db jobs h. record { keys = h.keys; stored = h.stored } }

module _ (t : StockTransfer) (finished : t.status ≢ in_transit) where
  -- An open transfer is another one.
  other_key :
      (u : StockTransfer) (db : Database)
      → Stores t db
      → Has u db.stock_transfers
      → u.status ≡ in_transit
      → t.id ≢ u.id
  other_key u db h m open_state e = finished (
      ap (λ (x : StockTransfer). x.status) (Has-unique t u db.stock_transfers h.keys h.stored m e)
      ∙ open_state)

  module _ (env : Env) (tenant_id : Uuid) (actor : User) where
    pub debit-Stores :
        (request : TransferCreateRequest) (db : Database)
        → Stores t db
        → Saves
            (Stores t)
            (debit env tenant_id actor request (new_transfer env tenant_id actor request) db)
    unfolding debit
    debit-Stores request db h = Saves-bind (Stores t) _ _ λ found p.
        Saves-bind (Stores t) _ _ λ source q. Saves-bind (Stores t) _ _ λ transfers r.
          let transfer = new_transfer env tenant_id actor request in
          let (front, _) = insert-ok same_request transfer db.stock_transfers transfers r in
          record {
            keys = insert-UniqueKeys same_request transfer db.stock_transfers transfers r h.keys;
            stored = rw front (inr h.stored);
          }

    pub credit-Stores :
        (transfer_id : Uuid) (request : TransferConfirmRequest) (db : Database)
        → Stores t db
        → Saves (Stores t) (credit env tenant_id actor transfer_id request db)
    unfolding credit
    credit-Stores transfer_id request db h = Saves-bind (Stores t) _ _ λ transfer p.
        Saves-bind (Stores t) _ _ λ guard q. Saves-bind (Stores t) _ _ λ _ q'.
          Saves-bind (Stores t) _ _ λ found r. Saves-bind (Stores t) _ _ λ variant r'.
            Saves-bind (Stores t) _ _ λ items r''.
              let (listed, _) = get_transfer-Has tenant_id transfer_id db transfer p in
              let open_state = in_transit_of_guard transfer _ guard q in
              let ne = other_key transfer db h listed open_state in
              record {
                keys = update-UniqueKeys _ db.stock_transfers h.keys;
                stored = update-Has_ne t _ db.stock_transfers ne h.stored;
              }

    pub restore-Stores :
        (transfer_id : Uuid) (db : Database)
        → Stores t db
        → Saves (Stores t) (restore env tenant_id actor transfer_id db)
    unfolding restore
    restore-Stores transfer_id db h = Saves-bind (Stores t) _ _ λ transfer p.
        Saves-bind (Stores t) _ _ λ guard q. Saves-bind (Stores t) _ _ λ source r.
          let (listed, _) = get_transfer-Has tenant_id transfer_id db transfer p in
          let open_state = in_transit_of_guard transfer _ guard q in
          let ne = other_key transfer db h listed open_state in
          record {
            keys = update-UniqueKeys _ db.stock_transfers h.keys;
            stored = update-Has_ne t _ db.stock_transfers ne h.stored;
          }

perform-Stores :
    (t : StockTransfer)
    → t.status ≢ in_transit
    → (c : Call) → Relies c.env (Stores t)
    → (db : Database) → Stores t db
    → Stores t (perform c.env c.tenant_id c.actor c.operation db)
perform-Stores t finished c rely db h = by_operation c.operation
  where
    by_operation : (o : Operation) → Stores t (perform c.env c.tenant_id c.actor o db)
    by_operation (create request) =
        ((Keeps-create_transfer c.env rely (Stores-mail t) c.tenant_id c.actor request
            (debit-Stores t finished c.env c.tenant_id c.actor request)).at
          (start db) (h, h)).0
    by_operation (confirm id request) =
        ((Keeps-confirm_transfer c.env rely (Stores-mail t) c.tenant_id c.actor id request
            (credit-Stores t finished c.env c.tenant_id c.actor id request)).at
          (start db) (h, h)).0
    by_operation (cancel id) =
        ((Keeps-cancel_transfer c.env rely (Stores-mail t) c.tenant_id c.actor id
            (restore-Stores t finished c.env c.tenant_id c.actor id)).at
          (start db) (h, h)).0

-- A stored transfer that is not in transit is final: whatever calls are served, by whatever tenant,
-- its row stays as it is, under a key that stays unique, provided that other sessions leave it too.
pub serve-keeps_finished :
    (t : StockTransfer) (cs : List Call) (db : Database)
    → t.status ≢ in_transit
    → All (λ (c : Call). Relies c.env (Stores t)) cs
    → Stores t db
    → Stores t (serve cs db)
serve-keeps_finished t cs db finished h stored =
    serve_induction (perform-Stores t finished) cs h db stored

-- ===== src/AuditTrail/Bodies.antt =====
-- Each transaction of the services logs the change that it makes to the stock.
use backend_project.Prelude.{
  Uuid, Bool, ℤ, pos, ◌+ℤ◌, ◌-ℤ◌, ◌==ℤ◌, ◌≡◌, ◌∙◌, ap, refl, int_laws, Bool-cases, inl, inr, List,
  ◌++◌, some,
}
use backend_project.Errors.{ok}
use backend_project.Models.{Database, User, StockTransfer, AuditLog, ProductVariant, item_row}
use backend_project.Models.Enums.{completed}
use backend_project.Table.Laws.{total, one_or_none-Has, one-Has, total-update, update-UniqueKeys}
use backend_project.Session.{Env}
use backend_project.Session.Keeps.{Saves, Saves-bind}
use backend_project.Stock.{or_quantity, or_item, new_item}
use backend_project.Stock.Laws.{held, store_item-total, store_item-UniqueKeys}
use backend_project.Transfers.Create.{in_stock-ok}
use backend_project.Transfers.Bodies.{
  TransferCreateRequest, TransferConfirmRequest, new_transfer, debit, credit, restore, discrepancy,
}
use backend_project.Procurement.Requests.{PurchaseOrderReceiveRequest}
use backend_project.Procurement.Bodies.{receive}
use backend_project.Inventory.Adjust.{InventoryAdjustRequest, adjust}
use backend_project.AuditTrail.{logged, Explained}

-- The sum moves from `w` to `w'`, and so does the log.
explain :
    (on on' w w' n logs logs' : ℤ)
    → on' +ℤ w ≡ on +ℤ w'
    → logs' ≡ (w' -ℤ w) +ℤ logs
    → on ≡ n +ℤ logs
    → on' ≡ n +ℤ logs'
explain on on' w w' n logs logs' p q e = grind int_laws

pub silent : (n : ℤ) → pos 0 +ℤ n ≡ n
silent n = omega int_laws

discrepancy-silent :
    (c : Uuid → Bool) (env : Env) (tenant_id : Uuid) (actor : User) (t : StockTransfer) (r : ℤ)
    (logs : List AuditLog)
    → total (logged c) (discrepancy env tenant_id actor t r ++ logs) ≡ total (logged c) logs
discrepancy-silent c env tenant_id actor t r logs = elim (Bool-cases (r ==ℤ t.quantity)) [
  | inl e ↦ rw e refl
  | inr e ↦ rw e (silent _)
]

module _ (c : Uuid → Bool) (n : ℤ) (env : Env) (tenant_id : Uuid) (actor : User) where
  pub debit-Explained :
      (request : TransferCreateRequest) (db : Database)
      → Explained c n db
      → Saves
          (Explained c n)
          (debit env tenant_id actor request (new_transfer env tenant_id actor request) db)
  unfolding debit
  debit-Explained request db h = Saves-bind (Explained c n) _ _ λ found p.
      Saves-bind (Explained c n) _ _ λ source q. Saves-bind (Explained c n) _ _ λ transfers r.
        let debited = record source { quantity = source.quantity -ℤ request.quantity } in
        let (f, enough) = in_stock-ok request.quantity found source q in
        let (at, _) = one_or_none-Has _ source db.inventory_items (p ∙ ap ok f) in
        record {
          keys = update-UniqueKeys debited db.inventory_items h.keys;
          trail =
              explain _ _ (held c source) (held c debited) n _ _
                (total-update (held c) source debited db.inventory_items h.keys at refl)
                (ap (λ x. (held c debited -ℤ held c source) +ℤ x) (silent _)) h.trail;
        }

  pub restore-Explained :
      (transfer_id : Uuid) (db : Database)
      → Explained c n db
      → Saves (Explained c n) (restore env tenant_id actor transfer_id db)
  unfolding restore
  restore-Explained transfer_id db h = Saves-bind (Explained c n) _ _ λ transfer p.
      Saves-bind (Explained c n) _ _ λ guard q. Saves-bind (Explained c n) _ _ λ source r.
        let restored = record source { quantity = source.quantity +ℤ transfer.quantity } in
        let (at, _) = one-Has _ source db.inventory_items r in
        record {
          keys = update-UniqueKeys restored db.inventory_items h.keys;
          trail =
              explain _ _ (held c source) (held c restored) n _ _
                (total-update (held c) source restored db.inventory_items h.keys at refl)
                (ap (λ x. (held c restored -ℤ held c source) +ℤ x) (silent _)) h.trail;
        }

  pub credit-Explained :
      (transfer_id : Uuid) (request : TransferConfirmRequest) (db : Database)
      → Explained c n db
      → Saves (Explained c n) (credit env tenant_id actor transfer_id request db)
  unfolding credit
  credit-Explained transfer_id request db h = Saves-bind (Explained c n) _ _ λ transfer p.
      Saves-bind (Explained c n) _ _ λ guard q. Saves-bind (Explained c n) _ _ λ guard' q'.
        Saves-bind (Explained c n) _ _ λ found r. Saves-bind (Explained c n) _ _ λ variant r'.
          Saves-bind (Explained c n) _ _ λ items s.
            let received = or_quantity request.received_quantity transfer.quantity in
            let fresh =
              new_item env tenant_id transfer.variant_id transfer.to_warehouse_id variant in
            let item = or_item found fresh in
            let credited = record item { quantity = item.quantity +ℤ received } in
            let done = record transfer {
              status = completed;
              confirmed_by = some actor.id;
              completed_at = some env.now;
            } in
            record {
              keys = store_item-UniqueKeys credited db.inventory_items items found s h.keys;
              trail =
                  explain _ _ (held c item) (held c credited) n _ _
                    (store_item-total _ fresh credited db.inventory_items items c found r refl refl
                      h.keys s)
                    (discrepancy-silent c env tenant_id actor done received _
                      ∙ ap (λ x. (held c credited -ℤ held c item) +ℤ x) (silent _))
                    h.trail;
            }

  pub receive-Explained :
      (order_id : Uuid) (request : PurchaseOrderReceiveRequest) (db : Database)
      → Explained c n db
      → Saves (Explained c n) (receive env tenant_id actor order_id request db)
  unfolding receive
  receive-Explained order_id request db h = Saves-bind (Explained c n) _ _ λ order p.
      Saves-bind (Explained c n) _ _ λ guard q. Saves-bind (Explained c n) _ _ λ guard' q'.
        Saves-bind (Explained c n) _ _ λ variant r. Saves-bind (Explained c n) _ _ λ warehouse r'.
          Saves-bind (Explained c n) _ _ λ found r''. Saves-bind (Explained c n) _ _ λ items s.
            let quantity = or_quantity request.received_quantity order.quantity in
            let fresh = new_item env tenant_id order.variant_id order.warehouse_id variant in
            let item = or_item found fresh in
            let credited = record item { quantity = item.quantity +ℤ quantity } in
            record {
              keys = store_item-UniqueKeys credited db.inventory_items items found s h.keys;
              trail =
                  explain _ _ (held c item) (held c credited) n _ _
                    (store_item-total _ fresh credited db.inventory_items items c found r'' refl
                      refl h.keys s)
                    (ap (λ x. (held c credited -ℤ held c item) +ℤ x) (silent _)) h.trail;
            }

  pub adjust-Explained :
      (request : InventoryAdjustRequest) (variant : ProductVariant) (db : Database)
      → Explained c n db
      → Saves (Explained c n) (adjust env tenant_id actor request variant db)
  unfolding adjust
  adjust-Explained request variant db h = Saves-bind (Explained c n) _ _ λ found p.
      Saves-bind (Explained c n) _ _ λ guard q. Saves-bind (Explained c n) _ _ λ guard' q'.
        Saves-bind (Explained c n) _ _ λ items s.
          let fresh = new_item env tenant_id request.variant_id request.warehouse_id variant in
          let item = or_item found fresh in
          let adjusted = record item { quantity = item.quantity +ℤ request.quantity_delta } in
          record {
            keys = store_item-UniqueKeys adjusted db.inventory_items items found s h.keys;
            trail =
                explain _ _ (held c item) (held c adjusted) n _ _
                  (store_item-total _ fresh adjusted db.inventory_items items c found p refl refl
                    h.keys s)
                  refl h.trail;
          }

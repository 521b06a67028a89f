-- ===== src/Transfers/Confirm.antt =====
-- `confirm_transfer` takes the units off the road; what does not arrive is reported.
use backend_project.Prelude.{
  Uuid, ℤ, pos, ◌+ℤ◌, ◌-ℤ◌, ◌==ℤ◌, ◌≤ℤ◌, ◌≡◌, ◌∙◌, ap, refl, int_laws, arith, Option, some, none,
  List, ◌++◌, ==ℤ→≡, Bool-cases, inl, inr,
}
use backend_project.Models.{Database, User, StockTransfer, AuditLog, item_row, transfer_row}
use backend_project.Models.Enums.{in_transit, completed}
use backend_project.Table.Laws.{All-Has, total, total-update, update-All, update-UniqueKeys}
use backend_project.Session.{Env}
use backend_project.Session.Keeps.{Saves, Saves-bind}
use backend_project.Stock.{or_quantity, or_item, new_item}
use backend_project.Stock.Laws.{
  store_item-total, store_item-UniqueKeys, store_item-All, or_item_nonneg,
}
use backend_project.Transfers.Bodies.{TransferConfirmRequest, discrepancy, credit}
use backend_project.Transfers.Ledger.{moving, missing, everything, Booked, two_silent}
use backend_project.Transfers.Lookup.{get_transfer-Has, in_transit_of_guard, within_of_guard}

-- The units that arrive, with those reported missing, are the units that were on the road.
arrival :
    (on on' road road' rep rep' w w' m q r n : ℤ)
    → on' +ℤ w ≡ on +ℤ w'
    → w' ≡ w +ℤ r
    → road' +ℤ m ≡ road +ℤ pos 0
    → m ≡ q
    → rep' ≡ (q -ℤ r) +ℤ rep
    → on +ℤ road +ℤ rep ≡ n
    → on' +ℤ road' +ℤ rep' ≡ n
arrival on on' road road' rep rep' w w' m q r n a b c l d e = grind int_laws

none_missing : (a b n : ℤ) → a ≡ b → n ≡ (b -ℤ a) +ℤ n
none_missing a b n e = grind int_laws

discrepancy-missing :
    (env : Env) (tenant_id : Uuid) (actor : User) (t : StockTransfer) (r : ℤ) (logs : List AuditLog)
    → total missing (discrepancy env tenant_id actor t r ++ logs)
      ≡ (t.quantity -ℤ r) +ℤ total missing logs
discrepancy-missing env tenant_id actor t r logs = elim (Bool-cases (r ==ℤ t.quantity)) [
  | inl e ↦ rw e (none_missing r t.quantity _ (==ℤ→≡ r t.quantity e))
  | inr e ↦ rw e refl
]

or_quantity_bound :
    (o : Option ℤ) (q : ℤ)
    → ((r : ℤ) → o ≡ some r → pos 1 ≤ℤ r)
    → pos 1 ≤ℤ q
    → pos 1 ≤ℤ or_quantity o q
or_quantity_bound none q h k = k
or_quantity_bound (some r) q h k = ground (arith, h r refl)

moved : (t : StockTransfer) → t.status ≡ in_transit → moving everything t ≡ t.quantity
moved t e = ground arith

module _ (env : Env) (tenant_id : Uuid) (actor : User) (transfer_id : Uuid)
    (request : TransferConfirmRequest) where
  pub credit-Booked :
      (n : ℤ) (db : Database)
      → ((r : ℤ) → request.received_quantity ≡ some r → pos 1 ≤ℤ r)
      → Booked n db
      → Saves (Booked n) (credit env tenant_id actor transfer_id request db)
  unfolding credit
  credit-Booked n db valid b = Saves-bind (Booked n) _ _ λ transfer p.
      Saves-bind (Booked n) _ _ λ guard q. Saves-bind (Booked n) _ _ λ guard' q'.
        Saves-bind (Booked n) _ _ λ found r. Saves-bind (Booked n) _ _ λ variant r'.
          Saves-bind (Booked n) _ _ λ items r''.
            let received = or_quantity request.received_quantity transfer.quantity in
            let fresh =
              new_item env tenant_id transfer.variant_id transfer.to_warehouse_id variant in
            let destination = or_item found fresh in
            let credited = record destination { quantity = destination.quantity +ℤ received } in
            let done = record transfer {
              status = completed;
              confirmed_by = some actor.id;
              completed_at = some env.now;
            } in
            let (listed, _) = get_transfer-Has tenant_id transfer_id db transfer p in
            let open_state = in_transit_of_guard transfer _ guard q in
            let within = within_of_guard transfer.quantity received _ guard' q' in
            let sent = All-Has _ transfer db.stock_transfers b.sound.sent listed in
            let some_units =
              or_quantity_bound request.received_quantity transfer.quantity valid sent in
            let nonneg = or_item_nonneg _ fresh db.inventory_items found r refl b.sound.stocked in
            record {
              sound = record {
                item_keys =
                    store_item-UniqueKeys credited db.inventory_items items found r''
                      b.sound.item_keys;
                transfer_keys = update-UniqueKeys done db.stock_transfers b.sound.transfer_keys;
                stocked =
                    store_item-All credited db.inventory_items items _ found r'' b.sound.stocked
                      (omega int_laws);
                sent = update-All _ done db.stock_transfers b.sound.sent sent;
              };
              books =
                  arrival _ _ _ _ _ _ _ _ _ transfer.quantity received n
                    (store_item-total _ fresh credited db.inventory_items items everything found r
                      refl refl b.sound.item_keys r'')
                    refl
                    (total-update (moving everything) transfer done db.stock_transfers
                      b.sound.transfer_keys listed refl)
                    (moved transfer open_state)
                    (discrepancy-missing env tenant_id actor done received _
                      ∙ ap (λ x. (transfer.quantity -ℤ received) +ℤ x) (two_silent _))
                    b.books;
            }

-- ===== src/Transfers/Cancel.antt =====
-- `cancel_transfer` puts the units on the road back on the shelf.
use backend_project.Prelude.{Uuid, ℤ, pos, ◌+ℤ◌, ◌≡◌, ◌∙◌, refl, int_laws, arith, Bool, some}
use backend_project.Models.{Database, User, InventoryItem, StockTransfer, item_row, transfer_row}
use backend_project.Models.Enums.{in_transit, cancelled}
use backend_project.Table.Laws.{All-Has, one-Has, total-update, update-All, update-UniqueKeys}
use backend_project.Session.{Env}
use backend_project.Session.Keeps.{Saves, Saves-bind}
use backend_project.Stock.Laws.{held, stocked_at-variant}
use backend_project.Transfers.Bodies.{restore}
use backend_project.Transfers.Ledger.{moving, Balanced, balance_shift, two_silent}
use backend_project.Transfers.Lookup.{get_transfer-Has, in_transit_of_guard}

held-restore :
    (c : Uuid → Bool) (i : InventoryItem) (t : StockTransfer)
    → i.variant_id ≡ t.variant_id
    → t.status ≡ in_transit
    → held c (record i { quantity = i.quantity +ℤ t.quantity }) +ℤ pos 0 ≡ held c i +ℤ moving c t
held-restore c i t same on_road = grind int_laws

not_moving : (c : Uuid → Bool) (t : StockTransfer) → t.status ≡ cancelled → moving c t ≡ pos 0
not_moving c t e = ground arith

module _ (env : Env) (tenant_id : Uuid) (actor : User) (transfer_id : Uuid) where
  pub restore-Balanced :
      (c : Uuid → Bool) (n m : ℤ) (db : Database)
      → Balanced c n m db
      → Saves (Balanced c n m) (restore env tenant_id actor transfer_id db)
  unfolding restore
  restore-Balanced c n m db b = Saves-bind (Balanced c n m) _ _ λ transfer p.
      Saves-bind (Balanced c n m) _ _ λ guard q. Saves-bind (Balanced c n m) _ _ λ source r.
        let restored = record source { quantity = source.quantity +ℤ transfer.quantity } in
        let done = record transfer { status = cancelled; completed_at = some env.now } in
        let (listed, _) = get_transfer-Has tenant_id transfer_id db transfer p in
        let open_state = in_transit_of_guard transfer _ guard q in
        let (at, here) = one-Has _ source db.inventory_items r in
        let same = stocked_at-variant tenant_id transfer.variant_id _ source here in
        let sent = All-Has _ transfer db.stock_transfers b.sound.sent listed in
        let stock = All-Has _ source db.inventory_items b.sound.stocked at in
        record {
          sound = record {
            item_keys = update-UniqueKeys restored db.inventory_items b.sound.item_keys;
            transfer_keys = update-UniqueKeys done db.stock_transfers b.sound.transfer_keys;
            stocked = update-All _ restored db.inventory_items b.sound.stocked (omega int_laws);
            sent = update-All _ done db.stock_transfers b.sound.sent sent;
          };
          balance =
              balance_shift _ _ _ _ (held c source) (held c restored) (moving c transfer)
                (moving c done) n
                (total-update (held c) source restored db.inventory_items b.sound.item_keys at refl)
                (total-update (moving c) transfer done db.stock_transfers b.sound.transfer_keys
                  listed refl)
                (rw (not_moving c done refl) (held-restore c source transfer same open_state))
                b.balance;
          reports = two_silent _ ∙ b.reports;
        }

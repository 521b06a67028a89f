-- ===== src/Transfers/Create.antt =====
-- The debit of `create_transfer` moves units from a shelf to the road.
use backend_project.Prelude.{
  Uuid, ℤ, pos, ◌+ℤ◌, ◌-ℤ◌, ◌≤ℤ◌, ◌≡◌, ◌∙◌, ap, refl, int_laws, arith, Bool, List, Option, some,
}
use backend_project.Errors.{ok}
use backend_project.Models.{
  Database, User, InventoryItem, StockTransfer, item_row, transfer_row, same_request,
}
use backend_project.Models.Enums.{in_transit}
use backend_project.Table.{insert}
use backend_project.Table.Laws.{
  one_or_none-Has, total, total-update, total-insert, update-All, update-UniqueKeys,
  insert-UniqueKeys, insert-All,
}
use backend_project.Session.{Env}
use backend_project.Session.Keeps.{Saves, Saves-bind}
use backend_project.Stock.Laws.{held, stocked_at-variant}
use backend_project.Transfers.Bodies.{TransferCreateRequest, new_transfer, in_stock, debit}
use backend_project.Transfers.Ledger.{moving, Balanced, balance_shift, two_silent}

pub in_stock-ok :
    (q : ℤ) (found : Option InventoryItem) (item : InventoryItem)
    → in_stock q found ≡ ok item
    → (found ≡ some item) × (q ≤ℤ item.quantity)
unfolding in_stock
in_stock-ok q found item e = ground arith

-- What leaves the shelf is on the road.
held-debit :
    (c : Uuid → Bool) (i : InventoryItem) (t : StockTransfer)
    → i.variant_id ≡ t.variant_id
    → t.status ≡ in_transit
    → held c (record i { quantity = i.quantity -ℤ t.quantity }) +ℤ moving c t ≡ held c i +ℤ pos 0
held-debit c i t same on_road = grind int_laws

insert_shift :
    (clash : StockTransfer → StockTransfer → Bool) (w : StockTransfer → ℤ) (t : StockTransfer)
    (xs ys : List StockTransfer)
    → insert clash t xs ≡ ok ys
    → total w ys +ℤ pos 0 ≡ total w xs +ℤ w t
insert_shift clash w t xs ys e = grind (int_laws, total-insert w clash t xs ys e)

module _ (env : Env) (tenant_id : Uuid) (actor : User) (request : TransferCreateRequest) where
  pub debit-Balanced :
      (c : Uuid → Bool) (n m : ℤ) (db : Database)
      → pos 1 ≤ℤ request.quantity
      → Balanced c n m db
      → Saves
          (Balanced c n m)
          (debit env tenant_id actor request (new_transfer env tenant_id actor request) db)
  unfolding debit
  debit-Balanced c n m db h b = Saves-bind (Balanced c n m) _ _ λ found p.
      Saves-bind (Balanced c n m) _ _ λ source q. Saves-bind (Balanced c n m) _ _ λ transfers r.
        let transfer = new_transfer env tenant_id actor request in
        let debited = record source { quantity = source.quantity -ℤ request.quantity } in
        let (f, enough) = in_stock-ok request.quantity found source q in
        let (at, here) = one_or_none-Has _ source db.inventory_items (p ∙ ap ok f) in
        let same = stocked_at-variant tenant_id request.variant_id _ source here in
        record {
          sound = record {
            item_keys = update-UniqueKeys debited db.inventory_items b.sound.item_keys;
            transfer_keys =
                insert-UniqueKeys same_request transfer db.stock_transfers transfers r
                  b.sound.transfer_keys;
            stocked = update-All _ debited db.inventory_items b.sound.stocked (omega int_laws);
            sent = insert-All _ same_request transfer db.stock_transfers transfers r b.sound.sent h;
          };
          balance =
              balance_shift _ _ _ _ (held c source) (held c debited) (pos 0) (moving c transfer) n
                (total-update (held c) source debited db.inventory_items b.sound.item_keys at refl)
                (insert_shift same_request (moving c) transfer db.stock_transfers transfers r)
                (held-debit c source transfer same refl) b.balance;
          reports = two_silent _ ∙ b.reports;
        }

-- ===== src/Procurement/Receipt.antt =====
-- What receiving a purchase order adds to the stock.
use backend_project.Prelude.{
  List, Uuid, Bool, ℤ, pos, ◌+ℤ◌, ◌≤ℤ◌, ◌≡◌, refl, Option, none, some, int_laws, if◌then◌else◌,
}
use backend_project.Errors.{ok}
use backend_project.Models.{Database, User, PurchaseOrder, InventoryItem, item_row}
use backend_project.Models.Enums.{received}
use backend_project.Table.{select, one_or_none}
use backend_project.Table.Laws.{total, UniqueKeys, one_or_none-Has}
use backend_project.Stock.{new_item, or_item, or_quantity, stocked_at}
use backend_project.Stock.Laws.{held, store_item-total, stocked_at-variant}
use backend_project.Session.{Env, Session, start}
use backend_project.Session.Keeps.{Gives, Gives-bind}
use backend_project.Session.Settle.{transaction-Ends, Ends-ok}
use backend_project.Transfers.Lookup.{within_of_guard}
use backend_project.Procurement.{receive_purchase_order}
use backend_project.Procurement.Requests.{PurchaseOrderReceiveRequest}
use backend_project.Procurement.Bodies.{receive}

-- The units of a variant, if it is among the chosen ones.
abbrev pub chosen : (Uuid → Bool) → Uuid → ℤ → ℤ
chosen c v q = if c v then q else pos 0

-- The order is received, and its units, at most as many as ordered, are in stock.
pub record Received (c : Uuid → Bool) (before : ℤ) (asked : Option ℤ) (o : PurchaseOrder)
    (db : Database) : Type 0 where
  pub status : o.status ≡ received
  pub bound : or_quantity asked o.quantity ≤ℤ o.quantity
  pub credit :
      total (held c) db.inventory_items
      ≡ before +ℤ chosen c o.variant_id (or_quantity asked o.quantity)

credited : (on on' w w' g : ℤ) → on' +ℤ w ≡ on +ℤ w' → w' ≡ w +ℤ g → on' ≡ on +ℤ g
credited on on' w w' g p q = grind int_laws

held-credit :
    (c : Uuid → Bool) (i : InventoryItem) (v : Uuid) (q : ℤ)
    → i.variant_id ≡ v
    → held c (record i { quantity = i.quantity +ℤ q }) ≡ held c i +ℤ chosen c v q
held-credit c i v q e = grind int_laws

or_item-variant :
    (tenant_id variant_id warehouse_id : Uuid) (fresh : InventoryItem) (items : List InventoryItem)
    (found : Option InventoryItem)
    → one_or_none (select (stocked_at tenant_id variant_id warehouse_id) items) ≡ ok found
    → fresh.variant_id ≡ variant_id
    → (or_item found fresh).variant_id ≡ variant_id
or_item-variant tenant_id variant_id warehouse_id fresh items none e same = same
or_item-variant tenant_id variant_id warehouse_id fresh items (some i) e same =
    stocked_at-variant tenant_id variant_id warehouse_id i (one_or_none-Has _ i items e).1

module _ (env : Env) (tenant_id : Uuid) (actor : User) (order_id : Uuid)
    (request : PurchaseOrderReceiveRequest) (c : Uuid → Bool) where
  receive-Gives :
      (db : Database)
      → UniqueKeys db.inventory_items
      → Gives
          (Received c (total (held c) db.inventory_items) request.received_quantity)
          (receive env tenant_id actor order_id request db)
  unfolding receive
  receive-Gives db keys =
      let Q = Received c (total (held c) db.inventory_items) request.received_quantity in
      Gives-bind Q _ _ λ order p. Gives-bind Q _ _ λ guard q. Gives-bind Q _ _ λ guard' q'.
        Gives-bind Q _ _ λ variant r. Gives-bind Q _ _ λ warehouse r'. Gives-bind Q _ _ λ found r''.
          Gives-bind Q _ _ λ items s.
            let quantity = or_quantity request.received_quantity order.quantity in
            let fresh = new_item env tenant_id order.variant_id order.warehouse_id variant in
            let item = or_item found fresh in
            let after = record item { quantity = item.quantity +ℤ quantity } in
            record {
              status = refl;
              bound = within_of_guard order.quantity quantity _ guard' q';
              credit =
                  credited _ _ (held c item) (held c after) (chosen c order.variant_id quantity)
                    (store_item-total _ fresh after db.inventory_items items c found r'' refl refl
                      keys s)
                    (held-credit c item order.variant_id quantity (
                      or_item-variant tenant_id order.variant_id order.warehouse_id fresh
                        db.inventory_items found r'' refl));
            }

  -- If receiving a purchase order returns an order, then this order is received, the received units
  -- (those of the request, or all) are at most those ordered, and the committed stock of every choice
  -- of variants is what it was, plus these units if the order's variant is among them; item keys have
  -- to be unique before.
  pub receive_purchase_order-credits :
      (db : Database) (order : PurchaseOrder) (s : Session)
      → UniqueKeys db.inventory_items
      → receive_purchase_order env tenant_id actor order_id request (start db) ≡ (ok order, s)
      → Received c (total (held c) db.inventory_items) request.received_quantity order s.committed
  unfolding receive_purchase_order
  receive_purchase_order-credits db order s keys e =
      Ends-ok _ _ order s (transaction-Ends _ env db _ (receive-Gives db keys)) e

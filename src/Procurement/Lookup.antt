-- ===== src/Procurement/Lookup.antt =====
-- What the queries and guards of the procurement service tell when they do not raise.
use backend_project.Prelude.{Uuid, ◌≡◌, ◌≢◌, ◌∙◌, ap, ◌==◌, ◌&&◌, true, not, ◌⊎◌, arith}
use backend_project.Errors.{Fault, ok, raise_if}
use backend_project.Models.{Database, PurchaseOrder}
use backend_project.Models.Enums.{
  PurchaseOrderStatus, submitted, confirmed, received, order_status_eq,
}
use backend_project.Table.Laws.{Has, one_or_none-Has}
use backend_project.Transfers.Lookup.{>>=-eq-ok, or_raise-ok}
use backend_project.Procurement.Bodies.{get_order, is_receivable}

-- The order that `_get_purchase_order` returns is in the table, has the id and is the tenant's.
pub get_order-Has :
    (tenant_id order_id : Uuid) (db : Database) (o : PurchaseOrder)
    → get_order tenant_id order_id db ≡ ok o
    → Has o db.purchase_orders × ((o.id == order_id && o.tenant_id == tenant_id) ≡ true)
unfolding get_order
get_order-Has tenant_id order_id db o e =
    let (found, p, q) = >>=-eq-ok _ _ o e in
    one_or_none-Has _ o db.purchase_orders (p ∙ ap ok (or_raise-ok _ found o q))

module _ (status : PurchaseOrderStatus) (e : Fault) (u : Unit {0}) where
  -- Past a guard for one status the order has it.
  pub status_of_guard :
      (wanted : PurchaseOrderStatus)
      → raise_if (not (order_status_eq status wanted)) e ≡ ok u
      → status ≡ wanted
  status_of_guard wanted h = ground arith

  pub receivable_of_guard :
      raise_if (not (is_receivable status)) e ≡ ok u → (status ≡ submitted) ⊎ (status ≡ confirmed)
  receivable_of_guard h = ground arith

  pub not_received_of_guard :
      raise_if (order_status_eq status received) e ≡ ok u → status ≢ received
  not_received_of_guard h q = ground arith

-- ===== src/Procurement/Progress.antt =====
-- The row of a purchase order only moves along its lifecycle, whatever the operations do.
use backend_project.Prelude.{
  Uuid, some, ◌≡◌, ◌≢◌, refl, subst, inl, inr, ◌⊎◌, List, ◌==◌, Bool-cases, ==-iff, false, arith,
}
use backend_project.Models.{Database, User, PurchaseOrder, Supplier, order_row, same_number}
use backend_project.Models.Enums.{submitted, confirmed, received}
use backend_project.Table.{update}
use backend_project.Table.Laws.{
  UniqueKeys, Has, Has-unique, update-Has_ne, update-Has_self, update-UniqueKeys, insert-ok,
  insert-UniqueKeys,
}
use backend_project.Session.{Env}
use backend_project.Session.Keeps.{Saves, Saves-bind}
use backend_project.EmailJobs.Keeps.{IgnoresMail}
use backend_project.Procurement.Requests.{
  SupplierCreateRequest, SupplierUpdateRequest, PurchaseOrderCreateRequest,
  PurchaseOrderReceiveRequest,
}
use backend_project.Procurement.Bodies.{
  new_order, add_supplier, change_supplier, add_order, submit, confirm, receive, cancel,
}
use backend_project.Procurement.Lifecycle.{
  Step, submits, confirms, receives_submitted, receives_confirmed, cancels, Reaches, then,
}
use backend_project.Procurement.Lookup.{
  get_order-Has, status_of_guard, receivable_of_guard, not_received_of_guard,
}

-- The order that was `t` is still there, in a state that `t` leads to.
pub record Progress (t : PurchaseOrder) (orders : List PurchaseOrder) : Type 0 where
  pub keys : UniqueKeys orders
  pub row : PurchaseOrder
  pub listed : Has row orders
  pub reached : Reaches t row

abbrev pub Progresses : PurchaseOrder → Database → Type 0
Progresses t db = Progress t db.purchase_orders

pub Progresses-mail : (t : PurchaseOrder) → IgnoresMail (Progresses t)
Progresses-mail t = record { any_mail = λ db jobs h. h }

module _ (t : PurchaseOrder) where
  advance :
      (o after : PurchaseOrder) (orders : List PurchaseOrder)
      → o.id ≡ after.id
      → Has o orders
      → Step o after
      → Progress t orders
      → Progress t (update after orders)
  advance o after orders same m step h = elim (Bool-cases (h.row.id == o.id)) [
    | inl q ↦
        let e = Has-unique h.row o orders h.keys h.listed m ((==-iff _ _).0 q) in
        record {
          keys = update-UniqueKeys after orders h.keys;
          row = after;
          listed = update-Has_self o after orders same m;
          reached = then o after (subst (λ x. Reaches t x) e h.reached) step;
        }
    | inr q ↦ record {
      keys = update-UniqueKeys after orders h.keys;
      row = h.row;
      listed = update-Has_ne h.row after orders (apart h.row q) h.listed;
      reached = h.reached;
    }
  ]
    where
      apart : (r : PurchaseOrder) → (r.id == o.id) ≡ false → r.id ≢ after.id
      apart r q e = ground arith

  module _ (env : Env) (tenant_id : Uuid) where
    pub add_supplier-Progresses :
        (request : SupplierCreateRequest) (db : Database)
        → Progresses t db
        → Saves (Progresses t) (add_supplier env tenant_id request db)
    unfolding add_supplier
    add_supplier-Progresses request db h = Saves-bind (Progresses t) _ _ λ suppliers p. h

    module _ (actor : User) where
      pub add_order-Progresses :
          (request : PurchaseOrderCreateRequest) (db : Database)
          → Progresses t db
          → Saves (Progresses t) (add_order env tenant_id actor request db)
      unfolding add_order
      add_order-Progresses request db h = Saves-bind (Progresses t) _ _ λ orders r.
          let order = new_order env tenant_id actor request in
          let (front, _) = insert-ok same_number order db.purchase_orders orders r in
          record {
            keys = insert-UniqueKeys same_number order db.purchase_orders orders r h.keys;
            row = h.row;
            listed = rw front (inr h.listed);
            reached = h.reached;
          }

      pub submit-Progresses :
          (order_id : Uuid) (db : Database)
          → Progresses t db
          → Saves (Progresses t) (submit env tenant_id actor order_id db)
      unfolding submit
      submit-Progresses order_id db h = Saves-bind (Progresses t) _ _ λ order p.
          Saves-bind (Progresses t) _ _ λ guard q. Saves-bind (Progresses t) _ _ λ supplier r.
            Saves-bind (Progresses t) _ _ λ warehouse r'.
              Saves-bind (Progresses t) _ _ λ variant r''.
                advance order _ db.purchase_orders refl
                  (get_order-Has tenant_id order_id db order p).0
                  (submits env.now (status_of_guard order.status _ guard _ q)) h

      pub confirm-Progresses :
          (order_id : Uuid) (db : Database)
          → Progresses t db
          → Saves (Progresses t) (confirm env tenant_id actor order_id db)
      unfolding confirm
      confirm-Progresses order_id db h = Saves-bind (Progresses t) _ _ λ order p.
          Saves-bind (Progresses t) _ _ λ guard q.
            advance order _ db.purchase_orders refl (get_order-Has tenant_id order_id db order p).0
              (confirms env.now (status_of_guard order.status _ guard _ q)) h

      receives :
          (o : PurchaseOrder)
          → (o.status ≡ submitted) ⊎ (o.status ≡ confirmed)
          → Step o (record o { status = received; received_at = some env.now })
      receives o (inl e) = receives_submitted env.now e
      receives o (inr e) = receives_confirmed env.now e

      pub receive-Progresses :
          (order_id : Uuid) (request : PurchaseOrderReceiveRequest) (db : Database)
          → Progresses t db
          → Saves (Progresses t) (receive env tenant_id actor order_id request db)
      unfolding receive
      receive-Progresses order_id request db h = Saves-bind (Progresses t) _ _ λ order p.
          Saves-bind (Progresses t) _ _ λ guard q. Saves-bind (Progresses t) _ _ λ bound q'.
            Saves-bind (Progresses t) _ _ λ variant r. Saves-bind (Progresses t) _ _ λ warehouse r'.
              Saves-bind (Progresses t) _ _ λ found r''. Saves-bind (Progresses t) _ _ λ items s.
                advance order _ db.purchase_orders refl
                  (get_order-Has tenant_id order_id db order p).0
                  (receives order (receivable_of_guard order.status _ guard q)) h

      pub cancel-Progresses :
          (order_id : Uuid) (db : Database)
          → Progresses t db
          → Saves (Progresses t) (cancel env tenant_id actor order_id db)
      unfolding cancel
      cancel-Progresses order_id db h = Saves-bind (Progresses t) _ _ λ order p.
          Saves-bind (Progresses t) _ _ λ guard q.
            advance order _ db.purchase_orders refl (get_order-Has tenant_id order_id db order p).0
              (cancels (not_received_of_guard order.status _ guard q)) h

  pub change_supplier-Progresses :
      (s : Supplier) (request : SupplierUpdateRequest) (db : Database)
      → Progresses t db
      → Saves (Progresses t) (change_supplier s request db)
  unfolding change_supplier
  change_supplier-Progresses s request db h = Saves-bind (Progresses t) _ _ λ guard q. h

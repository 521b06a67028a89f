-- ===== src/Procurement/Service.antt =====
-- What any sequence of calls of the procurement service does to an order.
use backend_project.Prelude.{All, ◌≡◌, ◌⊎◌, inl, inr, subst, List}
use backend_project.Models.{Database, PurchaseOrder}
use backend_project.Models.Enums.{PurchaseOrderStatus, received}
use backend_project.Session.{start}
use backend_project.Session.Keeps.{Relies}
use backend_project.Table.Laws.{Has}
use backend_project.Procurement.Lifecycle.{received-Reaches, cancelled-Reaches, Reaches}
use backend_project.Procurement.Progress.{
  Progresses, Progresses-mail, add_supplier-Progresses, change_supplier-Progresses,
  add_order-Progresses, submit-Progresses, confirm-Progresses, receive-Progresses,
  cancel-Progresses,
}
use backend_project.Procurement.Services.{
  Keeps-create_supplier, Keeps-update_supplier, Keeps-create_purchase_order,
  Keeps-submit_purchase_order, Keeps-confirm_purchase_order, Keeps-receive_purchase_order,
  Keeps-cancel_purchase_order,
}
use backend_project.Procurement.History.{
  Operation, Call, add_supplier, change_supplier, create, submit, confirm, receive, cancel, perform,
  serve, serve_induction,
}

perform-Progresses :
    (t : PurchaseOrder) (c : Call)
    → Relies c.env (Progresses t)
    → (db : Database) → Progresses t db
    → Progresses t (perform c.env c.tenant_id c.actor c.operation db)
perform-Progresses t c rely db h = by_operation c.operation
  where
    by_operation : (o : Operation) → Progresses t (perform c.env c.tenant_id c.actor o db)
    by_operation (add_supplier request) =
        ((Keeps-create_supplier c.env rely c.tenant_id request
            (add_supplier-Progresses t c.env c.tenant_id request)).at
          (start db) (h, h)).0
    by_operation (change_supplier id request) =
        ((Keeps-update_supplier c.env rely c.tenant_id id request
            (λ s. change_supplier-Progresses t s request)).at
          (start db) (h, h)).0
    by_operation (create request) =
        ((Keeps-create_purchase_order c.env rely c.tenant_id c.actor request
            (add_order-Progresses t c.env c.tenant_id c.actor request)).at
          (start db) (h, h)).0
    by_operation (submit id) =
        ((Keeps-submit_purchase_order c.env rely c.tenant_id c.actor (Progresses-mail t) id
            (submit-Progresses t c.env c.tenant_id c.actor id)).at
          (start db) (h, h)).0
    by_operation (confirm id) =
        ((Keeps-confirm_purchase_order c.env rely c.tenant_id c.actor id
            (confirm-Progresses t c.env c.tenant_id c.actor id)).at
          (start db) (h, h)).0
    by_operation (receive id request) =
        ((Keeps-receive_purchase_order c.env rely c.tenant_id c.actor id request
            (receive-Progresses t c.env c.tenant_id c.actor id request)).at
          (start db) (h, h)).0
    by_operation (cancel id) =
        ((Keeps-cancel_purchase_order c.env rely c.tenant_id c.actor id
            (cancel-Progresses t c.env c.tenant_id c.actor id)).at
          (start db) (h, h)).0

-- Whatever calls are served, by whatever tenant and with whatever outcome: a purchase order that was
-- `t` is still stored, under a key that stays unique, as a row that `t` reaches by steps of the
-- lifecycle (draft to submitted to confirmed to received, submitted to received, and anything but
-- received to cancelled, where a step changes the status and its own time stamp and no other field),
-- provided that the same holds of what other sessions commit.
pub serve-Progresses :
    (t : PurchaseOrder) (cs : List Call) (db : Database)
    → All (λ (c : Call). Relies c.env (Progresses t)) cs
    → Progresses t db
    → Progresses t (serve cs db)
serve-Progresses t cs db h p = serve_induction (perform-Progresses t) cs h db p

-- A stored purchase order that is received or cancelled is final, where keys are unique: whatever
-- calls are served, its row stays in the table as it is, provided that other sessions move it along its lifecycle only.
pub serve-keeps_closed :
    (t : PurchaseOrder) (cs : List Call) (db : Database)
    → (t.status ≡ received) ⊎ (t.status ≡ PurchaseOrderStatus.cancelled)
    → All (λ (c : Call). Relies c.env (Progresses t)) cs
    → Progresses t db
    → Has t (serve cs db).purchase_orders
serve-keeps_closed t cs db closed h p =
    let q = serve-Progresses t cs db h p in
    subst (λ u. Has u (serve cs db).purchase_orders) (same q.row closed q.reached) q.listed
  where
    same :
        (u : PurchaseOrder)
        → (t.status ≡ received) ⊎ (t.status ≡ PurchaseOrderStatus.cancelled)
        → Reaches t u
        → u ≡ t
    same u (inl e) r = received-Reaches t u e r
    same u (inr e) r = cancelled-Reaches t u e r

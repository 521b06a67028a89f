-- ===== src/Procurement/History.antt =====
-- The procurement service as a whole: a sequence of calls, each from a session of its own.
use backend_project.Prelude.{All, Uuid, List, [], ◌∷◌}
use backend_project.Models.{Database, User}
use backend_project.Session.{Env, start}
use backend_project.Procurement.{
  create_supplier, update_supplier, create_purchase_order, submit_purchase_order,
  confirm_purchase_order, receive_purchase_order, cancel_purchase_order,
}
use backend_project.Procurement.Requests.{
  SupplierCreateRequest, SupplierUpdateRequest, PurchaseOrderCreateRequest,
  PurchaseOrderReceiveRequest,
}

-- One call that can change the database; a deactivation is an update.
pub data Operation : Type 0 where
  add_supplier : SupplierCreateRequest → Operation
  change_supplier : Uuid → SupplierUpdateRequest → Operation
  create : PurchaseOrderCreateRequest → Operation
  submit confirm : Uuid → Operation
  receive : Uuid → PurchaseOrderReceiveRequest → Operation
  cancel : Uuid → Operation

pub record Call : Type 0 where
  pub env : Env
  pub tenant_id : Uuid
  pub actor : User
  pub operation : Operation

-- The database that a call leaves.
abbrev pub perform : Env → Uuid → User → Operation → Database → Database
perform env tenant_id actor (add_supplier request) db =
    (create_supplier env tenant_id request (start db)).1.committed
perform env tenant_id actor (change_supplier id request) db =
    (update_supplier env tenant_id id request (start db)).1.committed
perform env tenant_id actor (create request) db =
    (create_purchase_order env tenant_id actor request (start db)).1.committed
perform env tenant_id actor (submit id) db =
    (submit_purchase_order env tenant_id actor id (start db)).1.committed
perform env tenant_id actor (confirm id) db =
    (confirm_purchase_order env tenant_id actor id (start db)).1.committed
perform env tenant_id actor (receive id request) db =
    (receive_purchase_order env tenant_id actor id request (start db)).1.committed
perform env tenant_id actor (cancel id) db =
    (cancel_purchase_order env tenant_id actor id (start db)).1.committed

unfoldable pub serve : List Call → Database → Database
serve [] db = db
serve (c ∷ cs) db = serve cs (perform c.env c.tenant_id c.actor c.operation db)

pub serve_induction :
    {P : Database → Type 0} {Q : Call → Type 0}
    → ((c : Call)
        → Q c
        → (db : Database) → P db
        → P (perform c.env c.tenant_id c.actor c.operation db))
    → (cs : List Call) → All Q cs
    → (db : Database) → P db
    → P (serve cs db)
unfolding serve
serve_induction step [] h db p = p
serve_induction step (c ∷ cs) h db p = serve_induction step cs h.1 _ (step c h.0 db p)

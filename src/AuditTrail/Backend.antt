-- ===== src/AuditTrail/Backend.antt =====
-- The services that change inventory items, as one: a sequence of calls, each from a session of its own.
use backend_project.Prelude.{All, Option, Uuid, Bool, ℤ, List, [], ◌∷◌}
use backend_project.Models.{Database, User}
use backend_project.Session.{Env, start}
use backend_project.Session.Keeps.{Relies}
use backend_project.Transfers.History as Transfers
use backend_project.Transfers.Services.{
  Keeps-create_transfer, Keeps-confirm_transfer, Keeps-cancel_transfer,
}
use backend_project.Procurement.History as Procurement
use backend_project.Procurement.Services.{
  Keeps-create_supplier, Keeps-update_supplier, Keeps-create_purchase_order,
  Keeps-submit_purchase_order, Keeps-confirm_purchase_order, Keeps-receive_purchase_order,
  Keeps-cancel_purchase_order,
}
use backend_project.Inventory.{adjust_inventory}
use backend_project.Inventory.Adjust.{InventoryAdjustRequest}
use backend_project.Inventory.Services.{Keeps-adjust_inventory}
use backend_project.Decay.{run_decay_cycle}
use backend_project.Decay.Cycle.{Settings, Locks}
use backend_project.Decay.Services.{Keeps-run_decay_cycle}
use backend_project.AuditTrail.Decay.{decay-Explained}
use backend_project.AuditTrail.{Explained, Explained-mail}
use backend_project.AuditTrail.Bodies.{
  debit-Explained, credit-Explained, restore-Explained, receive-Explained, adjust-Explained,
}
use backend_project.AuditTrail.Silent.{
  add_supplier-Explained, change_supplier-Explained, add_order-Explained, submit-Explained,
  confirm-Explained, cancel-Explained,
}

pub data Operation : Type 0 where
  transfer : Transfers.Operation → Operation
  procure : Procurement.Operation → Operation
  adjust : InventoryAdjustRequest → Operation
  decay_cycle : Settings → Locks → Option Uuid → Operation

pub record Call : Type 0 where
  pub env : Env
  pub tenant_id : Uuid
  pub actor : User
  pub operation : Operation

-- The database that a call leaves.
abbrev pub perform : Env → Uuid → User → Operation → Database → Database
perform env tenant_id actor (transfer o) db = Transfers.perform env tenant_id actor o db
perform env tenant_id actor (procure o) db = Procurement.perform env tenant_id actor o db
perform env tenant_id actor (adjust request) db =
    (adjust_inventory env tenant_id actor request (start db)).1.committed
perform env tenant_id actor (decay_cycle settings locks only) db =
    (run_decay_cycle env settings locks only (start db)).1.committed

unfoldable pub serve_all : List Call → Database → Database
serve_all [] db = db
serve_all (c ∷ cs) db = serve_all cs (perform c.env c.tenant_id c.actor c.operation db)

module _ (c : Uuid → Bool) (n : ℤ) (env : Env) (tenant_id : Uuid) (actor : User)
    (rely : Relies env (Explained c n)) (db : Database) (h : Explained c n db) where
  transfer-Explained :
      (o : Transfers.Operation) → Explained c n (Transfers.perform env tenant_id actor o db)
  transfer-Explained (Transfers.create request) =
      ((Keeps-create_transfer env rely (Explained-mail c n) tenant_id actor request
          (debit-Explained c n env tenant_id actor request)).at
        (start db) (h, h)).0
  transfer-Explained (Transfers.confirm id request) =
      ((Keeps-confirm_transfer env rely (Explained-mail c n) tenant_id actor id request
          (credit-Explained c n env tenant_id actor id request)).at
        (start db) (h, h)).0
  transfer-Explained (Transfers.cancel id) =
      ((Keeps-cancel_transfer env rely (Explained-mail c n) tenant_id actor id
          (restore-Explained c n env tenant_id actor id)).at
        (start db) (h, h)).0

  procure-Explained :
      (o : Procurement.Operation) → Explained c n (Procurement.perform env tenant_id actor o db)
  procure-Explained (Procurement.add_supplier request) =
      ((Keeps-create_supplier env rely tenant_id request
          (add_supplier-Explained c n env tenant_id actor request)).at
        (start db) (h, h)).0
  procure-Explained (Procurement.change_supplier id request) =
      ((Keeps-update_supplier env rely tenant_id id request
          (λ s. change_supplier-Explained c n env tenant_id actor s request)).at
        (start db) (h, h)).0
  procure-Explained (Procurement.create request) =
      ((Keeps-create_purchase_order env rely tenant_id actor request
          (add_order-Explained c n env tenant_id actor request)).at
        (start db) (h, h)).0
  procure-Explained (Procurement.submit id) =
      ((Keeps-submit_purchase_order env rely tenant_id actor (Explained-mail c n) id
          (submit-Explained c n env tenant_id actor id)).at
        (start db) (h, h)).0
  procure-Explained (Procurement.confirm id) =
      ((Keeps-confirm_purchase_order env rely tenant_id actor id
          (confirm-Explained c n env tenant_id actor id)).at
        (start db) (h, h)).0
  procure-Explained (Procurement.receive id request) =
      ((Keeps-receive_purchase_order env rely tenant_id actor id request
          (receive-Explained c n env tenant_id actor id request)).at
        (start db) (h, h)).0
  procure-Explained (Procurement.cancel id) =
      ((Keeps-cancel_purchase_order env rely tenant_id actor id
          (cancel-Explained c n env tenant_id actor id)).at
        (start db) (h, h)).0

  perform-Explained : (o : Operation) → Explained c n (perform env tenant_id actor o db)
  perform-Explained (transfer o) = transfer-Explained o
  perform-Explained (procure o) = procure-Explained o
  perform-Explained (adjust request) =
      ((Keeps-adjust_inventory env rely (Explained-mail c n) tenant_id actor request
          (adjust-Explained c n env tenant_id actor request)).at
        (start db) (h, h)).0
  perform-Explained (decay_cycle settings locks only) =
      ((Keeps-run_decay_cycle env rely (Explained-mail c n) settings locks only
          (λ before h users. decay-Explained c n env settings users locks only _)).at
        (start db) (h, h)).0

-- Whatever calls of the transfer, procurement and inventory services and runs of the decay cycle are
-- served, in whatever order and with whatever outcome: for every choice of variants, the stock is what it was plus the changes
-- that the audit log has recorded since (each the quantity after less the quantity before), and the
-- keys of the items stay unique, provided that the same holds of what other sessions commit.
pub serve_all-Explained :
    (c : Uuid → Bool) (n : ℤ) (cs : List Call) (db : Database)
    → All (λ (call : Call). Relies call.env (Explained c n)) cs
    → Explained c n db
    → Explained c n (serve_all cs db)
unfolding serve_all
serve_all-Explained c n [] db rely h = h
serve_all-Explained c n (call ∷ cs) db rely h =
    serve_all-Explained c n cs _ rely.1
      (perform-Explained c n call.env call.tenant_id call.actor rely.0 db h call.operation)

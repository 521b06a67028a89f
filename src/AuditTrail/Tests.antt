-- ===== src/AuditTrail/Tests.antt =====
-- The audit trail of a day in the sample shop.
use backend_project.Prelude.{none, pos, negsuc, [], ◌∷◌, List, refl, ◌+ℤ◌}
use backend_project.Transfers.Ledger.{everything}
use backend_project.Transfers.History as Transfers
use backend_project.Procurement.History as Procurement
use backend_project.Inventory.Adjust.{InventoryAdjustRequest, damage}
use backend_project.Samples.{calm, calm_relies, admin, draft_order, buying}
use backend_project.AuditTrail.{Explained}
use backend_project.AuditTrail.Backend.{
  Call, Operation, transfer, procure, adjust, serve_all, serve_all-Explained,
}

abbrev by_admin : Operation → Call
by_admin o = record { env = calm; tenant_id = 1; actor = admin; operation = o }

abbrev broken : InventoryAdjustRequest
broken = record {
  variant_id = 20;
  warehouse_id = 10;
  quantity_delta = negsuc 5;
  reason = damage;
  note = none;
}

abbrev day : List Call
day =
    by_admin (adjust broken)
    ∷ by_admin (transfer (Transfers.confirm 50 (record { received_quantity = none })))
    ∷ by_admin (procure (Procurement.submit 70))
    ∷ by_admin (procure (Procurement.receive 70 (record { received_quantity = none })))
    ∷ []

buying-Explained : Explained everything (pos 10) (buying draft_order)
unfolding ◌+ℤ◌
buying-Explained = record { keys = (tt, tt); trail = refl }

serve_all-Explained_example : Explained everything (pos 10) (serve_all day (buying draft_order))
serve_all-Explained_example =
    serve_all-Explained everything (pos 10) day (buying draft_order)
      (calm_relies _, (calm_relies _, (calm_relies _, (calm_relies _, tt)))) buying-Explained

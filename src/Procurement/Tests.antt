-- ===== src/Procurement/Tests.antt =====
-- The theorems on purchase orders, at an order of the sample shop.
use backend_project.Prelude.{◌≡◌, ◌+ℤ◌, some, pos, [], ◌∷◌, List, inl, inr, refl}
use backend_project.Models.{PurchaseOrder}
use backend_project.Models.Enums.{submitted, received, cancelled}
use backend_project.Errors
use backend_project.Errors.{Result, ok}
use backend_project.Session.{Session, start, transaction, ◌>>=◌}
use backend_project.Table.{select, update}
use backend_project.Stock.{get_warehouse, get_variant}
use backend_project.Transfers.Ledger.{everything}
use backend_project.Procurement.{receive_purchase_order}
use backend_project.Procurement.Requests.{PurchaseOrderReceiveRequest}
use backend_project.Procurement.Bodies
use backend_project.Procurement.Receipt.{Received, receive_purchase_order-credits}
use backend_project.Table.Laws.{Has}
use backend_project.Samples.{calm, calm_relies, admin, draft_order, buying}
use backend_project.Procurement.History.{Call, Operation, submit, receive, cancel, serve}
use backend_project.Procurement.Lifecycle.{here}
use backend_project.Procurement.Progress.{Progress, Progresses}
use backend_project.Procurement.Service.{serve-Progresses, serve-keeps_closed}

abbrev by_admin : Operation → Call
by_admin o = record { env = calm; tenant_id = 1; actor = admin; operation = o }

-- Submitted, eleven of the twelve units received, and then cancelled in vain.
abbrev day : List Call
day =
    by_admin (submit 70)
    ∷ by_admin (receive 70 (record { received_quantity = some (pos 11) }))
    ∷ by_admin (cancel 70)
    ∷ []

listed : (o : PurchaseOrder) → Progress o (o ∷ [])
listed o = record { keys = (tt, tt); row = o; listed = inl refl; reached = here }

serve-Progresses_example : Progresses draft_order (serve day (buying draft_order))
serve-Progresses_example =
    serve-Progresses draft_order day (buying draft_order)
      (calm_relies _, (calm_relies _, (calm_relies _, tt))) (listed draft_order)

abbrev cancelled_order : PurchaseOrder
cancelled_order = record draft_order { status = cancelled }

serve-keeps_closed_example :
    Has cancelled_order (serve day (buying cancelled_order)).purchase_orders
serve-keeps_closed_example =
    serve-keeps_closed cancelled_order day (buying cancelled_order) (inr refl)
      (calm_relies _, (calm_relies _, (calm_relies _, tt))) (listed cancelled_order)

abbrev submitted_order : PurchaseOrder
submitted_order = record draft_order { status = submitted; submitted_at = some 95 }

abbrev eleven : PurchaseOrderReceiveRequest
eleven = record { received_quantity = some (pos 11) }

abbrev receipt : Result PurchaseOrder × Session
receipt = receive_purchase_order calm 1 admin 70 eleven (start (buying submitted_order))

abbrev received_order : PurchaseOrder
received_order = record submitted_order { status = received; received_at = some 100 }

receipt-received : receipt ≡ (ok received_order, receipt.1)
unfolding receive_purchase_order Bodies.receive Bodies.get_order get_warehouse get_variant select
    update transaction ◌>>=◌ Errors.◌>>=◌
receipt-received = refl

receive_purchase_order-credits_example :
    Received everything (pos 10) (some (pos 11)) received_order receipt.1.committed
unfolding ◌+ℤ◌
receive_purchase_order-credits_example =
    receive_purchase_order-credits calm 1 admin 70 eleven everything (buying submitted_order)
      received_order receipt.1 (tt, tt) receipt-received

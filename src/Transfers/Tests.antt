-- ===== src/Transfers/Tests.antt =====
-- The transfer service on the sample shop, and the theorems at such inputs.
use backend_project.Prelude.{
  pos, ◌+ℤ◌, ◌-ℤ◌, ◌≡◌, refl, none, some, [], ◌∷◌, arith, true, false, Bool, List, inl, ◌≤ℤ◌,
}
use backend_project.Errors
use backend_project.Errors.{Result, ok}
use backend_project.Models.{StockTransfer}
use backend_project.Models.Enums.{completed}
use backend_project.Session.{Session, start, transaction, ◌>>=◌}
use backend_project.Table.{select, insert, update}
use backend_project.EmailJobs.{create_email_job, queue_transfer_email}
use backend_project.Samples.{calm, calm_relies, admin, shop, sent_transfer}
use backend_project.Transfers.{
  TransferCreateRequest, TransferConfirmRequest, create_transfer, cancel_transfer,
}
use backend_project.Transfers.Bodies.{
  existing_transfer, assert_tenant_entities_exist, debit, new_transfer,
}
use backend_project.Transfers.Ledger.{IsSound, Balanced, Booked, everything}
use backend_project.Transfers.History.{Call, Operation, create, confirm, serve}
use backend_project.Transfers.Conservation.{
  create_transfer-conserves, cancel_transfer-conserves, serve-Booked,
}
use backend_project.Transfers.Retry.{create_transfer-retry}
use backend_project.Transfers.Terminal.{Stores, serve-keeps_finished}

-- Four units of the red shirt, from warehouse 10 to 11.
abbrev four : TransferCreateRequest
four = record {
  request_id = "t-2";
  from_warehouse_id = 10;
  to_warehouse_id = 11;
  variant_id = 20;
  quantity = pos 4;
  note = none;
}

-- Two of the three units have arrived.
abbrev two_arrived : TransferConfirmRequest
two_arrived = record { received_quantity = some (pos 2) }

shop-IsSound : IsSound shop
shop-IsSound = omega arith

shop-Balanced : Balanced everything (pos 13) (pos 0) shop
unfolding ◌+ℤ◌
shop-Balanced = record { sound = shop-IsSound; balance = refl; reports = refl }

shop-Booked : Booked (pos 13) shop
unfolding ◌+ℤ◌
shop-Booked = record { sound = shop-IsSound; books = refl }

create_transfer-conserves_example :
    Balanced everything
      (pos 13)
      (pos 0)
      (create_transfer calm 1 admin four (start shop)).1.committed
create_transfer-conserves_example =
    create_transfer-conserves calm 1 admin four everything (pos 13) (pos 0) shop (omega arith)
      (calm_relies _) shop-Balanced

cancel_transfer-conserves_example :
    Balanced everything (pos 13) (pos 0) (cancel_transfer calm 1 admin 50 (start shop)).1.committed
cancel_transfer-conserves_example =
    cancel_transfer-conserves calm 1 admin 50 everything (pos 13) (pos 0) shop (calm_relies _)
      shop-Balanced

abbrev by_admin : Operation → Call
by_admin o = record { env = calm; tenant_id = 1; actor = admin; operation = o }

-- The new transfer is made, the old one arrives short by one unit.
abbrev day : List Call
day = by_admin (create four) ∷ by_admin (confirm 50 two_arrived) ∷ []

two_arrived-bound : (r : _) → two_arrived.received_quantity ≡ some r → pos 1 ≤ℤ r
two_arrived-bound r e = ground arith

serve-Booked_example : Booked (pos 13) (serve day shop)
serve-Booked_example =
    serve-Booked day (pos 13) shop
      ((omega arith, calm_relies _), ((two_arrived-bound, calm_relies _), tt)) shop-Booked

abbrev first : Result (StockTransfer × Bool) × Session
first = create_transfer calm 1 admin four (start shop)

first-new : first ≡ (ok (new_transfer calm 1 admin four, true), first.1)
unfolding create_transfer existing_transfer assert_tenant_entities_exist debit select insert update
    transaction create_email_job queue_transfer_email ◌>>=◌ Errors.◌>>=◌ ◌-ℤ◌
first-new = refl

create_transfer-retry_example :
    create_transfer calm 1 admin four (start first.1.committed)
    ≡ (ok (new_transfer calm 1 admin four, false), start first.1.committed)
create_transfer-retry_example =
    create_transfer-retry calm 1 admin four calm admin shop (new_transfer calm 1 admin four) true
      first.1 first-new

-- The transfer 50, once it has arrived.
abbrev done : StockTransfer
done = record sent_transfer { status = completed }

serve-keeps_finished_example : Stores done (serve day (record shop { stock_transfers = done ∷ [] }))
serve-keeps_finished_example =
    serve-keeps_finished done day (record shop { stock_transfers = done ∷ [] }) (λ e. cc)
      (calm_relies _, (calm_relies _, tt)) (record { keys = (tt, tt); stored = inl refl })

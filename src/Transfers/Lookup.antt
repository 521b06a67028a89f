-- ===== src/Transfers/Lookup.antt =====
-- What the queries and guards of the transfer service tell when they do not raise.
use backend_project.Prelude.{
  Uuid, ℤ, ltb_ℤ, ◌≤ℤ◌, ◌≡◌, ◌∙◌, ap, refl, not, ◌==◌, ◌&&◌, arith, true, false, Bool, Option, some,
}
use backend_project.Errors
use backend_project.Errors.{Fault, Result, ok, raised, raise_if}
use backend_project.Models.{Database, StockTransfer}
use backend_project.Models.Enums.{in_transit, transfer_status_eq}
use backend_project.Table.{or_raise}
use backend_project.Table.Laws.{Has, one_or_none-Has}
use backend_project.Transfers.Bodies.{get_transfer}

pub >>=-eq-ok {ℓ κ} :
    {A : Type ℓ} {B : Type κ} (m : Result A) (f : A → Result B) (b : B)
    → Errors.◌>>=◌ m f ≡ ok b
    → (a : A) × (m ≡ ok a) × (f a ≡ ok b)
unfolding Errors.◌>>=◌
>>=-eq-ok (ok a) f b h = (a, refl, h)
>>=-eq-ok (raised e) f b h = cc

pub or_raise-ok : {A : Type 0} (e : Fault) (o : Option A) (a : A) → or_raise e o ≡ ok a → o ≡ some a
or_raise-ok e o a h = ground arith

-- The transfer that `_get_transfer` returns is in the table, has the id and is the tenant's.
pub get_transfer-Has :
    (tenant_id transfer_id : Uuid) (db : Database) (t : StockTransfer)
    → get_transfer tenant_id transfer_id db ≡ ok t
    → Has t db.stock_transfers × ((t.id == transfer_id && t.tenant_id == tenant_id) ≡ true)
unfolding get_transfer
get_transfer-Has tenant_id transfer_id db t e =
    let (found, p, q) = >>=-eq-ok _ _ t e in
    one_or_none-Has _ t db.stock_transfers (p ∙ ap ok (or_raise-ok _ found t q))

pub raise_if-ok : (b : Bool) (e : Fault) (u : Unit {0}) → raise_if b e ≡ ok u → b ≡ false
raise_if-ok b e u h = ground arith

-- Past the guard of `confirm_transfer` and `cancel_transfer` the transfer is on the road.
pub in_transit_of_guard :
    (t : StockTransfer) (e : Fault) (u : Unit {0})
    → raise_if (not (transfer_status_eq t.status in_transit)) e ≡ ok u
    → t.status ≡ in_transit
in_transit_of_guard t e u h = ground arith

-- Past the guard on the received quantity it is at most the quantity sent.
pub within_of_guard :
    (sent received : ℤ) (e : Fault) (u : Unit {0})
    → raise_if (ltb_ℤ sent received) e ≡ ok u
    → received ≤ℤ sent
within_of_guard sent received e u h = ground arith

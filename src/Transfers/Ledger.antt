-- ===== src/Transfers/Ledger.antt =====
-- The stock ledger of a choice of variants: what lies in the warehouses, what is on the road, and
-- what the audit log reports as missing on arrival.
use backend_project.Prelude.{
  Uuid, ℤ, pos, ◌+ℤ◌, ◌-ℤ◌, ◌≤ℤ◌, ◌&&◌, ◌≡◌, All, if◌then◌else◌, int_laws, true, Bool, Option, some,
}
use backend_project.Models.{Database, StockTransfer, AuditLog, Snapshot, item_row, transfer_row}
use backend_project.Models.Enums.{in_transit, transfer_status_eq}
use backend_project.Models.Rows.{expected_quantity, received_quantity}
use backend_project.Table.Laws.{UniqueKeys, total}
use backend_project.Stock.Laws.{held}

-- The units on the road, if the variant is among the chosen ones.
abbrev pub moving : (Uuid → Bool) → StockTransfer → ℤ
moving c t = if c t.variant_id && transfer_status_eq t.status in_transit then t.quantity else pos 0

-- The units that a log reports as missing.
abbrev pub shortfall : Option Snapshot → Option Snapshot → ℤ
shortfall (some (expected_quantity sent)) (some (received_quantity n)) = sent -ℤ n
shortfall _ _ = pos 0

abbrev pub missing : AuditLog → ℤ
missing log = shortfall log.before_state log.after_state

abbrev pub on_hand : (Uuid → Bool) → Database → ℤ
on_hand c db = total (held c) db.inventory_items

abbrev pub on_the_road : (Uuid → Bool) → Database → ℤ
on_the_road c db = total (moving c) db.stock_transfers

abbrev pub ledger : (Uuid → Bool) → Database → ℤ
ledger c db = on_hand c db +ℤ on_the_road c db

abbrev pub reported : Database → ℤ
reported db = total missing db.audit_logs

-- Primary keys are unique, no stock is negative, and every transfer moves at least one unit.
pub record IsSound (db : Database) : Type 0 where
  pub item_keys : UniqueKeys db.inventory_items
  pub transfer_keys : UniqueKeys db.stock_transfers
  pub stocked : All (λ i. pos 0 ≤ℤ i.quantity) db.inventory_items
  pub sent : All (λ t. pos 1 ≤ℤ t.quantity) db.stock_transfers

-- A sound database whose ledger and whose reports stand at `n` and `m`.
pub record Balanced (c : Uuid → Bool) (n m : ℤ) (db : Database) : Type 0 where
  pub sound : IsSound db
  pub balance : ledger c db ≡ n
  pub reports : reported db ≡ m

abbrev pub everything : Uuid → Bool
everything v = true

-- A sound database in which every unit is on hand, on the road or reported: `n` in all.
pub record Booked (n : ℤ) (db : Database) : Type 0 where
  pub sound : IsSound db
  pub books : ledger everything db +ℤ reported db ≡ n

-- One side of the ledger changes by what the other side gains.
pub balance_shift :
    (on on' road road' w w' m m' n : ℤ)
    → on' +ℤ w ≡ on +ℤ w'
    → road' +ℤ m ≡ road +ℤ m'
    → w' +ℤ m' ≡ w +ℤ m
    → on +ℤ road ≡ n
    → on' +ℤ road' ≡ n
balance_shift on on' road road' w w' m m' n p q r e = grind int_laws

-- Two logs that report nothing missing.
pub two_silent : (n : ℤ) → pos 0 +ℤ (pos 0 +ℤ n) ≡ n
two_silent n = omega int_laws

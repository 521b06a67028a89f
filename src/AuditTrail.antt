-- ===== src/AuditTrail.antt =====
-- The audit log across the services (app/services/{transfer,procurement,inventory}_service.py): the
-- two snapshots of an inventory item in a log tell how its stock changed.
pub mod Bodies
pub mod Silent
pub mod Decay
pub mod Backend
mod Tests
use backend_project.Prelude.{Uuid, Bool, ℤ, pos, ◌+ℤ◌, ◌-ℤ◌, ◌≡◌, Option, some}
use backend_project.Models.{Database, AuditLog, Snapshot, item_row}
use backend_project.Models.Rows.{item_dump}
use backend_project.Table.Laws.{UniqueKeys, total}
use backend_project.Stock.Laws.{held}
use backend_project.EmailJobs.Keeps.{IgnoresMail}

-- The change that a log records, if the item's variant is among the chosen ones.
abbrev pub change : (Uuid → Bool) → Option Snapshot → Option Snapshot → ℤ
change c (some (item_dump before)) (some (item_dump after)) = held c after -ℤ held c before
change c _ _ = pos 0

abbrev pub logged : (Uuid → Bool) → AuditLog → ℤ
logged c log = change c log.before_state log.after_state

-- The stock of the chosen variants is `n` and what the audit log records since.
pub record Explained (c : Uuid → Bool) (n : ℤ) (db : Database) : Type 0 where
  pub keys : UniqueKeys db.inventory_items
  pub trail : total (held c) db.inventory_items ≡ n +ℤ total (logged c) db.audit_logs

pub Explained-mail : (c : Uuid → Bool) (n : ℤ) → IgnoresMail (Explained c n)
Explained-mail c n = record { any_mail = λ db jobs h. record { keys = h.keys; trail = h.trail } }

-- ===== src/Models/Enums.antt =====
-- The enumerations of app/models/*.py and their equality tests.
use backend_project.Prelude.{ℕ, Bool, true, false, ◌==◌, ◌≡◌, arith}

-- app/models/user.py
pub data UserRole : Type 0 where
  super_admin tenant_admin warehouse_manager analyst : UserRole

-- app/models/transfer.py
pub data TransferStatus : Type 0 where
  pending in_transit completed cancelled : TransferStatus

-- app/models/procurement.py
pub data PurchaseOrderStatus : Type 0 where
  draft submitted confirmed received cancelled : PurchaseOrderStatus

-- app/models/email.py
pub data EmailJobStatus : Type 0 where
  queued sent failed : EmailJobStatus

-- The two values that the code writes into the text column `decay_status`.
pub data DecayStatus : Type 0 where
  normal liquidating : DecayStatus

abbrev role_index : UserRole → ℕ
role_index super_admin = 0
role_index tenant_admin = 1
role_index warehouse_manager = 2
role_index analyst = 3

abbrev transfer_index : TransferStatus → ℕ
transfer_index pending = 0
transfer_index in_transit = 1
transfer_index completed = 2
transfer_index TransferStatus.cancelled = 3

abbrev order_index : PurchaseOrderStatus → ℕ
order_index draft = 0
order_index submitted = 1
order_index confirmed = 2
order_index received = 3
order_index PurchaseOrderStatus.cancelled = 4

abbrev pub role_eq : UserRole → UserRole → Bool
role_eq a b = role_index a == role_index b

abbrev pub transfer_status_eq : TransferStatus → TransferStatus → Bool
transfer_status_eq a b = transfer_index a == transfer_index b

abbrev pub order_status_eq : PurchaseOrderStatus → PurchaseOrderStatus → Bool
order_status_eq a b = order_index a == order_index b

abbrev pub decay_status_eq : DecayStatus → DecayStatus → Bool
decay_status_eq normal normal = true
decay_status_eq liquidating liquidating = true
decay_status_eq _ _ = false

pub role_eq→≡ : (a b : UserRole) → role_eq a b ≡ true → a ≡ b
role_eq→≡ a b h = ground arith

pub transfer_status_eq→≡ : (a b : TransferStatus) → transfer_status_eq a b ≡ true → a ≡ b
transfer_status_eq→≡ a b h = ground arith

pub order_status_eq→≡ : (a b : PurchaseOrderStatus) → order_status_eq a b ≡ true → a ≡ b
order_status_eq→≡ a b h = ground arith

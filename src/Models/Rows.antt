-- ===== src/Models/Rows.antt =====
-- The rows of the tables, field by field: app/models/{tenant,user,product,warehouse,transfer,
-- procurement,email,audit}.py. A foreign key is the `Uuid` of the row that it names.
use backend_project.Prelude.{Bool, Option, String, Uuid, Time, Cents, ℤ}
use backend_project.Models.Enums.{
  UserRole, TransferStatus, PurchaseOrderStatus, EmailJobStatus, DecayStatus,
}

pub record Tenant : Type 0 where
  pub id : Uuid
  pub name : String
  pub slug : String
  pub plan : String
  pub is_active : Bool
  pub created_at : Time

pub record User : Type 0 where
  pub id : Uuid
  pub tenant_id : Uuid
  pub email : String
  pub name : String
  pub hashed_password : String
  pub role : UserRole
  pub is_active : Bool
  pub email_verified_at : Option Time
  pub created_at : Time

pub record Product : Type 0 where
  pub id : Uuid
  pub tenant_id : Uuid
  pub name : String
  pub category : Option String
  pub unit_of_measure : String
  pub is_active : Bool

pub record ProductVariant : Type 0 where
  pub id : Uuid
  pub product_id : Uuid
  pub tenant_id : Uuid
  pub sku : String
  pub color : Option String
  pub size : Option String
  pub barcode : Option String
  pub cost_price : Cents
  pub selling_price : Cents
  pub liquidation_floor_price : Cents

pub record Warehouse : Type 0 where
  pub id : Uuid
  pub tenant_id : Uuid
  pub name : String
  pub location : Option String
  pub is_active : Bool

pub record InventoryItem : Type 0 where
  pub id : Uuid
  pub tenant_id : Uuid
  pub variant_id : Uuid
  pub warehouse_id : Uuid
  pub quantity : ℤ
  pub reorder_threshold : ℤ
  pub last_sold_at : Option Time
  pub decay_status : DecayStatus
  pub decay_started_at : Option Time
  pub current_price : Cents

pub record StockTransfer : Type 0 where
  pub id : Uuid
  pub request_id : String
  pub tenant_id : Uuid
  pub from_warehouse_id : Uuid
  pub to_warehouse_id : Uuid
  pub variant_id : Uuid
  pub quantity : ℤ
  pub note : Option String
  pub status : TransferStatus
  pub initiated_by : Uuid
  pub confirmed_by : Option Uuid
  pub created_at : Time
  pub completed_at : Option Time

pub record Supplier : Type 0 where
  pub id : Uuid
  pub tenant_id : Uuid
  pub name : String
  pub contact_email : Option String
  pub phone : Option String
  pub lead_time_days : ℤ
  pub is_active : Bool
  pub created_at : Time

pub record PurchaseOrder : Type 0 where
  pub id : Uuid
  pub tenant_id : Uuid
  pub po_number : String
  pub supplier_id : Uuid
  pub warehouse_id : Uuid
  pub variant_id : Uuid
  pub quantity : ℤ
  pub expected_unit_cost : Cents
  pub status : PurchaseOrderStatus
  pub created_by : Uuid
  pub submitted_at : Option Time
  pub confirmed_at : Option Time
  pub received_at : Option Time
  pub created_at : Time

-- A row of `email_verification_tokens` or of `password_reset_tokens`: the two tables have the same
-- columns.
pub record OneTimeToken : Type 0 where
  pub id : Uuid
  pub tenant_id : Uuid
  pub user_id : Uuid
  pub token_hash : String
  pub expires_at : Time
  pub consumed_at : Option Time
  pub created_at : Time

-- What a mail says: its template with the values that the template shows. The texts of `subject`,
-- `body_text` and `body_html` are functions of it.
pub data Message : Type 0 where
  transfer_created : String → StockTransfer → Message
  transfer_receipt : String → StockTransfer → Message
  low_stock_alert : String → InventoryItem → ProductVariant → Product → Warehouse → Message
  purchase_order_confirmation : Supplier → PurchaseOrder → ProductVariant → Warehouse → Message
  decay_alert : String → ℤ → ℤ → Message
  verification : String → String → Message
  password_reset : String → String → Message

pub record EmailJob : Type 0 where
  pub id : Uuid
  pub tenant_id : Uuid
  pub recipient_email : String
  pub message : Message
  pub purpose : String
  pub status : EmailJobStatus
  pub retry_count : ℤ
  pub error_message : Option String
  pub created_at : Time
  pub sent_at : Option Time
  pub last_attempt_at : Option Time

-- The JSON of `before_state` and `after_state`: a dumped row, or one of the two small dicts.
pub data Snapshot : Type 0 where
  transfer_dump : StockTransfer → Snapshot
  item_dump : InventoryItem → Snapshot
  order_dump : PurchaseOrder → Snapshot
  expected_quantity : ℤ → Snapshot
  received_quantity : ℤ → Snapshot

pub record AuditLog : Type 0 where
  pub id : Uuid
  pub tenant_id : Uuid
  pub user_id : Uuid
  pub action : String
  pub entity_type : String
  pub entity_id : Uuid
  pub before_state : Option Snapshot
  pub after_state : Option Snapshot
  pub created_at : Time

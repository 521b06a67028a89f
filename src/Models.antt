-- ===== src/Models.antt =====
-- The tables of app/models, as one value: the state that a transaction reads and writes.
pub mod Enums
pub mod Rows
pub use Rows.{
  Tenant, User, Product, ProductVariant, Warehouse, InventoryItem, StockTransfer, Supplier,
  PurchaseOrder, EmailJob, OneTimeToken, AuditLog, Message, Snapshot,
}
pub use Enums.{UserRole, TransferStatus, PurchaseOrderStatus, EmailJobStatus, DecayStatus}
use backend_project.Prelude.{List, ◌==◌, Bool, ◌&&◌, str_eq}
use backend_project.Table.{Row}

pub record Database : Type 0 where
  pub tenants : List Tenant
  pub users : List User
  pub products : List Product
  pub product_variants : List ProductVariant
  pub warehouses : List Warehouse
  pub inventory_items : List InventoryItem
  pub stock_transfers : List StockTransfer
  pub suppliers : List Supplier
  pub purchase_orders : List PurchaseOrder
  pub email_verification_tokens : List OneTimeToken
  pub password_reset_tokens : List OneTimeToken
  pub email_jobs : List EmailJob
  pub audit_logs : List AuditLog

instance abbrev pub tenant_row : Row Tenant
tenant_row = record { key = λ r. r.id; owner = λ r. r.id }

instance abbrev pub user_row : Row User
user_row = record { key = λ r. r.id; owner = λ r. r.tenant_id }

instance abbrev pub product_row : Row Product
product_row = record { key = λ r. r.id; owner = λ r. r.tenant_id }

instance abbrev pub variant_row : Row ProductVariant
variant_row = record { key = λ r. r.id; owner = λ r. r.tenant_id }

instance abbrev pub warehouse_row : Row Warehouse
warehouse_row = record { key = λ r. r.id; owner = λ r. r.tenant_id }

instance abbrev pub item_row : Row InventoryItem
item_row = record { key = λ r. r.id; owner = λ r. r.tenant_id }

instance abbrev pub transfer_row : Row StockTransfer
transfer_row = record { key = λ r. r.id; owner = λ r. r.tenant_id }

instance abbrev pub supplier_row : Row Supplier
supplier_row = record { key = λ r. r.id; owner = λ r. r.tenant_id }

instance abbrev pub order_row : Row PurchaseOrder
order_row = record { key = λ r. r.id; owner = λ r. r.tenant_id }

instance abbrev pub job_row : Row EmailJob
job_row = record { key = λ r. r.id; owner = λ r. r.tenant_id }

instance abbrev pub token_row : Row OneTimeToken
token_row = record { key = λ r. r.id; owner = λ r. r.tenant_id }

instance abbrev pub audit_row : Row AuditLog
audit_row = record { key = λ r. r.id; owner = λ r. r.tenant_id }

-- The unique constraints of the tables, each as the test that two rows clash.
-- `unique=True` of users.email, tenants.slug and of token_hash
abbrev pub same_email : User → User → Bool
same_email a b = str_eq a.email b.email

abbrev pub same_slug : Tenant → Tenant → Bool
same_slug a b = str_eq a.slug b.slug

abbrev pub same_hash : OneTimeToken → OneTimeToken → Bool
same_hash a b = str_eq a.token_hash b.token_hash

-- uq_transfer_tenant_request
abbrev pub same_request : StockTransfer → StockTransfer → Bool
same_request a b = a.tenant_id == b.tenant_id && str_eq a.request_id b.request_id

-- uq_variant_warehouse
abbrev pub same_place : InventoryItem → InventoryItem → Bool
same_place a b = a.variant_id == b.variant_id && a.warehouse_id == b.warehouse_id

-- uq_supplier_tenant_name
abbrev pub same_supplier : Supplier → Supplier → Bool
same_supplier a b = a.tenant_id == b.tenant_id && str_eq a.name b.name

-- uq_po_tenant_number
abbrev pub same_number : PurchaseOrder → PurchaseOrder → Bool
same_number a b = a.tenant_id == b.tenant_id && str_eq a.po_number b.po_number

-- uq_product_variant_tenant_sku
abbrev pub same_sku : ProductVariant → ProductVariant → Bool
same_sku a b = a.tenant_id == b.tenant_id && str_eq a.sku b.sku

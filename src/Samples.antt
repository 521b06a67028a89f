-- ===== src/Samples.antt =====
-- A small database and an environment on which the tests run the code.
use backend_project.Prelude.{ℕ, ◌+◌, true, none, some, [], ◌∷◌, pos}
use backend_project.Models.{
  Database, User, Product, ProductVariant, Warehouse, InventoryItem, StockTransfer, Supplier,
  PurchaseOrder,
}
use backend_project.Models.Enums.{tenant_admin, in_transit, normal, draft}
use backend_project.Session.{Env, accepted}
use backend_project.Session.Keeps.{Relies}

-- Every commit is accepted, every task is queued.
abbrev pub calm : Env
calm = record {
  now = 100;
  uuid4 = λ k. 1000 + k;
  token_urlsafe = "fresh";
  salt = "salt";
  outcome = λ db. accepted;
  send_task = λ job. none;
}

pub calm_relies : (P : Database → Type 0) → Relies calm P
calm_relies P = record { others = λ db d e. cc }

abbrev pub admin : User
admin = record {
  id = 40;
  tenant_id = 1;
  email = "admin@shop.kz";
  name = "Admin";
  hashed_password = "hash";
  role = tenant_admin;
  is_active = true;
  email_verified_at = some 5;
  created_at = 1;
}

abbrev pub shirt : Product
shirt = record {
  id = 19;
  tenant_id = 1;
  name = "Shirt";
  category = none;
  unit_of_measure = "pcs";
  is_active = true;
}

abbrev pub red_shirt : ProductVariant
red_shirt = record {
  id = 20;
  product_id = 19;
  tenant_id = 1;
  sku = "RED-L";
  color = none;
  size = none;
  barcode = none;
  cost_price = 2000;
  selling_price = 4990;
  liquidation_floor_price = 2990;
}

abbrev pub warehouse : ℕ → Warehouse
warehouse id = record { id = id; tenant_id = 1; name = "W"; location = none; is_active = true }

abbrev pub shelf : InventoryItem
shelf = record {
  id = 30;
  tenant_id = 1;
  variant_id = 20;
  warehouse_id = 10;
  quantity = pos 10;
  reorder_threshold = pos 5;
  last_sold_at = some 7;
  decay_status = normal;
  decay_started_at = none;
  current_price = 4990;
}

-- Three units on their way from warehouse 10 to warehouse 11.
abbrev pub sent_transfer : StockTransfer
sent_transfer = record {
  id = 50;
  request_id = "t-1";
  tenant_id = 1;
  from_warehouse_id = 10;
  to_warehouse_id = 11;
  variant_id = 20;
  quantity = pos 3;
  note = none;
  status = in_transit;
  initiated_by = 40;
  confirmed_by = none;
  created_at = 90;
  completed_at = none;
}

abbrev pub shop : Database
shop = record {
  tenants = [];
  users = admin ∷ [];
  products = shirt ∷ [];
  product_variants = red_shirt ∷ [];
  warehouses = warehouse 10 ∷ warehouse 11 ∷ [];
  inventory_items = shelf ∷ [];
  stock_transfers = sent_transfer ∷ [];
  suppliers = [];
  purchase_orders = [];
  email_verification_tokens = [];
  password_reset_tokens = [];
  email_jobs = [];
  audit_logs = [];
}

abbrev pub acme : Supplier
acme = record {
  id = 60;
  tenant_id = 1;
  name = "Acme";
  contact_email = some "sales@acme.kz";
  phone = none;
  lead_time_days = pos 7;
  is_active = true;
  created_at = 1;
}

-- Twelve red shirts for warehouse 10.
abbrev pub draft_order : PurchaseOrder
draft_order = record {
  id = 70;
  tenant_id = 1;
  po_number = "PO-1";
  supplier_id = 60;
  warehouse_id = 10;
  variant_id = 20;
  quantity = pos 12;
  expected_unit_cost = 2000;
  status = draft;
  created_by = 40;
  submitted_at = none;
  confirmed_at = none;
  received_at = none;
  created_at = 90;
}

abbrev pub buying : PurchaseOrder → Database
buying order = record shop { suppliers = acme ∷ []; purchase_orders = order ∷ [] }

-- ===== src/Procurement/Requests.antt =====
-- The requests of app/schemas.py that the procurement service takes.
use backend_project.Prelude.{Uuid, String, ℤ, Cents, Bool, false, Option, none, some}

pub record SupplierCreateRequest : Type 0 where
  pub name : String
  pub contact_email : Option String
  pub phone : Option String
  pub lead_time_days : ℤ

-- A field that the client has not set is `none`; one that it has set to null is `some none`.
pub record SupplierUpdateRequest : Type 0 where
  pub name : Option (Option String)
  pub contact_email : Option (Option String)
  pub phone : Option (Option String)
  pub lead_time_days : Option (Option ℤ)
  pub is_active : Option (Option Bool)

-- `SupplierUpdateRequest(is_active=False)`
abbrev pub deactivation : SupplierUpdateRequest
deactivation = record {
  name = none;
  contact_email = none;
  phone = none;
  lead_time_days = none;
  is_active = some (some false);
}

pub record PurchaseOrderCreateRequest : Type 0 where
  pub po_number : String
  pub supplier_id : Uuid
  pub warehouse_id : Uuid
  pub variant_id : Uuid
  pub quantity : ℤ
  pub expected_unit_cost : Cents

pub record PurchaseOrderReceiveRequest : Type 0 where
  pub received_quantity : Option ℤ

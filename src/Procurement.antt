-- ===== src/Procurement.antt =====
-- app/services/procurement_service.py: suppliers, and purchase orders from draft to receipt.
pub mod Requests
pub mod Bodies
pub mod Lookup
pub mod Services
pub mod History
pub mod Lifecycle
pub mod Progress
pub mod Service
pub mod Receipt
mod Tests
use backend_project.Prelude.{ℕ, Uuid, Option, some, none}
use backend_project.Errors.{
  Fault, Result, app_exception, integrity_error, supplier_conflict, purchase_order_conflict,
}
use backend_project.Models.{Database, User, ProductVariant, Warehouse, PurchaseOrder, Supplier}
use backend_project.Session.{
  commit_after, on_conflict, Env, Exec, raise, read, write, commit, pure, rollback, transaction,
  rollback_and_raise, ◌>>=◌, ◌>>◌,
}
use backend_project.EmailJobs.{queue_purchase_order_confirmation_email}
use Requests.{
  SupplierCreateRequest, SupplierUpdateRequest, PurchaseOrderCreateRequest,
  PurchaseOrderReceiveRequest, deactivation,
}
use Bodies.{
  get_order, own_supplier, add_supplier, find_supplier, change_supplier, check_entities, add_order,
  submit, confirm, receive, cancel,
}

unfoldable pub create_supplier : Env → Uuid → SupplierCreateRequest → Exec Supplier
create_supplier env tenant_id request =
    transaction env (add_supplier env tenant_id request)
      (on_conflict (app_exception 409 supplier_conflict))

unfoldable pub update_supplier : Env → Uuid → Uuid → SupplierUpdateRequest → Exec Supplier
update_supplier env tenant_id supplier_id request = do
  supplier ← read (find_supplier tenant_id supplier_id)
  transaction env (change_supplier supplier request)
      (on_conflict (app_exception 409 supplier_conflict))

unfoldable pub get_supplier_detail : Uuid → Uuid → Exec Supplier
get_supplier_detail tenant_id supplier_id = read (find_supplier tenant_id supplier_id)

unfoldable pub deactivate_supplier : Env → Uuid → Uuid → Exec Supplier
unfolding update_supplier
deactivate_supplier env tenant_id supplier_id =
    update_supplier env tenant_id supplier_id deactivation

-- The ids drawn: 0 the order's, 1 the log's.
unfoldable pub create_purchase_order :
    Env → Uuid → User → PurchaseOrderCreateRequest → Exec PurchaseOrder
create_purchase_order env tenant_id actor request = do
  read (check_entities tenant_id request)
  transaction env (add_order env tenant_id actor request)
      (on_conflict (app_exception 409 purchase_order_conflict))

-- The ids drawn: 0 the log's, 1 the mail's.
unfoldable pub get_purchase_order : Uuid → Uuid → Exec PurchaseOrder
get_purchase_order tenant_id order_id = read (get_order tenant_id order_id)

unfoldable pub submit_purchase_order : Env → Uuid → User → Uuid → Exec PurchaseOrder
unfolding commit_after
submit_purchase_order env tenant_id actor order_id = do
  (order, supplier, warehouse, variant) ← commit_after env (submit env tenant_id actor order_id)
  queue_purchase_order_confirmation_email env 1 supplier order variant warehouse
  pure order

unfoldable pub confirm_purchase_order : Env → Uuid → User → Uuid → Exec PurchaseOrder
unfolding commit_after
confirm_purchase_order env tenant_id actor order_id =
    commit_after env (confirm env tenant_id actor order_id)

-- The ids drawn: 0 a new inventory item's, 1 and 2 the logs'.
unfoldable pub receive_purchase_order :
    Env → Uuid → User → Uuid → PurchaseOrderReceiveRequest → Exec PurchaseOrder
receive_purchase_order env tenant_id actor order_id request =
    transaction env (receive env tenant_id actor order_id request) rollback_and_raise

unfoldable pub cancel_purchase_order : Env → Uuid → User → Uuid → Exec PurchaseOrder
unfolding commit_after
cancel_purchase_order env tenant_id actor order_id =
    commit_after env (cancel env tenant_id actor order_id)

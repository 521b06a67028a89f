-- ===== src/AuditTrail/Silent.antt =====
-- The transactions that leave the stock log no inventory item.
use backend_project.Prelude.{Uuid, Bool, ℤ, pos, ◌+ℤ◌, ◌≡◌, ◌∙◌, ap, sym}
use backend_project.Models.{Database, User, Supplier, item_row}
use backend_project.Table.Laws.{total}
use backend_project.Session.{Env}
use backend_project.Session.Keeps.{Saves, Saves-bind}
use backend_project.Stock.Laws.{held}
use backend_project.Procurement.Requests.{
  SupplierCreateRequest, SupplierUpdateRequest, PurchaseOrderCreateRequest,
}
use backend_project.Procurement.Bodies.{
  add_supplier, change_supplier, add_order, submit, confirm, cancel,
}
use backend_project.AuditTrail.{logged, Explained}
use backend_project.AuditTrail.Bodies.{silent}

module _ (c : Uuid → Bool) (n : ℤ) (env : Env) (tenant_id : Uuid) (actor : User) where
  logged_order :
      (db : Database)
      → Explained c n db
      → total (held c) db.inventory_items ≡ n +ℤ (pos 0 +ℤ total (logged c) db.audit_logs)
  logged_order db h = h.trail ∙ ap (λ x. n +ℤ x) (sym (silent _))

  pub add_supplier-Explained :
      (request : SupplierCreateRequest) (db : Database)
      → Explained c n db
      → Saves (Explained c n) (add_supplier env tenant_id request db)
  unfolding add_supplier
  add_supplier-Explained request db h =
      Saves-bind (Explained c n) _ _ λ suppliers p. record { keys = h.keys; trail = h.trail }

  pub change_supplier-Explained :
      (s : Supplier) (request : SupplierUpdateRequest) (db : Database)
      → Explained c n db
      → Saves (Explained c n) (change_supplier s request db)
  unfolding change_supplier
  change_supplier-Explained s request db h =
      Saves-bind (Explained c n) _ _ λ guard q. record { keys = h.keys; trail = h.trail }

  pub add_order-Explained :
      (request : PurchaseOrderCreateRequest) (db : Database)
      → Explained c n db
      → Saves (Explained c n) (add_order env tenant_id actor request db)
  unfolding add_order
  add_order-Explained request db h =
      Saves-bind (Explained c n) _ _ λ orders r. record { keys = h.keys; trail = logged_order db h }

  pub submit-Explained :
      (order_id : Uuid) (db : Database)
      → Explained c n db
      → Saves (Explained c n) (submit env tenant_id actor order_id db)
  unfolding submit
  submit-Explained order_id db h = Saves-bind (Explained c n) _ _ λ order p.
      Saves-bind (Explained c n) _ _ λ guard q. Saves-bind (Explained c n) _ _ λ supplier r.
        Saves-bind (Explained c n) _ _ λ warehouse r'.
          Saves-bind (Explained c n) _ _
            λ variant r''. record { keys = h.keys; trail = logged_order db h }

  pub confirm-Explained :
      (order_id : Uuid) (db : Database)
      → Explained c n db
      → Saves (Explained c n) (confirm env tenant_id actor order_id db)
  unfolding confirm
  confirm-Explained order_id db h = Saves-bind (Explained c n) _ _ λ order p.
      Saves-bind (Explained c n) _ _ λ guard q. record { keys = h.keys; trail = logged_order db h }

  pub cancel-Explained :
      (order_id : Uuid) (db : Database)
      → Explained c n db
      → Saves (Explained c n) (cancel env tenant_id actor order_id db)
  unfolding cancel
  cancel-Explained order_id db h = Saves-bind (Explained c n) _ _ λ order p.
      Saves-bind (Explained c n) _ _ λ guard q. record { keys = h.keys; trail = logged_order db h }

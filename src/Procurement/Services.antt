-- ===== src/Procurement/Services.antt =====
-- Each operation of the procurement service keeps whatever its own transaction saves and mails ignore.
use backend_project.Prelude.{Uuid}
use backend_project.Models.{Database, User, Supplier}
use backend_project.Session.{Env}
use backend_project.Session.Keeps.{
  Keeps-on_conflict, Keeps, Relies, Saves, Keeps-rollback_and_raise, Keeps-transaction,
  Keeps-commit_after, Keeps-bind, Keeps-pure, Keeps-read,
}
use backend_project.EmailJobs.Keeps.{IgnoresMail, Keeps-queue_purchase_order_confirmation_email}
use backend_project.Procurement.{
  create_supplier, update_supplier, create_purchase_order, submit_purchase_order,
  confirm_purchase_order, receive_purchase_order, cancel_purchase_order,
}
use backend_project.Procurement.Requests.{
  SupplierCreateRequest, SupplierUpdateRequest, PurchaseOrderCreateRequest,
  PurchaseOrderReceiveRequest,
}
use backend_project.Procurement.Bodies.{
  add_supplier, change_supplier, add_order, submit, confirm, receive, cancel,
}

module _ {P : Database → Type 0} (env : Env) (rely : Relies env P) where
  module _ (tenant_id : Uuid) where
    pub Keeps-create_supplier :
        (request : SupplierCreateRequest)
        → ((db : Database) → P db → Saves P (add_supplier env tenant_id request db))
        → Keeps P (create_supplier env tenant_id request)
    unfolding create_supplier
    Keeps-create_supplier request saves = Keeps-transaction env _ _ rely saves (Keeps-on_conflict _)

    pub Keeps-update_supplier :
        (supplier_id : Uuid) (request : SupplierUpdateRequest)
        → ((s : Supplier) (db : Database) → P db → Saves P (change_supplier s request db))
        → Keeps P (update_supplier env tenant_id supplier_id request)
    unfolding update_supplier
    Keeps-update_supplier supplier_id request saves =
        Keeps-bind (Keeps-read _)
          (λ s. Keeps-transaction env _ _ rely (saves s) (Keeps-on_conflict _))

    module _ (actor : User) where
      pub Keeps-create_purchase_order :
          (request : PurchaseOrderCreateRequest)
          → ((db : Database) → P db → Saves P (add_order env tenant_id actor request db))
          → Keeps P (create_purchase_order env tenant_id actor request)
      unfolding create_purchase_order
      Keeps-create_purchase_order request saves =
          Keeps-bind (Keeps-read _)
            (λ _. Keeps-transaction env _ _ rely saves (Keeps-on_conflict _))

      pub Keeps-submit_purchase_order :
          IgnoresMail P
          → (order_id : Uuid)
          → ((db : Database) → P db → Saves P (submit env tenant_id actor order_id db))
          → Keeps P (submit_purchase_order env tenant_id actor order_id)
      unfolding submit_purchase_order
      Keeps-submit_purchase_order mail order_id saves =
          Keeps-bind (Keeps-commit_after env rely _ saves) (λ x.
            Keeps-bind (Keeps-queue_purchase_order_confirmation_email env rely mail _ _ _ _ _)
              (λ _. Keeps-pure _))

      pub Keeps-confirm_purchase_order :
          (order_id : Uuid)
          → ((db : Database) → P db → Saves P (confirm env tenant_id actor order_id db))
          → Keeps P (confirm_purchase_order env tenant_id actor order_id)
      unfolding confirm_purchase_order
      Keeps-confirm_purchase_order order_id saves = Keeps-commit_after env rely _ saves

      pub Keeps-receive_purchase_order :
          (order_id : Uuid) (request : PurchaseOrderReceiveRequest)
          → ((db : Database) → P db → Saves P (receive env tenant_id actor order_id request db))
          → Keeps P (receive_purchase_order env tenant_id actor order_id request)
      unfolding receive_purchase_order
      Keeps-receive_purchase_order order_id request saves =
          Keeps-transaction env _ _ rely saves Keeps-rollback_and_raise

      pub Keeps-cancel_purchase_order :
          (order_id : Uuid)
          → ((db : Database) → P db → Saves P (cancel env tenant_id actor order_id db))
          → Keeps P (cancel_purchase_order env tenant_id actor order_id)
      unfolding cancel_purchase_order
      Keeps-cancel_purchase_order order_id saves = Keeps-commit_after env rely _ saves

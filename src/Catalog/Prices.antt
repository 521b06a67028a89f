-- ===== src/Catalog/Prices.antt =====
-- No variant's liquidation floor lies above its selling price.
use backend_project.Prelude.{
  ℕ, suc, ◌≤◌, Uuid, Cents, ltb, ◌≡◌, ◌∙◌, ◌==◌, ==-iff, sym, Bool-cases, inl, inr, subst, false,
  Option, none, some, List, [], ◌∷◌, All, arith,
}
use backend_project.Stock.Laws.{ok_path}
use backend_project.Errors.{Fault, ok, integrity_error}
use backend_project.Models.{Database, ProductVariant, variant_row, same_sku}
use backend_project.Models.Enums.{UserRole}
use backend_project.Table.Laws.{update-All, insert-All}
use backend_project.Transfers.Lookup.{>>=-eq-ok, raise_if-ok}
use backend_project.Session.{Env, transaction, ◌>>=◌}
use backend_project.Session.Keeps.{
  Keeps, Relies, Saves, Saves-bind, read-Holds, keeps_rules, Keeps-read, Keeps-bind,
  Keeps-transaction, Keeps-commit_after, Keeps-on_conflict, Keeps-rollback_and_raise, Keeps-pure,
}
use backend_project.Catalog.{
  create_warehouse, update_warehouse, deactivate_warehouse, create_product, on_product_fault,
  update_product, deactivate_product, update_product_variant,
}
use backend_project.Catalog.Bodies.{
  WarehouseCreateRequest, WarehouseUpdateRequest, ProductVariantCreateRequest, ProductCreateRequest,
  ProductUpdateRequest, new_variants, add_variants, add_product, add_warehouse, change_warehouse,
  change_product, serialize_variant,
}
use backend_project.Catalog.Variants.{
  ProductVariantUpdateRequest, price_of, find_variant, check_prices, written_price, written_variant,
  row_of, change_variant,
}

abbrev pub IsPriced : ProductVariant → Type 0
IsPriced v = v.liquidation_floor_price ≤ v.selling_price

abbrev pub AllPriced : Database → Type 0
AllPriced db = All IsPriced db.product_variants

-- What `validate_floor_price` of app/schemas.py checks.
abbrev pub AreValid : List ProductVariantCreateRequest → Type 0
AreValid vs = All (λ v. v.liquidation_floor_price ≤ v.selling_price) vs

new_variants-IsPriced :
    (env : Env) (k : ℕ) (tenant_id : Uuid) (vs : List ProductVariantCreateRequest)
    → AreValid vs
    → All IsPriced (new_variants env k tenant_id vs)
unfolding new_variants
new_variants-IsPriced env k tenant_id [] h = tt
new_variants-IsPriced env k tenant_id (v ∷ vs) h =
    (h.0, new_variants-IsPriced env (suc k) tenant_id vs h.1)

add_variants-IsPriced :
    (vs table table' : List ProductVariant)
    → All IsPriced vs
    → All IsPriced table
    → add_variants vs table ≡ ok table'
    → All IsPriced table'
unfolding add_variants
add_variants-IsPriced [] table table' h p e = subst (All IsPriced) (ok_path e) p
add_variants-IsPriced (v ∷ vs) table table' h p e =
    let (next, q, rest) = >>=-eq-ok _ _ table' e in
    add_variants-IsPriced vs next table' h.1 (insert-All IsPriced same_sku v table next q p h.0)
      rest

-- What a request leaves of a price that no one else has changed
price_of-written :
    (field : Option (Option Cents)) (old price : Cents)
    → price_of field old ≡ ok price
    → written_price field old old ≡ price
price_of-written none old price e = ok_path e
price_of-written (some none) old price e = cc
price_of-written (some (some new)) old price e = elim (Bool-cases (new == old)) [
  | inl q ↦ rw q (sym ((==-iff new old).0 q) ∙ ok_path e)
  | inr q ↦ rw q (ok_path e)
]

-- The prices are those of the loaded variant.
abbrev HasPrices : ProductVariant → ProductVariant → Type 0
HasPrices loaded current =
    (current.selling_price ≡ loaded.selling_price)
    × (current.liquidation_floor_price ≡ loaded.liquidation_floor_price)

written_variant-IsPriced :
    (loaded current : ProductVariant) (request : ProductVariantUpdateRequest)
    → check_prices loaded request ≡ ok tt
    → HasPrices loaded current
    → IsPriced (written_variant loaded request current)
unfolding check_prices
written_variant-IsPriced v current request e same =
    let (selling, p, e1) = >>=-eq-ok _ _ tt e in
    let (floor, q, e2) = >>=-eq-ok _ _ tt e1 in
    let a = price_of-written request.selling_price v.selling_price selling p in
    let b = price_of-written request.liquidation_floor_price v.liquidation_floor_price floor q in
    rw same.0 (rw same.1 (rw a (rw b (not_above selling floor (raise_if-ok _ _ _ e2)))))
  where
    not_above : (s f : Cents) → ltb s f ≡ false → f ≤ s
    not_above s f h = ground arith

-- While one session changes a variant that it has read, the others keep the floors, and leave the
-- prices of that variant alone.
pub record LeavesPrices (meanwhile : Database → Database) : Type 0 where
  pub priced : (db : Database) → AllPriced db → AllPriced (meanwhile db)
  pub alone :
      (tenant_id id : Uuid) (db : Database) (loaded current : ProductVariant)
      → find_variant tenant_id id db ≡ ok loaded
      → row_of loaded.id (meanwhile db) ≡ ok current
      → HasPrices loaded current

module _ (env : Env) (rely : Relies env AllPriced) (tenant_id : Uuid) where
  pub Keeps-create_warehouse :
      (request : WarehouseCreateRequest) → Keeps AllPriced (create_warehouse env tenant_id request)
  unfolding create_warehouse add_warehouse
  Keeps-create_warehouse request =
      Keeps-transaction env _ _ rely (λ db h. Saves-bind AllPriced _ _ λ ws _. h)
        Keeps-rollback_and_raise

  pub Keeps-update_warehouse :
      (id : Uuid) (request : WarehouseUpdateRequest)
      → Keeps AllPriced (update_warehouse env tenant_id id request)
  unfolding update_warehouse change_warehouse
  Keeps-update_warehouse id request =
      Keeps-bind (Keeps-read _)
        λ w. Keeps-commit_after env rely _ λ db h. Saves-bind AllPriced _ _ λ _ _. h

  pub Keeps-deactivate_warehouse :
      (id : Uuid) → Keeps AllPriced (deactivate_warehouse env tenant_id id)
  unfolding deactivate_warehouse
  Keeps-deactivate_warehouse id =
      Keeps-bind (Keeps-read _) λ w. Keeps-commit_after env rely _ λ db h. h

  Keeps-on_product_fault : {A : Type 0} (f : Fault) → Keeps AllPriced (on_product_fault {A = A} f)
  unfolding on_product_fault
  Keeps-on_product_fault integrity_error = search keeps_rules
  Keeps-on_product_fault _ = search keeps_rules

  pub Keeps-create_product :
      (request : ProductCreateRequest) (role : UserRole)
      → AreValid request.variants
      → Keeps AllPriced (create_product env tenant_id request role)
  unfolding create_product add_product
  Keeps-create_product request role valid =
      Keeps-bind
        (Keeps-transaction env _ _ rely
          (λ db h. Saves-bind AllPriced _ _ λ ps _. Saves-bind AllPriced _ _ λ vs e.
            add_variants-IsPriced _ db.product_variants vs
              (new_variants-IsPriced env 1 tenant_id request.variants valid) h e)
          Keeps-on_product_fault)
        λ made. Keeps-pure _

  module _ (by_sku : List ProductVariant → List ProductVariant) where
    pub Keeps-update_product :
        (id : Uuid) (request : ProductUpdateRequest) (role : UserRole)
        → Keeps AllPriced (update_product by_sku env tenant_id id request role)
    unfolding update_product change_product
    Keeps-update_product id request role = Keeps-bind (Keeps-read _) λ p.
        Keeps-bind (Keeps-commit_after env rely _ λ db h. Saves-bind AllPriced _ _ λ _ _. h)
          λ changed. Keeps-bind (Keeps-read _) λ vs. Keeps-pure _

    pub Keeps-deactivate_product :
        (id : Uuid) (role : UserRole)
        → Keeps AllPriced (deactivate_product by_sku env tenant_id id role)
    unfolding deactivate_product
    Keeps-deactivate_product id role = Keeps-bind (Keeps-read _) λ p.
        Keeps-bind (Keeps-commit_after env rely _ λ db h. h)
          λ changed. Keeps-bind (Keeps-read _) λ vs. Keeps-pure _

  change_variant-Saves :
      (loaded : ProductVariant) (request : ProductVariantUpdateRequest) (db : Database)
      → check_prices loaded request ≡ ok tt
      → AllPriced db
      → ((current : ProductVariant) → row_of loaded.id db ≡ ok current → HasPrices loaded current)
      → Saves AllPriced (change_variant loaded request db)
  unfolding change_variant
  change_variant-Saves loaded request db checked h same = Saves-bind AllPriced _ _ λ _ _.
      Saves-bind AllPriced _ _ λ current e.
        update-All IsPriced (written_variant loaded request current) db.product_variants h
          (written_variant-IsPriced loaded current request checked (same current e))

  pub Keeps-update_product_variant :
      (meanwhile : Database → Database)
      → LeavesPrices meanwhile
      → (id : Uuid) (request : ProductVariantUpdateRequest) (role : UserRole)
      → Keeps AllPriced (update_product_variant env meanwhile tenant_id id request role)
  unfolding update_product_variant transaction ◌>>=◌
  Keeps-update_product_variant meanwhile quiet id request role = record {
    at = λ s h. read-Holds AllPriced (find_variant tenant_id id) _ s h λ loaded found.
        read-Holds AllPriced (λ db. check_prices loaded request) _ s h
          λ _ checked.
            let db = meanwhile s.working in
            (Keeps-bind
                (Keeps-transaction env (λ _. change_variant loaded request db) _ rely
                  (λ _ _.
                    change_variant-Saves loaded request db checked (quiet.priced s.working h.1)
                      (λ current e. quiet.alone tenant_id id s.working loaded current found e))
                  (Keeps-on_conflict _))
                λ changed. Keeps-pure (serialize_variant role changed)).at
              (record s { committed = meanwhile s.committed; working = db })
              (quiet.priced s.committed h.0, quiet.priced s.working h.1);
  }

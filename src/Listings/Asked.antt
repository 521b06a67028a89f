-- ===== src/Listings/Asked.antt =====
-- What a client of `list_inventory` asks for, and the filter of the code.
use backend_project.Prelude.{
  ==-iff, String, str_eq, str_eq_iff, Option, none, some, Uuid, Bool, true, false, ◌&&◌, leb_ℤ,
  ◌≤ℤ◌, ◌≡◌, ◌≢◌, ◌↔◌, refl, sym, ap, ◌∙◌, Bool-cases, inl, inr, arith, if◌then◌else◌,
}
use backend_project.Models.{item_row, variant_row, product_row}
use backend_project.Models.Enums.{DecayStatus, decay_status_eq}
use backend_project.Listings.{Stocked, stocked_row, is_in, has_decay, matches_sku, is_listed}

-- Item, variant and product are the tenant's.
abbrev pub IsOwn : Uuid → Stocked → Type 0
IsOwn tenant_id r =
    (r.item.tenant_id ≡ tenant_id)
    × ((r.product.tenant_id ≡ tenant_id) × (r.variant.tenant_id ≡ tenant_id))

-- What a client asks for: a warehouse, a decay status, stock at or below its threshold, a part of the
-- SKU.
pub record Wanted : Type 0 where
  pub warehouse_id : Option Uuid
  pub decay_status : Option DecayStatus
  pub low_stock_only : Bool
  pub sku : Option String

module _ (ilike : String → String → Bool) (wanted : Wanted) where
  abbrev pub Meets : Stocked → Type 0
  Meets r =
      (((id : Uuid) → wanted.warehouse_id ≡ some id → r.item.warehouse_id ≡ id)
        × ((d : DecayStatus) → wanted.decay_status ≡ some d → r.item.decay_status ≡ d))
      × ((wanted.low_stock_only ≡ true → r.item.quantity ≤ℤ r.item.reorder_threshold)
          × ((text : String)
              → wanted.sku ≡ some text
              → text ≢ ""
              → ilike r.variant.sku text ≡ true))

is_in_iff :
    (o : Option Uuid) (r : Stocked)
    → (is_in o r ≡ true) ↔ ((id : Uuid) → o ≡ some id → r.item.warehouse_id ≡ id)
is_in_iff none r = (λ _ id e. cc, λ _. refl)
is_in_iff (some w) r = (λ h id e. (==-iff _ _).0 h ∙ some_path e, λ h. (==-iff _ _).1 (h w refl))
  where
    some_path : {a b : Uuid} → some a ≡ some b → a ≡ b
    some_path e = cc

has_decay_iff :
    (o : Option DecayStatus) (r : Stocked)
    → (has_decay o r ≡ true) ↔ ((d : DecayStatus) → o ≡ some d → r.item.decay_status ≡ d)
has_decay_iff none r = (λ _ id e. cc, λ _. refl)
has_decay_iff (some w) r = (
  λ h d e. (same r.item.decay_status w).0 h ∙ some_path e,
  λ h. (same r.item.decay_status w).1 (h w refl),
)
  where
    some_path : {a b : DecayStatus} → some a ≡ some b → a ≡ b
    some_path e = cc

    same : (a b : DecayStatus) → (decay_status_eq a b ≡ true) ↔ (a ≡ b)
    same DecayStatus.normal DecayStatus.normal = (λ _. refl, λ _. refl)
    same DecayStatus.normal DecayStatus.liquidating = (λ e. cc, λ e. cc)
    same DecayStatus.liquidating DecayStatus.normal = (λ e. cc, λ e. cc)
    same DecayStatus.liquidating DecayStatus.liquidating = (λ _. refl, λ _. refl)

low_stock_iff :
    (b : Bool) (r : Stocked)
    → ((if b then leb_ℤ r.item.quantity r.item.reorder_threshold else true) ≡ true)
      ↔ (b ≡ true → r.item.quantity ≤ℤ r.item.reorder_threshold)
low_stock_iff true r = (λ h e. ground arith, λ h. let l = h refl in ground arith)
low_stock_iff false r = (λ h e. cc, λ h. refl)

matches_sku_iff :
    (ilike : String → String → Bool) (o : Option String) (r : Stocked)
    → (matches_sku ilike o r ≡ true)
      ↔ ((text : String) → o ≡ some text → text ≢ "" → ilike r.variant.sku text ≡ true)
matches_sku_iff ilike none r = (λ _ text e. cc, λ _. refl)
matches_sku_iff ilike (some w) r = elim (Bool-cases (str_eq w "")) [
  | inl e ↦
      rw e (λ _ text q other. absurd (other (sym (some_path q) ∙ (str_eq_iff w "").0 e)), λ _. refl)
  | inr e ↦ rw e (
    λ h text q other. ap (ilike r.variant.sku) (sym (some_path q)) ∙ h,
    λ h. h w refl (λ q. false_true (sym e ∙ (str_eq_iff w "").1 q)),
  )
]
  where
    some_path : {a b : String} → some a ≡ some b → a ≡ b
    some_path e = cc

    false_true : false ≢ true
    false_true e = cc

module _ (ilike : String → String → Bool) (tenant_id : Uuid) (wanted : Wanted) where
  abbrev pub listed : Stocked → Bool
  listed =
      is_listed ilike tenant_id wanted.warehouse_id wanted.decay_status wanted.low_stock_only
        wanted.sku

  pub is_listed_iff : (r : Stocked) → (listed r ≡ true) ↔ (IsOwn tenant_id r × Meets ilike wanted r)
  is_listed_iff r =
      let a = ==-iff r.item.tenant_id tenant_id in
      let b = ==-iff r.product.tenant_id tenant_id in
      let c = ==-iff r.variant.tenant_id tenant_id in
      let d = is_in_iff wanted.warehouse_id r in
      let e = has_decay_iff wanted.decay_status r in
      let f = low_stock_iff wanted.low_stock_only r in
      let g = matches_sku_iff ilike wanted.sku r in
      (
        λ h.
            let own = both_of h in
            let own1 = both_of own.0 in
            let own2 = both_of own1.1 in
            let asked = both_of own.1 in
            let asked1 = both_of asked.0 in
            let asked2 = both_of asked.1 in
            (
              (a.0 own1.0, (b.0 own2.0, c.0 own2.1)),
              ((d.0 asked1.0, e.0 asked1.1), (f.0 asked2.0, g.0 asked2.1)),
            ),
        λ h.
            both (both (a.1 h.0.0) (both (b.1 h.0.1.0) (c.1 h.0.1.1)))
              (both (both (d.1 h.1.0.0) (e.1 h.1.0.1)) (both (f.1 h.1.1.0) (g.1 h.1.1.1))),
      )
    where
      both : {x y : Bool} → x ≡ true → y ≡ true → (x && y) ≡ true
      both p q = ground arith

      both_of : {x y : Bool} → (x && y) ≡ true → (x ≡ true) × (y ≡ true)
      both_of p = ground arith

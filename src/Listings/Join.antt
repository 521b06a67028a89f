-- ===== src/Listings/Join.antt =====
-- The join of items with their variants and products: at most one row for an item.
use backend_project.Prelude.{
  suc, ◌≤◌, length, Uuid, false, ◌==◌, ==-iff, ◌≡◌, ◌≢◌, refl, sym, ap, ◌∙◌, subst, Bool-cases, inl,
  inr, List, [], ◌∷◌, ◌++◌, arith,
}
use backend_project.Models.{
  InventoryItem, ProductVariant, Product, item_row, variant_row, product_row,
}
use backend_project.Table.Laws.{UniqueKeys, IsAbsent}
use backend_project.Listings.{Stocked, stocked_row, with_products, with_variants, join_stock}

-- No row, or one row of the item.
pub data IsSingle (id : Uuid) : List Stocked → Type 0 where
  nothing : IsSingle id []
  single : (r : Stocked) → r.item.id ≡ id → IsSingle id (r ∷ [])

with_products-absent :
    (item : InventoryItem) (variant : ProductVariant) (ps : List Product)
    → IsAbsent variant.product_id ps
    → with_products item variant ps ≡ []
unfolding with_products
with_products-absent item variant [] h = refl
with_products-absent item variant (p ∷ ps) h =
    let other : (variant.product_id == p.id) ≡ false = missed variant.product_id p.id h.0 in
    rw other (with_products-absent item variant ps h.1)
  where
    missed : (a b : Uuid) → b ≢ a → (a == b) ≡ false
    missed a b n = ground arith

with_products-IsSingle :
    (item : InventoryItem) (variant : ProductVariant) (ps : List Product)
    → UniqueKeys ps
    → IsSingle item.id (with_products item variant ps)
unfolding with_products
with_products-IsSingle item variant [] keys = nothing
with_products-IsSingle item variant (p ∷ ps) keys = elim (Bool-cases (variant.product_id == p.id)) [
  | inl e ↦
      let same : p.id ≡ variant.product_id = sym ((==-iff variant.product_id p.id).0 e) in
      let rest = with_products-absent item variant ps (subst (λ k. IsAbsent k ps) same keys.0) in
      rw e (rw rest (single _ refl))
  | inr e ↦ rw e (with_products-IsSingle item variant ps keys.1)
]

with_variants-absent :
    (item : InventoryItem) (vs : List ProductVariant) (ps : List Product)
    → IsAbsent item.variant_id vs
    → with_variants item vs ps ≡ []
unfolding with_variants
with_variants-absent item [] ps h = refl
with_variants-absent item (v ∷ vs) ps h =
    let other : (item.variant_id == v.id) ≡ false = missed item.variant_id v.id h.0 in
    rw other (with_variants-absent item vs ps h.1)
  where
    missed : (a b : Uuid) → b ≢ a → (a == b) ≡ false
    missed a b n = ground arith

pub append-nil : {A : Type 0} (xs : List A) → xs ++ [] ≡ xs
append-nil [] = refl
append-nil (x ∷ xs) = ap (λ ys. x ∷ ys) (append-nil xs)

with_variants-IsSingle :
    (item : InventoryItem) (vs : List ProductVariant) (ps : List Product)
    → UniqueKeys vs
    → UniqueKeys ps
    → IsSingle item.id (with_variants item vs ps)
unfolding with_variants
with_variants-IsSingle item [] ps keys others = nothing
with_variants-IsSingle item (v ∷ vs) ps keys others = elim (Bool-cases (item.variant_id == v.id)) [
  | inl e ↦
      let same : v.id ≡ item.variant_id = sym ((==-iff item.variant_id v.id).0 e) in
      let rest = with_variants-absent item vs ps (subst (λ k. IsAbsent k vs) same keys.0) in
      rw e (
        rw rest
          (rw (append-nil (with_products item v ps)) (with_products-IsSingle item v ps others)))
  | inr e ↦ rw e (with_variants-IsSingle item vs ps keys.1 others)
]

-- A row of the join is a row of its item.
single-IsAbsent :
    (id k : Uuid) (rows rest : List Stocked)
    → IsSingle id rows
    → id ≢ k
    → IsAbsent k rest
    → IsAbsent k (rows ++ rest)
single-IsAbsent id k rows rest nothing ne h = h
single-IsAbsent id k rows rest (single r e) ne h = (λ q. ne (sym e ∙ q), h)

join_stock-IsAbsent :
    (k : Uuid) (is : List InventoryItem) (vs : List ProductVariant) (ps : List Product)
    → UniqueKeys vs
    → UniqueKeys ps
    → IsAbsent k is
    → IsAbsent k (join_stock is vs ps)
unfolding join_stock
join_stock-IsAbsent k [] vs ps keys others h = tt
join_stock-IsAbsent k (i ∷ is) vs ps keys others h =
    single-IsAbsent i.id k _ _ (with_variants-IsSingle i vs ps keys others) h.0
      (join_stock-IsAbsent k is vs ps keys others h.1)

single-UniqueKeys :
    (id : Uuid) (rows rest : List Stocked)
    → IsSingle id rows
    → IsAbsent id rest
    → UniqueKeys rest
    → UniqueKeys (rows ++ rest)
single-UniqueKeys id rows rest nothing h keys = keys
single-UniqueKeys id rows rest (single r e) h keys = (subst (λ k. IsAbsent k rest) (sym e) h, keys)

pub join_stock-UniqueKeys :
    (is : List InventoryItem) (vs : List ProductVariant) (ps : List Product)
    → UniqueKeys is
    → UniqueKeys vs
    → UniqueKeys ps
    → UniqueKeys (join_stock is vs ps)
unfolding join_stock
join_stock-UniqueKeys [] vs ps keys a b = tt
join_stock-UniqueKeys (i ∷ is) vs ps keys a b =
    single-UniqueKeys i.id _ _ (with_variants-IsSingle i vs ps a b)
      (join_stock-IsAbsent i.id is vs ps a b keys.0) (join_stock-UniqueKeys is vs ps keys.1 a b)

single-length :
    (id : Uuid) (rows rest : List Stocked)
    → IsSingle id rows
    → length (rows ++ rest) ≤ suc (length rest)
single-length id rows rest nothing = omega arith
single-length id rows rest (single r e) = omega arith

pub length-join_stock :
    (is : List InventoryItem) (vs : List ProductVariant) (ps : List Product)
    → UniqueKeys vs
    → UniqueKeys ps
    → length (join_stock is vs ps) ≤ length is
unfolding join_stock
length-join_stock [] vs ps a b = omega arith
length-join_stock (i ∷ is) vs ps a b =
    let here = single-length i.id _ (join_stock is vs ps) (with_variants-IsSingle i vs ps a b) in
    let rest = length-join_stock is vs ps a b in omega (arith, here, rest)

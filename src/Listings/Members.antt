-- ===== src/Listings/Members.antt =====
-- The rows that a filter, the order by id and the join of the stock leave.
use backend_project.Prelude.{
  suc, length, Uuid, arith, leb, false, ◌==◌, ==-iff, ◌≡◌, ◌↔◌, ◌≢◌, refl, sym, ◌∙◌, ◌⊎◌, ap, inl,
  inr, Bool-cases, List, [], ◌∷◌,
}
use backend_project.Models.{
  InventoryItem, ProductVariant, Product, item_row, variant_row, product_row,
}
use backend_project.Table.{Row}
use backend_project.Table.Laws.{Has}
use backend_project.Table.Members.{append-Has-iff}
use backend_project.Pagination.{insert_by_id, order_by_id}
use backend_project.Listings.{Stocked, with_products, with_variants, join_stock}

module _ {A : Type 0} ⦃row : Row A⦄ where
  insert_by_id-Has-iff : (r x : A) (xs : List A) → Has r (insert_by_id x xs) ↔ ((x ≡ r) ⊎ Has r xs)
  unfolding insert_by_id
  insert_by_id-Has-iff r x [] = ground arith
  insert_by_id-Has-iff r x (y ∷ ys) =
      let rest = insert_by_id-Has-iff r x ys in
      elim (Bool-cases (leb (row.key x) (row.key y))) [
        | inl e ↦ rw e (ground (arith, rest))
        | inr e ↦ rw e (ground (arith, rest))
      ]

  pub order_by_id-Has-iff : (r : A) (xs : List A) → Has r (order_by_id xs) ↔ Has r xs
  unfolding order_by_id
  order_by_id-Has-iff r [] = ground arith
  order_by_id-Has-iff r (x ∷ xs) =
      let rest = order_by_id-Has-iff r xs in
      let here = insert_by_id-Has-iff r x (order_by_id xs) in ground (arith, rest, here)

stocked_path :
    (item : InventoryItem) (variant : ProductVariant) (product : Product) (r : Stocked)
    → r.item ≡ item
    → r.variant ≡ variant
    → product ≡ r.product
    → record { item = item; variant = variant; product = product } ≡ r
stocked_path item variant product r e f g = rw (sym e) (rw (sym f) (rw g refl))

-- A row of an item and a variant with one of these products
abbrev IsFrom : InventoryItem → ProductVariant → List Product → Stocked → Type 0
IsFrom item variant ps r =
    (r.item ≡ item)
    × ((r.variant ≡ variant) × (Has r.product ps × (variant.product_id ≡ r.product.id)))

with_products-Has-iff :
    (r : Stocked) (item : InventoryItem) (variant : ProductVariant) (ps : List Product)
    → Has r (with_products item variant ps) ↔ IsFrom item variant ps r
unfolding with_products
with_products-Has-iff r item variant [] = ground arith
with_products-Has-iff r item variant (p ∷ ps) =
    let rest = with_products-Has-iff r item variant ps in
    elim (Bool-cases (variant.product_id == p.id)) [
      | inl e ↦
          let same : variant.product_id ≡ p.id = (==-iff _ _).0 e in
          rw e (
            λ m. elim m [
              | inl q ↦ (
                sym (ap (λ s. s.item) q),
                (
                  sym (ap (λ s. s.variant) q),
                  (inl (ap (λ s. s.product) q), same ∙ ap (λ s. s.product.id) q),
                ),
              )
              | inr n ↦ let (i, (v, (h, k))) = rest.0 n in (i, (v, (inr h, k)))
            ],
            λ m. elim m.1.1.0 [
              | inl q ↦ inl (stocked_path item variant p r m.0 m.1.0 q)
              | inr n ↦ inr (rest.1 (m.0, (m.1.0, (n, m.1.1.1))))
            ],
          )
      | inr e ↦ rw e (
        λ n. let (i, (v, (h, k))) = rest.0 n in (i, (v, (inr h, k))),
        λ m. elim m.1.1.0 [
          | inl q ↦ absurd (other variant.product_id p.id e (m.1.1.1 ∙ sym (ap (λ x. x.id) q)))
          | inr n ↦ rest.1 (m.0, (m.1.0, (n, m.1.1.1)))
        ],
      )
    ]
  where
    other : (a b : Uuid) → (a == b) ≡ false → a ≢ b
    other a b e q = ground arith

-- A row of an item with one of these variants and one of these products
abbrev IsWith : InventoryItem → List ProductVariant → List Product → Stocked → Type 0
IsWith item vs ps r =
    (r.item ≡ item)
    × (Has r.variant vs
        × (Has r.product ps
            × ((item.variant_id ≡ r.variant.id) × (r.variant.product_id ≡ r.product.id))))

with_variants-Has-iff :
    (r : Stocked) (item : InventoryItem) (vs : List ProductVariant) (ps : List Product)
    → Has r (with_variants item vs ps) ↔ IsWith item vs ps r
unfolding with_variants
with_variants-Has-iff r item [] ps = ground arith
with_variants-Has-iff r item (v ∷ vs) ps =
    let rest = with_variants-Has-iff r item vs ps in
    let first = with_products-Has-iff r item v ps in
    let split = append-Has-iff r (with_products item v ps) (with_variants item vs ps) in
    elim (Bool-cases (item.variant_id == v.id)) [
      | inl e ↦
          let same : item.variant_id ≡ v.id = (==-iff _ _).0 e in
          rw e (
            λ m. elim (split.0 m) [
              | inl n ↦
                  let (i, (w, (h, k))) = first.0 n in
                  (
                    i,
                    (
                      inl (sym w),
                      (h, (same ∙ sym (ap (λ x. x.id) w), ap (λ x. x.product_id) w ∙ k)),
                    ),
                  )
              | inr n ↦ let (i, (w, k)) = rest.0 n in (i, (inr w, k))
            ],
            λ m. elim m.1.0 [
              | inl q ↦
                  split.1
                    (inl (first.1 (m.0, (sym q, (m.1.1.0, ap (λ x. x.product_id) q ∙ m.1.1.1.1)))))
              | inr n ↦ split.1 (inr (rest.1 (m.0, (n, m.1.1))))
            ],
          )
      | inr e ↦ rw e (
        λ n. let (i, (w, k)) = rest.0 n in (i, (inr w, k)),
        λ m. elim m.1.0 [
          | inl q ↦ absurd (other item.variant_id v.id e (m.1.1.1.0 ∙ sym (ap (λ x. x.id) q)))
          | inr n ↦ rest.1 (m.0, (n, m.1.1))
        ],
      )
    ]
  where
    other : (a b : Uuid) → (a == b) ≡ false → a ≢ b
    other a b e q = ground arith

-- An item, the variant that it names and the product that this names, of these tables
abbrev pub AreStored : List InventoryItem → List ProductVariant → List Product → Stocked → Type 0
AreStored is vs ps r =
    Has r.item is
    × (Has r.variant vs
        × (Has r.product ps
            × ((r.item.variant_id ≡ r.variant.id) × (r.variant.product_id ≡ r.product.id))))

pub join_stock-Has-iff :
    (r : Stocked) (is : List InventoryItem) (vs : List ProductVariant) (ps : List Product)
    → Has r (join_stock is vs ps) ↔ AreStored is vs ps r
unfolding join_stock
join_stock-Has-iff r [] vs ps = ground arith
join_stock-Has-iff r (i ∷ is) vs ps =
    let rest = join_stock-Has-iff r is vs ps in
    let first = with_variants-Has-iff r i vs ps in
    let split = append-Has-iff r (with_variants i vs ps) (join_stock is vs ps) in
    (
      λ m. elim (split.0 m) [
        | inl n ↦
            let (e, (v, (p, (a, b)))) = first.0 n in
            (inl (sym e), (v, (p, (ap (λ x. x.variant_id) e ∙ a, b))))
        | inr n ↦ let (h, k) = rest.0 n in (inr h, k)
      ],
      λ m. elim m.0 [
        | inl q ↦ split.1 (
            inl (
              first.1
                (sym q, (m.1.0, (m.1.1.0, (ap (λ x. x.variant_id) q ∙ m.1.1.1.0, m.1.1.1.1))))))
        | inr n ↦ split.1 (inr (rest.1 (n, m.1)))
      ],
    )

module _ {A : Type 0} ⦃row : Row A⦄ where
  insert_by_id-length : (x : A) (xs : List A) → length (insert_by_id x xs) ≡ suc (length xs)
  unfolding insert_by_id
  insert_by_id-length x [] = refl
  insert_by_id-length x (y ∷ ys) =
      let rest = insert_by_id-length x ys in
      elim (Bool-cases (leb (row.key x) (row.key y))) [
        | inl e ↦ rw e refl
        | inr e ↦ rw e (ap suc rest)
      ]

  pub order_by_id-length : (xs : List A) → length (order_by_id xs) ≡ length xs
  unfolding order_by_id
  order_by_id-length [] = refl
  order_by_id-length (x ∷ xs) =
      insert_by_id-length x (order_by_id xs) ∙ ap suc (order_by_id-length xs)

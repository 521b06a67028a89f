-- ===== src/Listings/Inventory.antt =====
-- `list_inventory` shows the stock of the tenant, and no other, to a client that follows its cursors.
use backend_project.Prelude.{
  ℕ, zero, suc, ◌≤◌, ◌<◌, length, String, Option, none, some, Uuid, Bool, ◌≡◌, ◌↔◌, refl, ap, ◌∙◌,
  List, [], ◌∷◌, ◌++◌, map, arith,
}
use backend_project.Models.{Database, item_row, variant_row, product_row}
use backend_project.Errors.{Result, ok, raised, ◌>>=◌}
use backend_project.Models.Enums.{UserRole}
use backend_project.Table.{select}
use backend_project.Table.Laws.{UniqueKeys, Has}
use backend_project.Inventory.View.{InventoryItemResponse, serialize_row}
use backend_project.Pagination.{CursorCodec, Page, order_by_id, list_page, follow, walk}
use backend_project.Pagination.Order.{Ascending, order_by_id-Ascending, select-Ascending}
use backend_project.Pagination.Walk.{IsFaithful, walk_complete}
use backend_project.Listings.{Stocked, stocked_row, map_page, join_stock, list_inventory}
use backend_project.Listings.Join.{join_stock-UniqueKeys, length-join_stock}
use backend_project.Table.Members.{select-Has-iff, select-length}
use backend_project.Listings.Members.{
  order_by_id-Has-iff, AreStored, join_stock-Has-iff, order_by_id-length,
}
use backend_project.Listings.Asked.{IsOwn, Wanted, Meets, listed, is_listed_iff}

abbrev mapped : {A B : Type 0} → (A → B) → Result (List A) → Result (List B)
mapped f (ok xs) = ok (map f xs)
mapped f (raised x) = raised x

map-append : {A B : Type 0} (f : A → B) (xs ys : List A) → map f xs ++ map f ys ≡ map f (xs ++ ys)
map-append f [] ys = refl
map-append f (x ∷ xs) ys = ap (λ zs. f x ∷ zs) (map-append f xs ys)

follow-mapped :
    {A B : Type 0} (f : A → B) (rows : List A) (next : Option String)
    (here : String → Result (List B)) (there : String → Result (List A))
    → ((n : String) → here n ≡ mapped f (there n))
    → follow (map f rows) next here ≡ mapped f (follow rows next there)
unfolding ◌>>=◌
follow-mapped f rows none here there h = refl
follow-mapped {A = A} f rows (some n) here there h = rw (h n) (by_rest (there n))
  where
    by_rest :
        (x : Result (List A))
        → (mapped f x >>= λ more. ok (map f rows ++ more))
          ≡ mapped f (x >>= λ more. ok (rows ++ more))
    by_rest (ok more) = ap ok (map-append f rows more)
    by_rest (raised x) = refl

module _ (db : Database) where
  abbrev joined : List Stocked
  joined = join_stock db.inventory_items db.product_variants db.products

module _ (codec : CursorCodec) (ilike : String → String → Bool) (tenant_id : Uuid) (role : UserRole)
    (limit : ℕ) (wanted : Wanted) (db : Database) where
  -- A client of `list_inventory` that follows `next_cursor`, for at most so many pages
  unfoldable pub walk_inventory : ℕ → Option String → Result (List InventoryItemResponse)
  walk_inventory zero cursor = ok []
  walk_inventory (suc n) cursor =
      list_inventory codec ilike tenant_id role cursor limit wanted.warehouse_id wanted.decay_status
        wanted.low_stock_only wanted.sku db
      >>= λ page. follow page.rows page.next_cursor (λ next. walk_inventory n (some next))

  abbrev pub shown : Stocked → InventoryItemResponse
  shown r = serialize_row r.item r.variant r.product role

  walk_inventory-mapped :
      (n : ℕ) (cursor : Option String)
      → walk_inventory n cursor
        ≡ mapped shown (walk codec (listed ilike tenant_id wanted) limit (joined db) n cursor)
  unfolding walk_inventory walk list_inventory ◌>>=◌
  walk_inventory-mapped zero cursor = refl
  walk_inventory-mapped (suc n) cursor =
      by_page (walk_inventory-mapped n)
        (list_page codec (listed ilike tenant_id wanted) cursor limit (joined db))
    where
      by_page :
          ((next : Option String)
            → walk_inventory n next
              ≡ mapped shown (walk codec (listed ilike tenant_id wanted) limit (joined db) n next))
          → (x : Result (Page Stocked))
          → ((x >>= λ page. ok (map_page shown page)) >>= λ page.
              follow page.rows page.next_cursor (λ next. walk_inventory n (some next)))
            ≡ mapped shown (
                x >>= λ page. follow page.rows page.next_cursor (λ next.
                  walk codec (listed ilike tenant_id wanted) limit (joined db) n (some next)))
      by_page rest (ok page) =
          follow-mapped shown page.rows page.next_cursor _ _ (λ next. rest (some next))
      by_page rest (raised x) = refl

module _ (ilike : String → String → Bool) (tenant_id : Uuid) (wanted : Wanted) (db : Database) where
  -- What a client is to see: the rows of the join, in the order of the items' ids and no item twice,
  -- that are the tenant's and meet what was asked for, and all of these.
  abbrev pub IsView : List Stocked → Type 0
  IsView rows =
      Ascending rows
      × ((r : Stocked)
          → Has r rows ↔ (
              AreStored db.inventory_items db.product_variants db.products r
              × (IsOwn tenant_id r × Meets ilike wanted r)))

  listed-IsView :
      UniqueKeys (joined db)
      → IsView (select (listed ilike tenant_id wanted) (order_by_id (joined db)))
  listed-IsView keys = (
    select-Ascending _ _ (order_by_id-Ascending (joined db) keys),
    λ r.
        let chosen = select-Has-iff (listed ilike tenant_id wanted) r (order_by_id (joined db)) in
        let ordered = order_by_id-Has-iff r (joined db) in
        let stored = join_stock-Has-iff r db.inventory_items db.product_variants db.products in
        let meets = is_listed_iff ilike tenant_id wanted r in
        (
          λ h. (stored.0 (ordered.0 (chosen.0 h).0), meets.0 (chosen.0 h).1),
          λ h. chosen.1 (ordered.1 (stored.1 h.0), meets.1 h.1),
        ),
  )

-- Where items, variants and products have unique ids, encoded cursors are read back, a page may have a
-- row and nothing changes meanwhile: a client that follows the cursors of `list_inventory`, for more
-- pages than there are items, is answered, and sees the stock of its tenant in the order of the items'
-- ids, no item twice. It is shown an item with the variant that it names and the product that this
-- names exactly if all three are stored and the tenant's, and the warehouse, the decay status, the
-- threshold and the SKU are as asked for.
pub walk_inventory-IsView :
    (codec : CursorCodec) (ilike : String → String → Bool) (tenant_id : Uuid) (role : UserRole)
    (limit : ℕ) (wanted : Wanted) (db : Database) (pages : ℕ)
    → IsFaithful codec
    → 1 ≤ limit
    → UniqueKeys db.inventory_items
    → UniqueKeys db.product_variants
    → UniqueKeys db.products
    → length db.inventory_items < pages
    → (rows : List Stocked) × ((walk_inventory codec ilike tenant_id role limit wanted db pages none
          ≡ ok (map (λ r. serialize_row r.item r.variant r.product role) rows))
        × IsView ilike tenant_id wanted db rows)
walk_inventory-IsView codec ilike tenant_id role limit wanted db pages faithful some_rows items
      variants products enough =
    let table = joined db in
    let keys =
      join_stock-UniqueKeys db.inventory_items db.product_variants db.products items variants
        products in
    let rows = select (listed ilike tenant_id wanted) (order_by_id table) in
    let fewer = select-length (listed ilike tenant_id wanted) (order_by_id table) in
    let ordered = order_by_id-length table in
    let joined_length =
      length-join_stock db.inventory_items db.product_variants db.products variants products in
    let complete =
      walk_complete codec (listed ilike tenant_id wanted) limit table pages faithful some_rows keys
        (omega (arith, fewer, ordered, joined_length, enough)) in
    (
      rows,
      (
        walk_inventory-mapped codec ilike tenant_id role limit wanted db pages none
            ∙ ap (mapped (shown codec ilike tenant_id role limit wanted db)) complete,
        listed-IsView ilike tenant_id wanted db keys,
      ),
    )

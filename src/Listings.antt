-- ===== src/Listings.antt =====
-- The listings with joins and filters of their own: list_products (app/services/catalog_service.py),
-- list_inventory (app/services/inventory_service.py), list_email_jobs
-- (app/services/email_job_service.py) and list_audit_logs (app/services/audit_service.py).
pub mod Join
pub mod Members
pub mod Asked
pub mod Inventory
pub mod Forecast
mod Tests
use backend_project.Prelude.{
  ℕ, suc, Uuid, String, ltb, leb, leb_ℤ, Bool, true, false, ◌&&◌, ◌||◌, ◌==◌, str_eq, Option, none,
  some, List, [], ◌∷◌, ◌++◌, any, map, length, take, if◌then◌else◌,
}
use backend_project.Errors.{Result, ok, ◌>>=◌}
use backend_project.Models.{
  Database, Product, ProductVariant, InventoryItem, EmailJob, AuditLog, product_row, job_row,
  audit_row,
}
use backend_project.Models.Enums.{UserRole, DecayStatus}
use backend_project.Table.{Row, select}
use backend_project.Pagination.{CursorCodec, Page, decode_cursor, cut_page, list_page}
use backend_project.Inventory.View.{InventoryItemResponse, serialize_row}
use backend_project.Catalog.Bodies.{ProductResponse, serialize_product}
use backend_project.Models.Enums.{decay_status_eq}

-- `data=[…]` of the response
abbrev pub map_page : {A B : Type 0} → (A → B) → Page A → Page B
map_page f page = record {
  rows = map f page.rows;
  next_cursor = page.next_cursor;
  has_more = page.has_more;
  total_count = page.total_count;
}

unfoldable pub list_email_jobs :
    CursorCodec → Uuid → Option String → ℕ → Database → Result (Page EmailJob)
list_email_jobs codec tenant_id cursor limit db =
    list_page codec (λ j. j.tenant_id == tenant_id) cursor limit db.email_jobs

-- `if category`: an empty one is none.
abbrev pub has_category : Option String → Product → Bool
has_category none p = true
has_category (some category) p = if str_eq category "" then true else is_category p.category
  where
    is_category : Option String → Bool
    is_category none = false
    is_category (some own) = str_eq own category

abbrev pub has_activity : Option Bool → Product → Bool
has_activity none p = true
has_activity (some true) p = p.is_active
has_activity (some false) p = if p.is_active then false else true

-- The variants of a product among those of the page, which are read at once
abbrev pub grouped :
    (List ProductVariant → List ProductVariant)
    → Uuid
    → List Product
    → Database
    → Product
    → List ProductVariant
grouped by_sku tenant_id products db product =
    select (λ v. v.product_id == product.id)
      (by_sku (
        select (λ v. v.tenant_id == tenant_id && any (λ p. p.id == v.product_id) products)
          db.product_variants))

unfoldable pub list_products :
    CursorCodec
    → (List ProductVariant → List ProductVariant)
    → Uuid
    → UserRole
    → Option String
    → ℕ
    → Option String
    → Option Bool
    → Database
    → Result (Page ProductResponse)
list_products codec by_sku tenant_id current_role cursor limit category is_active db = do
  page ←
      list_page codec
        (λ p. p.tenant_id == tenant_id && (has_category category p && has_activity is_active p))
        cursor limit db.products
  ok (
      map_page (λ p. serialize_product current_role p (grouped by_sku tenant_id page.rows db p))
        page)

-- A row of the join of items with their variants and products
pub record Stocked : Type 0 where
  pub item : InventoryItem
  pub variant : ProductVariant
  pub product : Product

instance abbrev pub stocked_row : Row Stocked
stocked_row = record { key = λ r. r.item.id; owner = λ r. r.item.tenant_id }

unfoldable pub with_products : InventoryItem → ProductVariant → List Product → List Stocked
with_products item variant [] = []
with_products item variant (p ∷ ps) =
    let rest = with_products item variant ps in
    if variant.product_id == p.id
    then record { item = item; variant = variant; product = p } ∷ rest
    else rest

unfoldable pub with_variants : InventoryItem → List ProductVariant → List Product → List Stocked
unfolding with_products
with_variants item [] ps = []
with_variants item (v ∷ vs) ps =
    let rest = with_variants item vs ps in
    if item.variant_id == v.id then with_products item v ps ++ rest else rest

-- JOIN of the three tables
unfoldable pub join_stock : List InventoryItem → List ProductVariant → List Product → List Stocked
unfolding with_variants
join_stock [] vs ps = []
join_stock (i ∷ is) vs ps = with_variants i vs ps ++ join_stock is vs ps

abbrev pub is_in : Option Uuid → Stocked → Bool
is_in none r = true
is_in (some warehouse_id) r = r.item.warehouse_id == warehouse_id

abbrev pub has_decay : Option DecayStatus → Stocked → Bool
has_decay none r = true
has_decay (some status) r = decay_status_eq r.item.decay_status status

-- `sku.ilike(f"%{sku}%")`, if there is a text to look for; the match is the database's.
abbrev pub matches_sku : (String → String → Bool) → Option String → Stocked → Bool
matches_sku ilike none r = true
matches_sku ilike (some sku) r = if str_eq sku "" then true else ilike r.variant.sku sku

abbrev pub is_listed :
    (String → String → Bool)
    → Uuid
    → Option Uuid
    → Option DecayStatus
    → Bool
    → Option String
    → Stocked
    → Bool
is_listed ilike tenant_id warehouse_id decay_status low_stock_only sku r =
    (r.item.tenant_id == tenant_id
      && (r.product.tenant_id == tenant_id && r.variant.tenant_id == tenant_id))
    && ((is_in warehouse_id r && has_decay decay_status r)
        && ((if low_stock_only then leb_ℤ r.item.quantity r.item.reorder_threshold else true)
            && matches_sku ilike sku r))

unfoldable pub list_inventory :
    CursorCodec
    → (String → String → Bool)
    → Uuid
    → UserRole
    → Option String
    → ℕ
    → Option Uuid
    → Option DecayStatus
    → Bool
    → Option String
    → Database
    → Result (Page InventoryItemResponse)
list_inventory codec ilike tenant_id current_role cursor limit warehouse_id decay_status
      low_stock_only sku db =
    do
      page ←
          list_page codec (is_listed ilike tenant_id warehouse_id decay_status low_stock_only sku)
            cursor limit (join_stock db.inventory_items db.product_variants db.products)
      ok (map_page (λ r. serialize_row r.item r.variant r.product current_role) page)

-- ORDER BY created_at DESC, id DESC
abbrev pub is_newer : AuditLog → AuditLog → Bool
is_newer a b = ltb b.created_at a.created_at || (a.created_at == b.created_at && leb b.id a.id)

unfoldable pub insert_newest : AuditLog → List AuditLog → List AuditLog
insert_newest x [] = x ∷ []
insert_newest x (y ∷ ys) =
    let rest = insert_newest x ys in if is_newer x y then x ∷ y ∷ ys else y ∷ rest

unfoldable pub order_newest : List AuditLog → List AuditLog
unfolding insert_newest
order_newest [] = []
order_newest (x ∷ xs) = insert_newest x (order_newest xs)

abbrev pub has_text : Option String → String → Bool
has_text none text = true
has_text (some wanted) text = str_eq text wanted

-- `AuditLog.id < decoded_cursor`
abbrev pub is_below : Option Uuid → Uuid → Bool
is_below none id = true
is_below (some cursor) id = ltb id cursor

unfoldable pub list_audit_logs :
    CursorCodec
    → Uuid
    → Option String
    → ℕ
    → Option String
    → Option String
    → Database
    → Result (Page AuditLog)
list_audit_logs codec tenant_id cursor limit entity_type action db = do
  decoded ← decode_cursor codec cursor
  let found =
      select
        (λ l.
          (l.tenant_id == tenant_id
            && (has_text entity_type l.entity_type && has_text action l.action))
          && is_below decoded l.id)
        (order_newest db.audit_logs)
  ok (cut_page codec limit (length found) (take (suc limit) found))

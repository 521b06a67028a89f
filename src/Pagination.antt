-- ===== src/Pagination.antt =====
-- app/pagination.py, and the listings of the services that page through a table by its key:
-- list_transfers, list_suppliers, list_purchase_orders and list_warehouses.
pub mod Order
pub mod Pages
pub mod Walk
pub mod Samples
mod Tests
use backend_project.Prelude.{
  ℕ, zero, suc, ◌+◌, Uuid, String, Bool, true, false, ◌&&◌, ◌||◌, ◌==◌, ltb, leb, str_eq, Option,
  none, some, List, [], ◌∷◌, ◌++◌, length, take, get_last?, if◌then◌else◌,
}
use backend_project.Errors.{Result, ok, raised, ◌>>=◌, app_exception, failure, invalid_cursor}
use backend_project.Models.{
  Database, StockTransfer, Supplier, PurchaseOrder, Warehouse, transfer_row, supplier_row,
  order_row, warehouse_row,
}
use backend_project.Models.Enums.{
  TransferStatus, PurchaseOrderStatus, transfer_status_eq, order_status_eq,
}
use backend_project.Table.{Row, select, or_raise}

-- What `decode_cursor` looks at in a JSON value: the entry "id" of an object.
pub data Entry : Type 0 where
  text : String → Entry
  -- null, a number, a list, …
  no_text : Entry

pub data Payload : Type 0 where
  object : Option Entry → Payload
  -- a list, a text, a number, null, …
  no_object : Payload

-- `json`, `base64` and `uuid`: `dumps` is the base64 of the JSON object whose only entry "id" is this
-- text, and `loads` the JSON value of such a cursor, where base64, UTF-8 and JSON are well-formed.
pub record CursorCodec : Type 0 where
  pub dumps : String → String
  pub loads : String → Option Payload
  pub show_uuid : Uuid → String
  pub parse_uuid : String → Option Uuid

unfoldable pub encode_cursor : CursorCodec → Uuid → String
encode_cursor codec entity_id = codec.dumps (codec.show_uuid entity_id)

-- `uuid.UUID(…)` of a text raises a ValueError, which is handled.
abbrev pub parsed : Option Uuid → Result (Option Uuid)
parsed none = raised (app_exception 400 invalid_cursor)
parsed (some id) = ok (some id)

-- `uuid.UUID(payload["id"])`. A missing entry is a KeyError, which is handled; an entry of another type
-- makes `uuid.UUID` raise a TypeError or an AttributeError, and a payload that is no object makes the
-- lookup raise a TypeError: these pass.
abbrev pub id_of : CursorCodec → Option Payload → Result (Option Uuid)
id_of codec none = raised (app_exception 400 invalid_cursor)
id_of codec (some no_object) = raised failure
id_of codec (some (object none)) = raised (app_exception 400 invalid_cursor)
id_of codec (some (object (some no_text))) = raised failure
id_of codec (some (object (some (text id)))) = parsed (codec.parse_uuid id)

-- No cursor, or an empty one, is the first page.
unfoldable pub decode_cursor : CursorCodec → Option String → Result (Option Uuid)
decode_cursor codec none = ok none
decode_cursor codec (some cursor) =
    if str_eq cursor "" then ok none else id_of codec (codec.loads cursor)

-- `data` is a reserved word: the field is `rows` here.
pub record Page (A : Type 0) : Type 0 where
  pub rows : List A
  pub next_cursor : Option String
  pub has_more : Bool
  pub total_count : ℕ

-- `id > decoded_cursor`, where there is a cursor
abbrev pub is_after : Option Uuid → Uuid → Bool
is_after none id = true
is_after (some cursor) id = ltb cursor id

-- A page's rows, and those of the pages that `next_cursor` leads to
abbrev pub follow :
    {A : Type 0} → List A → Option String → (String → Result (List A)) → Result (List A)
follow rows none rest = ok rows
follow rows (some next) rest = do more ← rest next; ok (rows ++ more)

module _ {A : Type 0} ⦃row : Row A⦄ where
  -- ORDER BY id ASC
  unfoldable pub insert_by_id : A → List A → List A
  insert_by_id x [] = x ∷ []
  insert_by_id x (y ∷ ys) =
      let rest = insert_by_id x ys in if leb (row.key x) (row.key y) then x ∷ y ∷ ys else y ∷ rest

  unfoldable pub order_by_id : List A → List A
  unfolding insert_by_id
  order_by_id [] = []
  order_by_id (x ∷ xs) = insert_by_id x (order_by_id xs)

  abbrev pub cursor_of : CursorCodec → Option A → Option String
  cursor_of codec none = none
  cursor_of codec (some r) = some (encode_cursor codec (row.key r))

  -- What a service makes of `limit + 1` rows and of the count.
  abbrev pub cut_page : CursorCodec → ℕ → ℕ → List A → Page A
  cut_page codec limit total found =
      let has_more = ltb limit (length found) in
      record {
        rows = take limit found;
        next_cursor = if has_more then cursor_of codec (get_last? (take limit found)) else none;
        has_more = has_more;
        total_count = total;
      }

  -- A listing of the rows that pass a filter.
  unfoldable pub list_page : CursorCodec → (A → Bool) → Option String → ℕ → List A → Result (Page A)
  unfolding decode_cursor
  list_page codec filter cursor limit table = do
    decoded ← decode_cursor codec cursor
    let found = select (λ r. filter r && is_after decoded (row.key r)) (order_by_id table)
    ok (cut_page codec limit (length found) (take (suc limit) found))

  -- A client that follows `next_cursor`, for at most so many pages.
  unfoldable pub walk : CursorCodec → (A → Bool) → ℕ → List A → ℕ → Option String → Result (List A)
  walk codec filter limit table zero cursor = ok []
  walk codec filter limit table (suc n) cursor =
      list_page codec filter cursor limit table >>= λ page.
      follow page.rows page.next_cursor (λ next. walk codec filter limit table n (some next))

-- `if status is not None`
abbrev pub has_status : Option TransferStatus → StockTransfer → Bool
has_status none t = true
has_status (some status) t = transfer_status_eq t.status status

abbrev pub touches : Option Uuid → StockTransfer → Bool
touches none t = true
touches (some id) t = t.from_warehouse_id == id || t.to_warehouse_id == id

unfoldable pub list_transfers :
    CursorCodec
    → Uuid
    → Option String
    → ℕ
    → Option TransferStatus
    → Option Uuid
    → Database
    → Result (Page StockTransfer)
list_transfers codec tenant_id cursor limit status warehouse_id db =
    list_page codec
      (λ t. t.tenant_id == tenant_id && (has_status status t && touches warehouse_id t)) cursor
      limit db.stock_transfers

unfoldable pub list_suppliers :
    CursorCodec → Uuid → Option String → ℕ → Bool → Database → Result (Page Supplier)
list_suppliers codec tenant_id cursor limit active_only db =
    list_page codec (λ s. s.tenant_id == tenant_id && (if active_only then s.is_active else true))
      cursor limit db.suppliers

abbrev pub has_order_status : Option PurchaseOrderStatus → PurchaseOrder → Bool
has_order_status none o = true
has_order_status (some status) o = order_status_eq o.status status

unfoldable pub list_purchase_orders :
    CursorCodec
    → Uuid
    → Option String
    → ℕ
    → Option PurchaseOrderStatus
    → Database
    → Result (Page PurchaseOrder)
list_purchase_orders codec tenant_id cursor limit status db =
    list_page codec (λ o. o.tenant_id == tenant_id && has_order_status status o) cursor limit
      db.purchase_orders

unfoldable pub list_warehouses :
    CursorCodec → Uuid → Option String → ℕ → Database → Result (Page Warehouse)
list_warehouses codec tenant_id cursor limit db =
    list_page codec (λ w. w.tenant_id == tenant_id && w.is_active) cursor limit db.warehouses

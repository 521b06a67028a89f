-- ===== src/Stock/Laws.antt =====
-- The stock of a choice of variants, and how storing an item changes it.
use backend_project.Prelude.{
  Uuid, ℤ, pos, ◌+ℤ◌, ◌≤ℤ◌, Bool, true, ◌≡◌, Option, none, some, List, All, if◌then◌else◌, int_laws,
  arith,
}
use backend_project.Errors.{ok}
use backend_project.Models.{InventoryItem, item_row, same_place}
use backend_project.Table.{select, one_or_none}
use backend_project.Table.Laws.{
  UniqueKeys, All-Has, one_or_none-Has, total, total-update, total-insert, update-All,
  update-UniqueKeys, insert-UniqueKeys, insert-All,
}
use backend_project.Stock.{stocked_at, or_item, store_item}

-- The units of an item, if its variant is among the chosen ones.
abbrev pub held : (Uuid → Bool) → InventoryItem → ℤ
held c i = if c i.variant_id then i.quantity else pos 0

pub stocked_at-variant :
    (tenant_id variant_id warehouse_id : Uuid) (i : InventoryItem)
    → stocked_at tenant_id variant_id warehouse_id i ≡ true
    → i.variant_id ≡ variant_id
stocked_at-variant tenant_id variant_id warehouse_id i h = ground arith

pub ok_path : {A : Type 0} {a b : A} → ok a ≡ ok b → a ≡ b
ok_path h = cc

pub some_path : {A : Type 0} {a b : A} → some a ≡ some b → a ≡ b
some_path h = cc

module _ (p : InventoryItem → Bool) (fresh new : InventoryItem)
    (items items' : List InventoryItem) where
  pub store_item-total :
      (c : Uuid → Bool) (found : Option InventoryItem)
      → one_or_none (select p items) ≡ ok found
      → fresh.quantity ≡ pos 0
      → (or_item found fresh).id ≡ new.id
      → UniqueKeys items
      → store_item found new items ≡ ok items'
      → total (held c) items' +ℤ held c (or_item found fresh) ≡ total (held c) items +ℤ held c new
  store_item-total c none e zero_units same u s =
      grind (int_laws, total-insert (held c) same_place new items items' s)
  store_item-total c (some old) e zero_units same u s =
      rw (← ok_path s)
        (total-update (held c) old new items u (one_or_none-Has p old items e).0 same)

module _ (new : InventoryItem) (items items' : List InventoryItem) where
  pub store_item-UniqueKeys :
      (found : Option InventoryItem)
      → store_item found new items ≡ ok items'
      → UniqueKeys items
      → UniqueKeys items'
  store_item-UniqueKeys none s u = insert-UniqueKeys same_place new items items' s u
  store_item-UniqueKeys (some old) s u = rw (← ok_path s) (update-UniqueKeys new items u)

  pub store_item-All :
      (P : InventoryItem → Type 0) (found : Option InventoryItem)
      → store_item found new items ≡ ok items'
      → All P items
      → P new
      → All P items'
  store_item-All P none s h q = insert-All P same_place new items items' s h q
  store_item-All P (some old) s h q = rw (← ok_path s) (update-All P new items h q)

-- The item found, or the new one, has no negative stock.
pub or_item_nonneg :
    (p : InventoryItem → Bool) (fresh : InventoryItem) (items : List InventoryItem)
    (found : Option InventoryItem)
    → one_or_none (select p items) ≡ ok found
    → fresh.quantity ≡ pos 0
    → All (λ i. pos 0 ≤ℤ i.quantity) items
    → pos 0 ≤ℤ (or_item found fresh).quantity
or_item_nonneg p fresh items none e zero_units h = ground arith
or_item_nonneg p fresh items (some i) e zero_units h =
    All-Has (λ i. pos 0 ≤ℤ i.quantity) i items h (one_or_none-Has p i items e).0

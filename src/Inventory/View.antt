-- ===== src/Inventory/View.antt =====
-- app/services/inventory_service.py: what a client sees of an inventory item. Percentages are in
-- hundredths of a percent.
use backend_project.Prelude.{
  ℕ, ◌+◌, ◌*◌, ◌-◌, ◌/◌, Uuid, String, Time, Cents, ℤ, leb_ℤ, Bool, ◌||◌, Option, none, some, ◌==◌,
  if◌then◌else◌,
}
use backend_project.Models.{InventoryItem, ProductVariant, Product}
use backend_project.Models.Enums.{UserRole, super_admin, tenant_admin, role_eq, DecayStatus}

-- a / b to the nearest whole number, halves up (ROUND_HALF_UP of a number of at least zero)
unfoldable pub round_half_up : ℕ → ℕ → ℕ
round_half_up a b = (2 * a + b) / (2 * b)

-- `_discount_pct`: (1 - current / original) * 100, at least 0, with two decimals. `-` stops at 0.
-- The quotient of two amounts below 10^10 is that far from a tie that the 28 digits of `Decimal`
-- round as the exact number does.
unfoldable pub discount_pct : Cents → Cents → ℕ
discount_pct current_price original_price =
    if original_price == 0
    then 0
    else round_half_up (10000 * (original_price - current_price)) original_price

-- `_can_view_cost`
abbrev pub can_view_cost : UserRole → Bool
can_view_cost role = role_eq role super_admin || role_eq role tenant_admin

pub record InventoryVariantView : Type 0 where
  pub id : Uuid
  pub product_id : Uuid
  pub product_name : String
  pub sku : String
  pub color : Option String
  pub size : Option String
  pub barcode : Option String
  pub selling_price : Cents
  pub liquidation_floor_price : Cents
  pub cost_price : Option Cents

pub record InventoryItemResponse : Type 0 where
  pub id : Uuid
  pub warehouse_id : Uuid
  pub quantity : ℤ
  pub reorder_threshold : ℤ
  pub is_low_stock : Bool
  pub decay_status : DecayStatus
  pub current_price : Cents
  pub discount_pct : ℕ
  pub last_sold_at : Option Time
  pub variant : InventoryVariantView

-- `_serialize_inventory_row`
unfoldable pub serialize_row :
    InventoryItem → ProductVariant → Product → UserRole → InventoryItemResponse
serialize_row item variant product role = record {
  id = item.id;
  warehouse_id = item.warehouse_id;
  quantity = item.quantity;
  reorder_threshold = item.reorder_threshold;
  is_low_stock = leb_ℤ item.quantity item.reorder_threshold;
  decay_status = item.decay_status;
  current_price = item.current_price;
  discount_pct = discount_pct item.current_price variant.selling_price;
  last_sold_at = item.last_sold_at;
  variant = record {
    id = variant.id;
    product_id = product.id;
    product_name = product.name;
    sku = variant.sku;
    color = variant.color;
    size = variant.size;
    barcode = variant.barcode;
    selling_price = variant.selling_price;
    liquidation_floor_price = variant.liquidation_floor_price;
    cost_price = if can_view_cost role then some variant.cost_price else none;
  };
}

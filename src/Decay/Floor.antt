-- ===== src/Decay/Floor.antt =====
-- The decay cycle sells nothing below the liquidation floor.
use backend_project.Prelude.{
  ◌≤◌, Uuid, String, true, ◌≡◌, ◌∙◌, ap, refl, Option, none, some, List, [], ◌∷◌, All, Cents, arith,
}
use backend_project.Models.{Database, User, ProductVariant, InventoryItem, item_row}
use backend_project.Table.{select, update}
use backend_project.Table.Laws.{UniqueKeys, Has, update-All, update-UniqueKeys, All-Has}
use backend_project.Session.{Env, start}
use backend_project.Session.Keeps.{Relies, Saves}
use backend_project.EmailJobs.Keeps.{IgnoresMail}
use backend_project.Decay.{run_decay_cycle}
use backend_project.Decay.Price.{Percent, calculate_decay_price}
use backend_project.Decay.Cycle.{
  Settings, Locks, Progress, first_actor, find_variant, logged_by, mark_item, discount_item, decay,
}
use backend_project.Decay.Loops.{mark_all-keeps, discount_all-keeps, select-Pending}
use backend_project.Decay.Services.{Keeps-run_decay_cycle}

abbrev pub floor_of : Option ProductVariant → Cents
floor_of none = 0
floor_of (some v) = v.liquidation_floor_price

-- The price of the item is at least the floor of its variant.
abbrev pub IsFloored : List ProductVariant → InventoryItem → Type 0
IsFloored vs i = floor_of (find_variant i.variant_id vs) ≤ i.current_price

record FlooredRows (vs : List ProductVariant) (p : Progress) : Type 0 where
  keys : UniqueKeys p.items
  floored : All (IsFloored vs) p.items

-- The variants are `vs`, and no item is priced below its floor.
pub record Floored (vs : List ProductVariant) (db : Database) : Type 0 where
  pub variants : db.product_variants ≡ vs
  pub keys : UniqueKeys db.inventory_items
  pub floored : All (IsFloored vs) db.inventory_items

pub Floored-mail : (vs : List ProductVariant) → IgnoresMail (Floored vs)
Floored-mail vs = record {
  any_mail = λ db jobs h. record { variants = h.variants; keys = h.keys; floored = h.floored };
}

floor-le :
    (price floor_price : Cents) (pct : Percent)
    → floor_price ≤ calculate_decay_price price floor_price pct
unfolding calculate_decay_price
floor-le price floor_price pct = ground arith

module _ (vs : List ProductVariant) (env : Env) (settings : Settings) (users : List User) where
  logged_by-FlooredRows :
      (o : Option Uuid) (action : String) (before after : InventoryItem) (p : Progress)
      → FlooredRows vs p
      → FlooredRows vs (logged_by env o action before after p)
  logged_by-FlooredRows none action before after p h = h
  logged_by-FlooredRows (some a) action before after p h = record {
    keys = h.keys;
    floored = h.floored;
  }

  replaced :
      (new : InventoryItem) (p : Progress) (marked discounted : List Uuid)
      → IsFloored vs new
      → FlooredRows vs p
      → FlooredRows vs
          (record p { items = update new p.items; marked = marked; discounted = discounted })
  replaced new p marked discounted q h = record {
    keys = update-UniqueKeys new p.items h.keys;
    floored = update-All (IsFloored vs) new p.items h.floored q;
  }

  mark_item-FlooredRows :
      (item : InventoryItem) (p : Progress)
      → Has item p.items
      → FlooredRows vs p
      → FlooredRows vs (mark_item env settings users item p)
  mark_item-FlooredRows item p m h =
      logged_by-FlooredRows (first_actor item.tenant_id users) _ item _ _ (
        replaced _ p (item.tenant_id ∷ p.marked) p.discounted
          (All-Has (IsFloored vs) item p.items h.floored m) h)

  discount_item-FlooredRows :
      (o : Option ProductVariant) (item : InventoryItem) (p : Progress)
      → find_variant item.variant_id vs ≡ o
      → FlooredRows vs p
      → FlooredRows vs (discount_item env settings users item o p)
  discount_item-FlooredRows none item p e h = h
  discount_item-FlooredRows (some v) item p e h =
      logged_by-FlooredRows (first_actor item.tenant_id users) _ item _ _ (
        replaced _ p p.marked (item.tenant_id ∷ p.discounted)
          (rw e (floor-le item.current_price v.liquidation_floor_price settings.decay_discount_pct))
          h)

  decay-Floored :
      (locks : Locks) (tenant_id : Option Uuid) (db : Database)
      → Floored vs db
      → Saves (Floored vs) (decay env settings locks tenant_id users vs db)
  unfolding decay
  decay-Floored locks tenant_id db h =
      let marked =
        mark_all-keeps (FlooredRows vs) env settings users mark_item-FlooredRows _ _
          (select-Pending _ db.inventory_items h.keys)
          (record { keys = h.keys; floored = h.floored }) in
      let done =
        discount_all-keeps (FlooredRows vs) env settings users vs
          (λ item p m. discount_item-FlooredRows (find_variant item.variant_id vs) item p refl) _ _
          (select-Pending _ _ marked.keys) marked in
      record { variants = h.variants; keys = done.keys; floored = done.floored }

select-all : (vs : List ProductVariant) → select (λ _. true) vs ≡ vs
unfolding select
select-all [] = refl
select-all (v ∷ vs) = ap (λ xs. v ∷ xs) (select-all vs)

-- A run of the decay cycle over all tenants leaves no item priced below the liquidation floor of its
-- variant, however it ends, if none was before
-- and item keys are unique, and if the same holds of what other sessions commit
-- and they leave the variants as they are.
pub run_decay_cycle-Floored :
    (env : Env) (settings : Settings) (locks : Locks) (vs : List ProductVariant) (db : Database)
    → Relies env (Floored vs)
    → Floored vs db
    → Floored vs (run_decay_cycle env settings locks none (start db)).1.committed
run_decay_cycle-Floored env settings locks vs db rely h =
    ((Keeps-run_decay_cycle env rely (Floored-mail vs) settings locks none (λ before b users d k.
        rw (ap (λ xs. select (λ _. true) xs) b.variants ∙ select-all vs)
          (decay-Floored vs env settings users locks none d k))).at
      (start db) (h, h)).0

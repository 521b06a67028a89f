-- ===== src/AuditTrail/Decay.antt =====
-- The decay cycle changes no quantity, and logs none.
use backend_project.Prelude.{
  Uuid, String, Bool, ℤ, ◌+ℤ◌, ◌-ℤ◌, ◌≡◌, ◌∙◌, ap, sym, refl, int_laws, Option, none, some, List,
  ◌∷◌,
}
use backend_project.Models.{Database, User, ProductVariant, InventoryItem, item_row}
use backend_project.Table.{update}
use backend_project.Table.Laws.{total, Has, UniqueKeys, total-update, update-UniqueKeys}
use backend_project.Session.{Env}
use backend_project.Session.Keeps.{Saves}
use backend_project.Stock.Laws.{held}
use backend_project.Decay.Cycle.{
  Settings, Locks, Progress, first_actor, find_variant, logged_by, mark_item, discount_item, decay,
}
use backend_project.Decay.Loops.{mark_all-keeps, discount_all-keeps, select-Pending}
use backend_project.AuditTrail.{logged, Explained}

-- The books in the middle of the cycle.
record Traced (c : Uuid → Bool) (n : ℤ) (p : Progress) : Type 0 where
  keys : UniqueKeys p.items
  trail : total (held c) p.items ≡ n +ℤ total (logged c) p.logs

same_sum : (a b w : ℤ) → a +ℤ w ≡ b +ℤ w → a ≡ b
same_sum a b w e = grind int_laws

no_change : (w n : ℤ) → (w -ℤ w) +ℤ n ≡ n
no_change w n = omega int_laws

module _ (c : Uuid → Bool) (n : ℤ) where
  logged_by-Traced :
      (env : Env) (o : Option Uuid) (action : String) (before after : InventoryItem) (p : Progress)
      → held c after ≡ held c before
      → Traced c n p
      → Traced c n (logged_by env o action before after p)
  logged_by-Traced env none action before after p same h = h
  logged_by-Traced env (some a) action before after p same h = record {
    keys = h.keys;
    trail = rw same (h.trail ∙ ap (λ x. n +ℤ x) (sym (no_change (held c before) _)));
  }

  -- A row that keeps its quantity keeps the sum.
  replaced :
      (old new : InventoryItem) (p : Progress) (marked discounted : List Uuid)
      → old.id ≡ new.id
      → held c new ≡ held c old
      → Has old p.items
      → Traced c n p
      → Traced c n
          (record p { items = update new p.items; marked = marked; discounted = discounted })
  replaced old new p marked discounted id_same same m h = record {
    keys = update-UniqueKeys new p.items h.keys;
    trail =
        same_sum _ _ (held c old) (
          total-update (held c) old new p.items h.keys m id_same
          ∙ ap (λ x. total (held c) p.items +ℤ x) same)
        ∙ h.trail;
  }

  module _ (env : Env) (settings : Settings) (users : List User) where
    mark_item-Traced :
        (item : InventoryItem) (p : Progress)
        → Has item p.items
        → Traced c n p
        → Traced c n (mark_item env settings users item p)
    mark_item-Traced item p m h =
        logged_by-Traced env (first_actor item.tenant_id users) _ item _ _ refl
          (replaced item _ p (item.tenant_id ∷ p.marked) p.discounted refl refl m h)

    discount_item-Traced :
        (o : Option ProductVariant) (item : InventoryItem) (p : Progress)
        → Has item p.items
        → Traced c n p
        → Traced c n (discount_item env settings users item o p)
    discount_item-Traced none item p m h = h
    discount_item-Traced (some v) item p m h =
        logged_by-Traced env (first_actor item.tenant_id users) _ item _ _ refl
          (replaced item _ p p.marked (item.tenant_id ∷ p.discounted) refl refl m h)

    pub decay-Explained :
        (locks : Locks) (tenant_id : Option Uuid) (variants : List ProductVariant) (db : Database)
        → Explained c n db
        → Saves (Explained c n) (decay env settings locks tenant_id users variants db)
    unfolding decay
    decay-Explained locks tenant_id variants db h =
        let marked =
          mark_all-keeps (Traced c n) env settings users mark_item-Traced _ _
            (select-Pending _ db.inventory_items h.keys)
            (record { keys = h.keys; trail = h.trail }) in
        let done =
          discount_all-keeps (Traced c n) env settings users variants
            (λ item. discount_item-Traced (find_variant item.variant_id variants) item) _ _
            (select-Pending _ _ marked.keys) marked in
        record { keys = done.keys; trail = done.trail }

-- ===== src/Decay/Loops.antt =====
-- Induction over the loops of the decay cycle: each row that a loop changes is in the table.
use backend_project.Prelude.{
  Uuid, String, Bool, ◌≡◌, ◌∙◌, sym, refl, Option, none, some, List, [], ◌∷◌, All,
}
use backend_project.Models.{User, ProductVariant, InventoryItem, item_row}
use backend_project.Table.{select, update}
use backend_project.Table.Laws.{
  IsAbsent, UniqueKeys, Has, update-Has_ne, select-UniqueKeys, select-All-Has,
}
use backend_project.Session.{Env}
use backend_project.Decay.Cycle.{
  Settings, Progress, first_actor, find_variant, logged_by, mark_item, mark_all, discount_item,
  discount_all,
}

-- The rows still to be changed.
pub record Pending (todo items : List InventoryItem) : Type 0 where
  pub keys : UniqueKeys todo
  pub listed : All (λ i. Has i items) todo

others :
    (x after : InventoryItem) (todo items : List InventoryItem)
    → x.id ≡ after.id
    → IsAbsent x.id todo
    → All (λ i. Has i items) todo
    → All (λ i. Has i (update after items)) todo
others x after [] items same absent h = tt
others x after (y ∷ ys) items same absent h = (
  update-Has_ne y after items (λ e. absent.0 (e ∙ sym same)) h.0,
  others x after ys items same absent.1 h.1,
)

pub next-Pending :
    (x after : InventoryItem) (todo items : List InventoryItem)
    → x.id ≡ after.id
    → Pending (x ∷ todo) items
    → Pending todo (update after items)
next-Pending x after todo items same h = record {
  keys = h.keys.1;
  listed = others x after todo items same h.keys.0 h.listed.1;
}

pub select-Pending :
    (p : InventoryItem → Bool) (items : List InventoryItem)
    → UniqueKeys items
    → Pending (select p items) items
select-Pending p items u = record {
  keys = select-UniqueKeys p items u;
  listed = select-All-Has p items;
}

-- A log does not touch the rows.
logged_by-items :
    (env : Env) (o : Option Uuid) (action : String) (before after : InventoryItem) (p : Progress)
    → (logged_by env o action before after p).items ≡ p.items
logged_by-items env none action before after p = refl
logged_by-items env (some a) action before after p = refl

module _ (Q : Progress → Type 0) (env : Env) (settings : Settings) (users : List User) where
  -- What each marking keeps, the loop keeps.
  pub mark_all-keeps :
      ((item : InventoryItem) (p : Progress)
        → Has item p.items
        → Q p
        → Q (mark_item env settings users item p))
      → (todo : List InventoryItem) (p : Progress) → Pending todo p.items
      → Q p
      → Q (mark_all env settings users todo p)
  unfolding mark_all
  mark_all-keeps step [] p pending q = q
  mark_all-keeps step (x ∷ xs) p pending q =
      mark_all-keeps step xs (mark_item env settings users x p)
        (rw (logged_by-items env (first_actor x.tenant_id users) _ x _ _)
          (next-Pending x _ xs p.items refl pending))
        (step x p pending.listed.0 q)

  -- What each discount keeps, the loop keeps.
  pub discount_all-keeps :
      (variants : List ProductVariant)
      → ((item : InventoryItem) (p : Progress)
          → Has item p.items
          → Q p
          → Q (discount_item env settings users item (find_variant item.variant_id variants) p))
      → (todo : List InventoryItem) (p : Progress) → Pending todo p.items
      → Q p
      → Q (discount_all env settings users variants todo p)
  unfolding discount_all
  discount_all-keeps variants step [] p pending q = q
  discount_all-keeps variants step (x ∷ xs) p pending q =
      discount_all-keeps variants step xs
        (discount_item env settings users x (find_variant x.variant_id variants) p)
        (rest (find_variant x.variant_id variants)) (step x p pending.listed.0 q)
    where
      rest : (o : Option ProductVariant) → Pending xs (discount_item env settings users x o p).items
      rest none = record { keys = pending.keys.1; listed = pending.listed.1 }
      rest (some v) =
          rw (logged_by-items env (first_actor x.tenant_id users) _ x _ _)
            (next-Pending x _ xs p.items refl pending)

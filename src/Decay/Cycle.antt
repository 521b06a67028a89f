-- ===== src/Decay/Cycle.antt =====
-- The transaction of `run_decay_cycle`: dead stock is marked, and what has been marked for long enough
-- is discounted.
use backend_project.Prelude.{
  ℕ, ◌+◌, ◌*◌, ltb, leb, Uuid, Time, String, Bool, true, false, not, ◌&&◌, ◌==◌, Option, none, some,
  List, [], ◌∷◌, if◌then◌else◌,
}
use backend_project.Errors.{Result, ok}
use backend_project.Models.{Database, User, ProductVariant, InventoryItem, AuditLog, item_row}
use backend_project.Models.Enums.{normal, liquidating, decay_status_eq}
use backend_project.Models.Rows.{item_dump}
use backend_project.Table.{select, update}
use backend_project.Audit.{build_audit_log}
use backend_project.Session.{Env}
use backend_project.Decay.Price.{Percent, calculate_decay_price}

-- The settings that the cycle reads.
pub record Settings : Type 0 where
  pub decay_start_days : ℕ
  pub decay_interval_hours : ℕ
  pub decay_discount_pct : Percent

-- What `with_for_update(skip_locked=True)` leaves out of each of the two queries.
pub record Locks : Type 0 where
  pub marking : Uuid → Bool
  pub discounting : Uuid → Bool

-- `if tenant_id is not None: … == tenant_id`
abbrev pub of_tenant : Option Uuid → Uuid → Bool
of_tenant none owner = true
of_tenant (some tenant_id) owner = owner == tenant_id

-- `last_sold_at < mark_before`, where it is not null
abbrev pub sold_before : Option Time → ℕ → Time → Bool
sold_before none days now = false
sold_before (some t) days now = ltb (t + 86400 * days) now

-- `decay_started_at <= discount_before`, where it is not null
abbrev pub started_before : Option Time → ℕ → Time → Bool
started_before none hours now = false
started_before (some t) hours now = leb (t + 3600 * hours) now

abbrev pub is_dead : Settings → Time → Option Uuid → InventoryItem → Bool
is_dead settings now tenant_id i =
    decay_status_eq i.decay_status normal
    && (sold_before i.last_sold_at settings.decay_start_days now && of_tenant tenant_id i.tenant_id)

abbrev pub is_due : Settings → Time → Option Uuid → InventoryItem → Bool
is_due settings now tenant_id i =
    decay_status_eq i.decay_status liquidating
    && (started_before i.decay_started_at settings.decay_interval_hours now
        && of_tenant tenant_id i.tenant_id)

-- `actor_map.get(…)`: the first active user of the tenant.
unfoldable pub first_actor : Uuid → List User → Option Uuid
first_actor tenant_id [] = none
first_actor tenant_id (u ∷ us) =
    let rest = first_actor tenant_id us in if u.tenant_id == tenant_id then some u.id else rest

-- `variants[…]`
unfoldable pub find_variant : Uuid → List ProductVariant → Option ProductVariant
find_variant variant_id [] = none
find_variant variant_id (v ∷ vs) =
    let rest = find_variant variant_id vs in if v.id == variant_id then some v else rest

-- The rows that the loops have changed so far, how many ids their logs have drawn, and the tenant of
-- each item that was marked or discounted: the counts of `DecayRunResult` are their lengths.
pub record Progress : Type 0 where
  pub items : List InventoryItem
  pub logs : List AuditLog
  pub drawn : ℕ
  pub marked : List Uuid
  pub discounted : List Uuid

-- `if actor_id is not None`
abbrev pub logged_by :
    Env → Option Uuid → String → InventoryItem → InventoryItem → Progress → Progress
logged_by env none action before after p = p
logged_by env (some actor_id) action before after p = record p {
  logs =
      build_audit_log env p.drawn before.tenant_id actor_id action "inventory_item" before.id
        (some (item_dump before)) (some (item_dump after))
      ∷ p.logs;
  drawn = p.drawn + 1;
}

module _ (env : Env) (settings : Settings) (users : List User) where
  abbrev pub mark_item : InventoryItem → Progress → Progress
  mark_item item p =
      let after = record item { decay_status = liquidating; decay_started_at = some env.now } in
      logged_by env (first_actor item.tenant_id users) "DECAY_MARKED_LIQUIDATING" item after
        (record p { items = update after p.items; marked = item.tenant_id ∷ p.marked })

  unfoldable pub mark_all : List InventoryItem → Progress → Progress
  mark_all [] p = p
  mark_all (item ∷ items) p = mark_all items (mark_item item p)

  -- `if item.variant_id not in variants: continue`
  abbrev pub discount_item : InventoryItem → Option ProductVariant → Progress → Progress
  discount_item item none p = p
  discount_item item (some variant) p =
      let after = record item {
        current_price =
            calculate_decay_price item.current_price variant.liquidation_floor_price
              settings.decay_discount_pct;
        decay_started_at = some env.now;
      } in
      logged_by env (first_actor item.tenant_id users) "DECAY_DISCOUNT_APPLIED" item after
        (record p { items = update after p.items; discounted = item.tenant_id ∷ p.discounted })

  unfoldable pub discount_all : List ProductVariant → List InventoryItem → Progress → Progress
  discount_all variants [] p = p
  discount_all variants (item ∷ items) p =
      discount_all variants items (discount_item item (find_variant item.variant_id variants) p)

-- The `try` of `run_decay_cycle`, from what was read before it; the tenants of the changed items.
unfoldable pub decay :
    Env
    → Settings
    → Locks
    → Option Uuid
    → List User
    → List ProductVariant
    → Database
    → Result ((List Uuid × List Uuid) × Database)
decay env settings locks tenant_id users variants db = do
  let to_mark =
      select (λ i. is_dead settings env.now tenant_id i && not (locks.marking i.id))
        db.inventory_items
  let marked = mark_all env settings users to_mark (record {
    items = db.inventory_items;
    logs = db.audit_logs;
    drawn = 0;
    marked = [];
    discounted = [];
  })
  let to_discount =
      select (λ i. is_due settings env.now tenant_id i && not (locks.discounting i.id)) marked.items
  let done = discount_all env settings users variants to_discount marked
  ok (
    (done.marked, done.discounted),
    record db { inventory_items = done.items; audit_logs = done.logs },
  )

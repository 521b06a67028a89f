-- ===== src/Inventory/Reserve.antt =====
-- app/services/inventory_service.py: `reserve_stock`, which keeps reservations in Redis.
use backend_project.Prelude.{
  ℕ, ◌+◌, Uuid, String, Time, ℤ, pos, ◌+ℤ◌, ◌-ℤ◌, ltb_ℤ, Bool, not, ◌&&◌, ◌==◌, List, [], ◌∷◌,
  if◌then◌else◌,
}
use backend_project.Errors.{ok, raise_if, app_exception, failure, insufficient_stock}
use backend_project.Models.{Database}
use backend_project.Table.{select, one_or_none, or_raise}
use backend_project.Stock.{get_variant, get_warehouse, stocked_at}
use backend_project.Session.{Env}
use backend_project.Redis.{
  Redis, RedisExec, Entry, ReservationKey, Reservation, is_live, setex, lift, command, ◌>>=◌, ◌>>◌,
}
use backend_project.Redis.Laws.{reservation_key}
use backend_project.Auth.Library.{Settings}

-- `quantity` is at least 1.
pub record ReservationRequest : Type 0 where
  pub variant_id : Uuid
  pub warehouse_id : Uuid
  pub quantity : ℤ
  pub order_reference : String

pub record ReservationResponse : Type 0 where
  pub reservation_id : String
  pub expires_at : Time

-- The keys that begin with `prefix`
abbrev pub is_for : Uuid → Uuid → Uuid → ReservationKey → Bool
is_for tenant_id warehouse_id variant_id key =
    key.tenant_id == tenant_id && (key.warehouse_id == warehouse_id && key.variant_id == variant_id)

-- `_reserved_quantity`: SCAN yields each key once.
unfoldable pub reserved_quantity :
    Time → Uuid → Uuid → Uuid → List (Entry ReservationKey Reservation) → ℤ
reserved_quantity now tenant_id warehouse_id variant_id [] = pos 0
reserved_quantity now tenant_id warehouse_id variant_id (e ∷ es) =
    let rest = reserved_quantity now tenant_id warehouse_id variant_id es in
    if is_for tenant_id warehouse_id variant_id e.key && is_live now e.expires_at
    then rest +ℤ e.value.quantity
    else rest

abbrev pub add_reservation : Time → ℕ → Uuid → ReservationRequest → String → Redis → Redis
add_reservation now seconds tenant_id request reservation_id r = record r {
  reservations =
      setex now
        (record {
          tenant_id = tenant_id;
          warehouse_id = request.warehouse_id;
          variant_id = request.variant_id;
          reservation_id = reservation_id;
        })
        seconds (record { quantity = request.quantity; order_reference = request.order_reference })
        r.reservations;
}

-- `short_id` is `hex[:12]`; `acquired` tells whether the lock was got in time. Who holds the lock is
-- alone, so that the body is one step.
unfoldable pub reserve_stock :
    (Uuid → String)
    → Bool
    → Settings
    → Env
    → Uuid
    → ReservationRequest
    → Database
    → RedisExec ReservationResponse
reserve_stock short_id acquired settings env tenant_id request db = do
  variant ← lift (get_variant tenant_id request.variant_id db)
  warehouse ← lift (get_warehouse tenant_id request.warehouse_id db)
  lift (raise_if (not acquired) failure)
  found ← lift (
      one_or_none
        (select (stocked_at tenant_id request.variant_id request.warehouse_id) db.inventory_items))
  item ← lift (or_raise (app_exception 409 insufficient_stock) found)
  reserved_total ← command (λ r. (
    reserved_quantity env.now tenant_id request.warehouse_id request.variant_id r.reservations,
    r,
  ))
  lift (
      raise_if (ltb_ℤ (item.quantity -ℤ reserved_total) request.quantity)
        (app_exception 409 insufficient_stock))
  let reservation_id = short_id (env.uuid4 0)
  command (λ r. (
    tt,
    add_reservation env.now settings.reservation_ttl_seconds tenant_id request reservation_id r,
  ))
  lift (
      ok (record {
        reservation_id = reservation_id;
        expires_at = env.now + settings.reservation_ttl_seconds;
      }))

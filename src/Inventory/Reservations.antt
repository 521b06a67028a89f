-- ===== src/Inventory/Reservations.antt =====
-- Reservations never exceed the stock that they are checked against.
use backend_project.Prelude.{
  ℕ, ◌≤◌, Uuid, String, Time, ℤ, pos, ◌+ℤ◌, ◌-ℤ◌, ◌≤ℤ◌, ltb_ℤ, Bool, true, false, ◌≡◌, ap, ◌∙◌,
  Bool-cases, inl, inr, some, List, [], ◌∷◌, All, arith, int_laws,
}
use backend_project.Errors.{ok}
use backend_project.Models.{Database, InventoryItem}
use backend_project.Table.{select, one_or_none}
use backend_project.Table.Laws.{one_or_none-Has, All-Has}
use backend_project.Stock.{stocked_at}
use backend_project.Session.{Env}
use backend_project.Redis.{Redis, Entry, ReservationKey, Reservation, forget}
use backend_project.Redis.Effects.{Reaches, Reaches-lift_bind, Reaches-command_bind, Reaches-lift}
use backend_project.Redis.Laws.{reservation_key}
use backend_project.Transfers.Lookup.{or_raise-ok, raise_if-ok}
use backend_project.Auth.Library.{Settings}
use backend_project.Inventory.Reserve.{
  ReservationRequest, is_for, reserved_quantity, add_reservation, reserve_stock,
}
use backend_project.Inventory.Reserved.{AreSome, add_both, forget-AreSome, forget_less, later_less}

-- Where a reservation changes Redis, the units were there.
module _ (short_id : Uuid → String) (acquired : Bool) (settings : Settings) (env : Env) (t : Uuid)
    (request : ReservationRequest) (db : Database) (r : Redis) where
  pub reserve_stock-after :
      (Q : Redis → Type 0)
      → Q r
      → ((item : InventoryItem)
          → one_or_none
              (select (stocked_at t request.variant_id request.warehouse_id) db.inventory_items)
            ≡ ok (some item)
          → ltb_ℤ
              (item.quantity
                -ℤ reserved_quantity env.now t request.warehouse_id request.variant_id
                    r.reservations)
              request.quantity
            ≡ false
          → Q (
              add_reservation env.now settings.reservation_ttl_seconds t request
                (short_id (env.uuid4 0))
                r))
      → Reaches Q r (reserve_stock short_id acquired settings env t request db)
  unfolding reserve_stock
  reserve_stock-after Q h k = Reaches-lift_bind h λ variant _. Reaches-lift_bind h λ warehouse _.
      Reaches-lift_bind h λ _ _. Reaches-lift_bind h λ found e. Reaches-lift_bind h λ item f.
        Reaches-command_bind _ _ (
          Reaches-lift_bind h λ _ g.
            Reaches-command_bind _ _ (
              Reaches-lift (k item (e ∙ ap ok (or_raise-ok _ found item f)) (raise_if-ok _ _ _ g))))

-- The reservations of a place cover at most `q` units from `now` on.
record IsWithin (t w v : Uuid) (q : ℤ) (now : Time) (r : Redis) : Type 0 where
  some_units : AreSome r.reservations
  within : reserved_quantity now t w v r.reservations ≤ℤ q

IsWithin-later :
    (t w v : Uuid) (q : ℤ) (now later : Time) (r : Redis)
    → now ≤ later
    → IsWithin t w v q now r
    → IsWithin t w v q later r
IsWithin-later t w v q now later r l h = record {
  some_units = h.some_units;
  within = omega (arith, later_less t w v now later r.reservations l h.some_units, h.within);
}

-- At most `q` units of the variant lie in the warehouse.
abbrev AtMost : Uuid → Uuid → Uuid → ℤ → Database → Type 0
AtMost t w v q db = All (λ i. stocked_at t v w i ≡ true → i.quantity ≤ℤ q) db.inventory_items

fits :
    (stock taken asked q : ℤ)
    → ltb_ℤ (stock -ℤ taken) asked ≡ false
    → stock ≤ℤ q
    → taken +ℤ asked ≤ℤ q
fits stock taken asked q e h = grind int_laws

place_parts :
    (t w v : Uuid) (k : ReservationKey)
    → is_for t w v k ≡ true
    → (k.tenant_id ≡ t) × ((k.warehouse_id ≡ w) × (k.variant_id ≡ v))
place_parts t w v k e = ground arith

add_reservation-IsWithin :
    (t w v : Uuid) (q : ℤ) (now : Time) (seconds : ℕ) (tenant_id : Uuid)
    (request : ReservationRequest) (id : String) (r : Redis)
    → pos 0 ≤ℤ request.quantity
    → IsWithin t w v q now r
    → (tenant_id ≡ t
        → request.warehouse_id ≡ w
        → request.variant_id ≡ v
        → reserved_quantity now t w v r.reservations +ℤ request.quantity ≤ℤ q)
    → IsWithin t w v q now (add_reservation now seconds tenant_id request id r)
unfolding reserved_quantity
add_reservation-IsWithin t w v q now seconds tenant_id request id r units h room =
    let key : ReservationKey = record {
      tenant_id = tenant_id;
      warehouse_id = request.warehouse_id;
      variant_id = request.variant_id;
      reservation_id = id;
    } in
    let kept = forget_less t w v now key r.reservations h.some_units in
    let old = reserved_quantity now t w v r.reservations in
    let rest = reserved_quantity now t w v (forget key r.reservations) in
    record {
      some_units = (units, forget-AreSome t w v key r.reservations h.some_units);
      within = elim (Bool-cases (is_for t w v key)) [
        | inl e ↦
            let (a, (b, c)) = place_parts t w v key e in
            let both = add_both rest old request.quantity kept in
            ground (arith, both, room a b c, h.within, kept)
        | inr e ↦ rw e (omega (arith, kept, h.within))
      ];
    }

-- A reservation, with the database and the lock that it finds.
pub record Call : Type 0 where
  pub acquired : Bool
  pub env : Env
  pub tenant_id : Uuid
  pub request : ReservationRequest
  pub db : Database

module _ (short_id : Uuid → String) (settings : Settings) where
  abbrev reserve : Call → Redis → Redis
  reserve c r = (reserve_stock short_id c.acquired settings c.env c.tenant_id c.request c.db r).1

  unfoldable pub serve_reservations : List Call → Redis → Redis
  serve_reservations [] r = r
  serve_reservations (c ∷ cs) r = serve_reservations cs (reserve c r)

  -- The calls come one after the other, from `now` on; each asks for at least a unit, and finds at
  -- most `q` units in the place.
  abbrev pub AllFind : Uuid → Uuid → Uuid → ℤ → Time → List Call → Type 0
  AllFind t w v q now [] = Unit
  AllFind t w v q now (c ∷ cs) =
      (now ≤ c.env.now)
      × ((pos 1 ≤ℤ c.request.quantity) × (AtMost t w v q c.db × AllFind t w v q c.env.now cs))

  reserve-IsWithin :
      (t w v : Uuid) (q : ℤ) (c : Call) (r : Redis)
      → pos 1 ≤ℤ c.request.quantity
      → AtMost t w v q c.db
      → IsWithin t w v q c.env.now r
      → IsWithin t w v q c.env.now (reserve c r)
  reserve-IsWithin t w v q c r units most h =
      (reserve_stock-after short_id c.acquired settings c.env c.tenant_id c.request c.db r
        (IsWithin t w v q c.env.now) h added).reached
    where
      added :
          (item : InventoryItem)
          → one_or_none (
              select
                (stocked_at c.tenant_id c.request.variant_id c.request.warehouse_id)
                c.db.inventory_items)
            ≡ ok (some item)
          → ltb_ℤ
              (item.quantity
                -ℤ reserved_quantity c.env.now c.tenant_id c.request.warehouse_id
                    c.request.variant_id r.reservations)
              c.request.quantity
            ≡ false
          → IsWithin t w v q c.env.now (
              add_reservation c.env.now settings.reservation_ttl_seconds c.tenant_id c.request
                (short_id (c.env.uuid4 0))
                r)
      added item e g =
          let (listed, here) = one_or_none-Has _ item c.db.inventory_items e in
          add_reservation-IsWithin t w v q c.env.now settings.reservation_ttl_seconds c.tenant_id
            c.request (short_id (c.env.uuid4 0)) r (omega arith) h
            (λ a b d.
              fits item.quantity (reserved_quantity c.env.now t w v r.reservations)
                c.request.quantity q (rw (← a) (rw (← b) (rw (← d) g)))
                (All-Has _ item c.db.inventory_items most listed
                  (rw (← a) (rw (← b) (rw (← d) here)))))

  -- If at most `q` units of a place are reserved, with no reservation of a negative quantity, and then
  -- calls are served one after the other that each ask for at least a unit and each find at most `q`
  -- units of stock in this place, then still at most `q` units of it are reserved at any later time.
  pub serve_reservations-within :
      (t w v : Uuid) (q : ℤ) (now later : Time) (cs : List Call) (r : Redis)
      → All (λ (e : Entry ReservationKey Reservation). pos 0 ≤ℤ e.value.quantity) r.reservations
      → reserved_quantity now t w v r.reservations ≤ℤ q
      → AllFind t w v q now cs
      → All (λ (c : Call). c.env.now ≤ later) cs
      → now ≤ later
      → reserved_quantity later t w v (serve_reservations cs r).reservations ≤ℤ q
  unfolding serve_reservations
  serve_reservations-within t w v q now later [] r some_units within h before l =
      (IsWithin-later t w v q now later r l
        (record { some_units = some_units; within = within })).within
  serve_reservations-within t w v q now later (c ∷ cs) r some_units within h before l =
      let (after, (units, (most, rest))) = h in
      let at_call =
        IsWithin-later t w v q now c.env.now r after
          (record { some_units = some_units; within = within }) in
      let next = reserve-IsWithin t w v q c r units most at_call in
      serve_reservations-within t w v q c.env.now later cs (reserve c r) next.some_units next.within
        rest before.1 before.0

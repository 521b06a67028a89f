-- ===== src/Decay/Tests.antt =====
-- The discounted price at concrete numbers, and a run of the cycle in the sample shop.
use backend_project.Prelude.{false, none, some, [], ◌∷◌, map, ◌≡◌, ◌≤◌, refl, arith}
use backend_project.Inventory.View.{round_half_up}
use backend_project.Errors
use backend_project.Errors.{Result, ok}
use backend_project.Models.{Database, InventoryItem}
use backend_project.Models.Enums.{liquidating}
use backend_project.Session.{Env, Session, start, transaction, ◌>>=◌}
use backend_project.Table.{select, update}
use backend_project.EmailJobs.{create_email_job, queue_decay_alert_email}
use backend_project.Samples.{calm, shelf, shop, red_shirt}
use backend_project.Decay.{DecayRunResult, count, mail_results, run_decay_cycle}
use backend_project.Decay.Cycle.{
  Settings, Locks, first_actor, find_variant, mark_all, discount_all, decay,
}
use backend_project.Decay.Floor.{Floored, run_decay_cycle-Floored}
use backend_project.Decay.Price.{Percent, calculate_decay_price}
use backend_project.Decay.Laws.{calculate_decay_price-bounds}

-- 12.5 percent
abbrev eighth : Percent
eighth = record { units = 125; scale = 10 }

calculate_decay_price_test : calculate_decay_price 4990 2990 eighth ≡ 4366
unfolding calculate_decay_price round_half_up
calculate_decay_price_test = refl

calculate_decay_price-bounds_example :
    (2990 ≤ calculate_decay_price 4990 2990 eighth)
    × ((calculate_decay_price 4990 2990 eighth ≤ 4990)
        × (calculate_decay_price 3000 2990 eighth ≤ calculate_decay_price 4990 2990 eighth))
calculate_decay_price-bounds_example =
    calculate_decay_price-bounds 4990 3000 2990 eighth (omega arith) (omega arith) (omega arith)

abbrev tenth : Settings
tenth = record {
  decay_start_days = 30;
  decay_interval_hours = 72;
  decay_discount_pct = record { units = 10; scale = 1 };
}

abbrev no_locks : Locks
no_locks = record { marking = λ id. false; discounting = λ id. false }

-- The shelf has been liquidating for long enough, at 31.00; a tenth less is 27.90, below the floor.
abbrev dead_shelf : InventoryItem
dead_shelf = record shelf {
  decay_status = liquidating;
  decay_started_at = some 8;
  current_price = 3100;
}

abbrev dead_shop : Database
dead_shop = record shop { inventory_items = dead_shelf ∷ [] }

abbrev later : Env
later = record calm { now = 1000000 }

abbrev discounted : Result DecayRunResult × Session
discounted = run_decay_cycle later tenth no_locks none (start dead_shop)

run_decay_cycle_test :
    (discounted.0 ≡ ok (record { marked_liquidating = 0; discounted = 1 }))
    × (map (λ i. i.current_price) discounted.1.committed.inventory_items ≡ 2990 ∷ [])
unfolding run_decay_cycle decay mark_all discount_all first_actor find_variant mail_results count
    select update transaction create_email_job queue_decay_alert_email ◌>>=◌ Errors.◌>>=◌
    calculate_decay_price round_half_up
run_decay_cycle_test = (refl, refl)

dead_shop-Floored : Floored (red_shirt ∷ []) dead_shop
unfolding find_variant
dead_shop-Floored = record { variants = refl; keys = (tt, tt); floored = (omega arith, tt) }

run_decay_cycle-Floored_example :
    Floored
      (red_shirt ∷ [])
      (run_decay_cycle later tenth no_locks none (start dead_shop)).1.committed
run_decay_cycle-Floored_example =
    run_decay_cycle-Floored later tenth no_locks (red_shirt ∷ []) dead_shop
      (record { others = λ db d e. cc }) dead_shop-Floored

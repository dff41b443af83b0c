-- ===== src/Examples/ReliableRuns.antt =====
-- The service over the reliable clients: an order that goes through, and a charge whose answer is lost.
use orders_go.Common.{ℕ, ◌≡◌, ◌≢◌, ◌⊎◌, refl, false, String, Option, none, some, [], ◌∷◌}
use orders_go.Common.Int.{pos, ◌+ℤ◌}
use orders_go.Go.Int64.{add64, wrap64}
use orders_go.Go.Float64.{float_90, float_eq, is_nan, rank}
use orders_go.Go.Errors.{error_is, message, GoError, sentinel, Sentinel}
use orders_go.Go.Effects.{M, Runtime, sleep_with_context}
use orders_go.Reliability.Breaker.{CircuitBreaker, circuit_closed, execute, admit, settle}
use orders_go.Reliability.Retry.{
  retry, retry_loop, attempt_round, default_should_retry, pause, sleep_of, jitter_of, backoff,
  should_retry_of, default_jitter,
}
use orders_go.Reliability.Client.{
  limited, broken, attempt, do_guarded, guarded_charge, guarded_assign,
}
use orders_go.Orders.Settings.{ReliabilityConfig}
use orders_go.Orders.Service.{assign_driver, charge_payment, create_order, proceed}
use orders_go.Orders.Paid.{IsDone}
use orders_go.Orders.Postgres.Runs.{completed}
use orders_go.Orders.Reliable.{Shop, reliable_payments, reliable_drivers, reliable_service}
use orders_go.Orders.Reliable.Outcome.{reliable_order-nil}
use orders_go.Orders.Reliable.Invariant.{create_order-IsIntact}
use orders_go.Orders.Reliable.Lost.{IsToBeLost, reliable_charge-lost}
use orders_go.Db.Sql.{Db, lost, exec, query_row}
use orders_go.Db.Payments.{find_payment, insert_payment, charge}
use orders_go.Db.Payments.Laws.{inserted}
use orders_go.Db.Sagas.{
  start, insert_saga, read_back, find_key, select_saga, find_order, new_row, insert_step, add_step,
  status_rows, update_saga, update_status,
}
use orders_go.Db.Drivers.{find_assignment, insert_assignment, assign}
use orders_go.Db.Integrity.{IsIntact}

-- The environment is a counter, from which the ids of orders come too.
abbrev still : Runtime ℕ
still = record {
  now = λ w. (pos 7, w);
  ctx_err = λ w. (none, w);
  timer = λ _ w. (none, w);
  int63n = λ _ w. (pos 0, w);
}

abbrev uuid : M ℕ String
uuid w = ("o1", w)

abbrev settings : ReliabilityConfig
settings = record {
  retry_max_attempts = pos 2;
  retry_base_delay = pos 0;
  retry_max_delay = pos 0;
  breaker_max_failures = pos 3;
  breaker_reset_timeout = pos 10;
  rate_limit_interval = pos 1;
  rate_limit_burst = pos 1;
}

abbrev closed_breaker : CircuitBreaker
closed_breaker = record {
  max_fails = pos 3;
  reset_after = pos 10;
  state = circuit_closed;
  failures = pos 0;
  opened_at = pos 0;
  half_open_flight = false;
}

abbrev shop_of : Db → Shop ℕ
shop_of db = record {
  guards = record {
    payment_limiter = none;
    payment_breaker = some closed_breaker;
    driver_limiter = none;
    driver_breaker = some closed_breaker;
  };
  world = record { db = db; env = 0 };
}

abbrev started_db : Db
started_db = record {
  payments = [];
  sagas = new_row "k1" "o1" "u1" float_90 (pos 1000) ∷ [];
  steps = [];
  assignments = [];
  now = pos 1000;
  constraint_error = message "constraint";
  fates = [];
}

abbrev done_db : Db
done_db = completed "o1" "d1" "u1" "k1" float_90 (record started_db { sagas = [] })

reliable_order-nil_example : (◌≡◌ {A = String} "o1" "o1") × IsDone "o1" "d1" float_90 done_db
unfolding charge_payment assign_driver add_step insert_step exec charge insert_payment find_payment
    find_order assign insert_assignment find_assignment update_status update_saga status_rows
    reliable_service reliable_payments reliable_drivers guarded_charge guarded_assign do_guarded
    retry retry_loop attempt_round attempt limited broken execute admit settle
reliable_order-nil_example =
    reliable_order-nil still 1 settings uuid "o1" "d1" float_90 (shop_of started_db)
      (shop_of done_db) refl

abbrev empty_db : Db
empty_db = record started_db { sagas = [] }

abbrev ordered_db : Db
ordered_db = completed "o1" "o1" "u1" "k1" float_90 empty_db

empty_db-IsIntact : IsIntact empty_db
empty_db-IsIntact = record {
  payments_keyed = tt;
  payments_refer = tt;
  sagas_unique = tt;
  steps_refer = tt;
  assignments_refer = tt;
}

create_order-IsIntact_example : IsIntact ordered_db
unfolding create_order proceed start insert_saga read_back find_key float_eq is_nan rank
    charge_payment assign_driver add_step insert_step exec charge insert_payment find_payment
    find_order assign insert_assignment find_assignment update_status update_saga status_rows
    reliable_service reliable_payments reliable_drivers guarded_charge guarded_assign do_guarded
    retry retry_loop attempt_round attempt limited broken execute admit settle query_row select_saga
create_order-IsIntact_example =
    create_order-IsIntact still 1 settings uuid "u1" float_90 "k1" (shop_of empty_db)
      {r = ("o1", none)} {s' = shop_of ordered_db} empty_db-IsIntact refl

abbrev reset_db : Db
reset_db = record started_db { fates = lost (message "connection reset") ∷ [] }

reset_db-IsToBeLost : IsToBeLost "o1" reset_db
unfolding find_payment
reset_db-IsToBeLost = record {
  cause = message "connection reset";
  later = [];
  next_lost = refl;
  not_charged = refl;
}

-- Two failures have been counted, and the payment is there.
abbrev lost_shop : Shop ℕ
lost_shop =
    let after = shop_of (record started_db { payments = inserted "o1" float_90 started_db ∷ [] }) in
    record after {
      guards = record after.guards {
        payment_breaker = some (record closed_breaker { failures = pos 2 });
      };
    }

reliable_charge-lost_example :
    (◌≢◌ {A = Option GoError} (some (sentinel Sentinel.already_charged)) none)
    × (IsToBeLost "o1" lost_shop.world.db ⊎ (find_payment "o1" lost_shop.world.db.payments ≢ none))
unfolding exec charge insert_payment find_payment reliable_payments guarded_charge do_guarded retry
    retry_loop attempt_round attempt limited broken execute admit settle default_should_retry pause
    sleep_of jitter_of backoff should_retry_of sleep_with_context default_jitter error_is add64
    wrap64 ◌+ℤ◌
reliable_charge-lost_example =
    reliable_charge-lost still 2 settings "o1" float_90 (shop_of reset_db) lost_shop
      {err = some (sentinel Sentinel.already_charged)} reset_db-IsToBeLost refl

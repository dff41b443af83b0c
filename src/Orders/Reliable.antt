-- ===== src/Orders/Reliable.antt =====
-- The service that internal/orders/builder.go puts together: `OrderService` over the reliable
-- clients of reliability.go over the Postgres stores.
pub mod Parts
pub mod Outcome
pub mod Invariant
pub mod Lost
pub mod Returns
use orders_go.Common.{ℕ, String, Option, none, some}
use orders_go.Go.Float64.{Float64}
use orders_go.Go.Errors.{GoError}
use orders_go.Go.Effects.{M, P, Action, Runtime, lift}
use orders_go.Reliability.Retry.{RetryPolicy}
use orders_go.Reliability.Client.{
  Guarded, ClientConfig, new_reliable_payment_client, new_reliable_driver_client, guarded_charge,
  guarded_refund, guarded_assign,
}
use orders_go.Orders.Saga.{SagaStore, PaymentClient, DriverClient}
use orders_go.Orders.Service.{OrderService, new_order_service}
use orders_go.Orders.Settings.{ReliabilityConfig}
use orders_go.Orders.Builder.{Guards}
use orders_go.Db.Sql.{Db}
use orders_go.Db.Payments.{charge, refund}
use orders_go.Db.Sagas.{start, update_status, add_step}
use orders_go.Db.Drivers.{assign}

-- The database beside everything else that the clients touch: the clock, timers, random numbers.
pub record World (E : Type 0) : Type 0 where
  pub db : Db
  pub env : E

-- The service's own mutable parts, and the world.
pub record Shop (E : Type 0) : Type 0 where
  pub guards : Guards
  pub world : World E

module _ {E : Type 0} where
  abbrev pub on_db : {A : Type 0} → M Db A → M (World E) A
  on_db m w = let (a, db') = m w.db in (a, record w { db = db' })

  abbrev pub on_env : {A : Type 0} → M E A → M (World E) A
  on_env m w = let (a, env') = m w.env in (a, record w { env = env' })

  abbrev pub on_world : {A : Type 0} → M (World E) A → P (Shop E) A
  on_world m s = let (a, w) = m s.world in some (a, record s { world = w })

  abbrev pub world_runtime : Runtime E → Runtime (World E)
  world_runtime rt = record {
    now = on_env rt.now;
    ctx_err = on_env rt.ctx_err;
    timer = λ d. on_env (rt.timer d);
    int63n = λ n. on_env (rt.int63n n);
  }

  -- The parts of the payment client and of the driver client, and their change.
  abbrev pub payment_part : Shop E → Guarded (World E)
  payment_part s =
      new_reliable_payment_client s.guards.payment_limiter s.guards.payment_breaker s.world

  abbrev pub driver_part : Shop E → Guarded (World E)
  driver_part s = new_reliable_driver_client s.guards.driver_limiter s.guards.driver_breaker s.world

  abbrev pub on_payments : {A : Type 0} → P (Guarded (World E)) A → P (Shop E) A
  on_payments m s = elim (m (payment_part s)) [
    | none ↦ none
    | some (a, g) ↦ some (
      a,
      record {
        guards = record s.guards { payment_limiter = g.limiter; payment_breaker = g.breaker };
        world = g.world;
      },
    )
  ]

  abbrev pub on_drivers : {A : Type 0} → P (Guarded (World E)) A → P (Shop E) A
  on_drivers m s = elim (m (driver_part s)) [
    | none ↦ none
    | some (a, g) ↦ some (
      a,
      record {
        guards = record s.guards { driver_limiter = g.limiter; driver_breaker = g.breaker };
        world = g.world;
      },
    )
  ]

-- The retry policy of both clients: its functions are nil.
abbrev pub policy_of : {W : Type 0} → ReliabilityConfig → RetryPolicy W
policy_of cfg = record {
  max_attempts = cfg.retry_max_attempts;
  base_delay = cfg.retry_base_delay;
  max_delay = cfg.retry_max_delay;
  jitter = none;
  sleep = none;
  should_retry = none;
}

module _ {E : Type 0} (rt : Runtime E) (fuel : ℕ) (cfg : ReliabilityConfig) where
  abbrev pub client_config : ClientConfig (World E)
  client_config = record {
    runtime = world_runtime rt;
    breaker_now = (world_runtime rt).now;
    policy = policy_of cfg;
  }

  unfoldable pub reliable_payments : PaymentClient (Shop E)
  reliable_payments = record {
    charge =
        λ id a. on_payments (guarded_charge client_config fuel (λ i b. on_db (charge i b)) id a);
    refund =
        λ id a. on_payments (guarded_refund client_config fuel (λ i b. on_db (refund i b)) id a);
  }

  unfoldable pub reliable_drivers : DriverClient (Shop E)
  reliable_drivers = record {
    assign = λ id driver.
        on_drivers (guarded_assign client_config fuel (λ i d. on_db (assign i d)) id driver);
  }

  abbrev pub direct_sagas : SagaStore (Shop E)
  direct_sagas = record {
    start = λ key id user a. on_world (on_db (start key id user a));
    update_status = λ id status. on_world (on_db (update_status id status));
    add_step = λ id step status detail. on_world (on_db (add_step id step status detail));
  }

  -- `new_uuid` makes the ids of orders and of drivers.
  unfoldable pub reliable_service : M E String → OrderService (Shop E)
  unfolding new_order_service
  reliable_service new_uuid =
      let uuid : M (Shop E) String =
        λ s. let (id, w) = on_env new_uuid s.world in (id, record s { world = w }) in
      new_order_service uuid reliable_payments reliable_drivers direct_sagas (some uuid) (some uuid)

-- ===== src/Orders/Builder.antt =====
-- internal/orders/builder.go, `BuildOrderService`: opening the database, its tables, and the
-- mutable parts of the reliable clients.
pub mod Handles
use orders_go.Common.{String, Option, none, some, str_eq, if◌then◌else◌}
use orders_go.Go.Errors.{GoError, message, wrapped}
use orders_go.Go.Effects.{M, Action}
use orders_go.Reliability.Breaker.{CircuitBreaker, new_circuit_breaker}
use orders_go.Reliability.Limiter.{RateLimiter, new_rate_limiter}
use orders_go.Go.Effects.{Runtime}
use orders_go.Orders.Settings.{ReliabilityConfig}
use orders_go.Db.Schema.{Table, init_payments, init_sagas, init_drivers}

-- What `BuildOrderService` calls: `sql.Open`, the statements that create tables, the settings, and
-- `Close`, whose error is only logged.
pub record Setup (W : Type 0) : Type 0 where
  pub open_db : Action W
  pub create : Table → Action W
  pub settings : M W (ReliabilityConfig × Option GoError)
  pub close_db : W → W

-- The limiters and breakers of the two reliable clients.
pub record Guards : Type 0 where
  pub payment_limiter : Option RateLimiter
  pub payment_breaker : Option CircuitBreaker
  pub driver_limiter : Option RateLimiter
  pub driver_breaker : Option CircuitBreaker

pub data Build : Type 0 where
  refused : GoError → Build
  built : Guards → ReliabilityConfig → Build

module _ {W : Type 0} (rt : Runtime W) (setup : Setup W) where
  -- `if … err := step; err != nil { _ = sqlDB.Close(); return … }`
  abbrev or_close : String → Action W → M W Build → M W Build
  or_close text step rest w =
      let (err, w') = step w in
      elim err [ some e ↦ (refused (wrapped text e ""), setup.close_db w') | none ↦ rest w' ]

  -- The breaker that either client is given. Its clock is `time.Now`.
  abbrev pub new_breaker : ReliabilityConfig → CircuitBreaker
  new_breaker cfg =
      (new_circuit_breaker rt.now (record {
        max_failures = cfg.breaker_max_failures;
        reset_timeout = cfg.breaker_reset_timeout;
        now = none;
      })).0

  -- The rest, once there are settings.
  unfoldable pub new_guards : ReliabilityConfig → M W Guards
  new_guards cfg w =
      let (payment, w₁) = new_rate_limiter rt cfg.rate_limit_interval cfg.rate_limit_burst w in
      let (driver, w₂) = new_rate_limiter rt cfg.rate_limit_interval cfg.rate_limit_burst w₁ in
      (
        record {
          payment_limiter = some payment;
          payment_breaker = some (new_breaker cfg);
          driver_limiter = some driver;
          driver_breaker = some (new_breaker cfg);
        },
        w₂,
      )

  unfoldable pub configured : M W Build
  configured w =
      let ((cfg, err), w₁) = setup.settings w in
      elim err [
        | some e ↦ (refused (wrapped "reliability config: " e ""), setup.close_db w₁)
        | none ↦ let (guards, w₂) = new_guards cfg w₁ in (built guards cfg, w₂)
      ]

  -- The timeout of five seconds is in what creates the tables.
  unfoldable pub build_order_service : String → M W Build
  build_order_service dsn w =
      if str_eq dsn ""
      then (refused (message "DATABASE_URL is required"), w)
      else let (err, w₁) = setup.open_db w in
        elim err [
          | some e ↦ (refused (wrapped "postgres open failed: " e ""), w₁)
          | none ↦
              or_close "postgres init failed: " (init_payments setup.create)
                (or_close "saga store init failed: " (init_sagas setup.create)
                  (or_close "driver store init failed: " (init_drivers setup.create) configured))
                w₁
        ]

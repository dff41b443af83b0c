-- ===== src/Reliability/Examples/RecoveryRuns.antt =====
-- A client whose breaker is open and due for a probe.
use orders_go.Common.{ℕ, suc, ◌≡◌, refl, false, none, some}
use orders_go.Common.Int.{pos, ◌-ℤ◌}
use orders_go.Go.Int64.{time_sub}
use orders_go.Go.Effects.{Action, Runtime}
use orders_go.Reliability.Breaker.{CircuitBreaker, circuit_open, circuit_closed}
use orders_go.Reliability.Client.{Guarded, ClientConfig, limited, do_guarded}
use orders_go.Reliability.Client.Recovery.{do_guarded-recovers}

-- The world counts the calls of the base client, which succeed.
abbrev late : Runtime ℕ
late = record {
  now = λ w. (pos 70, w);
  ctx_err = λ w. (none, w);
  timer = λ _ w. (none, w);
  int63n = λ _ w. (pos 0, w);
}

abbrev config : ClientConfig ℕ
config = record {
  runtime = late;
  breaker_now = late.now;
  policy = record {
    max_attempts = pos 1;
    base_delay = pos 100;
    max_delay = pos 1000;
    jitter = none;
    sleep = none;
    should_retry = none;
  };
}

abbrev base_call : Action ℕ
base_call w = (none, suc w)

abbrev opened_breaker : CircuitBreaker
opened_breaker = record {
  max_fails = pos 2;
  reset_after = pos 10;
  state = circuit_open;
  failures = pos 2;
  opened_at = pos 5;
  half_open_flight = false;
}

abbrev shut : Guarded ℕ
shut = record { limiter = none; breaker = some opened_breaker; world = 0 }

do_guarded-recovers_example :
    do_guarded config 2 base_call shut
    ≡ some (
      none,
      record {
        limiter = none;
        breaker = some (record opened_breaker { state = circuit_closed; failures = pos 0 });
        world = 1;
      },
    )
unfolding limited time_sub ◌-ℤ◌
do_guarded-recovers_example =
    do_guarded-recovers config 2 base_call shut shut opened_breaker refl refl refl refl refl refl

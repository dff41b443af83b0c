-- ===== src/Reliability/Examples/ClientRuns.antt =====
-- A client with no limiter and an open breaker, and one with neither.
use orders_go.Common.{ℕ, suc, ◌+◌, ◌≤◌, ◌≡◌, refl, false, none, some, arith}
use orders_go.Common.Int.{pos}
use orders_go.Go.Effects.{Action, Runtime, sleep_with_context}
use orders_go.Reliability.Breaker.{CircuitBreaker, circuit_open}
use orders_go.Reliability.Retry.{
  default_jitter, jitter_of, sleep_of, retry, retry_loop, attempt_round,
}
use orders_go.Reliability.Retry.Attempts.{IsQuiet}
use orders_go.Reliability.Client.{
  Guarded, ClientConfig, guarded_runtime, limited, broken, attempt, do_guarded,
}
use orders_go.Reliability.Client.Calls.{IsQuietWorld, do_guarded_calls}

-- The world counts the calls of the base client, which succeed.
abbrev still : Runtime ℕ
still = record {
  now = λ w. (pos 7, w);
  ctx_err = λ w. (none, w);
  timer = λ _ w. (none, w);
  int63n = λ _ w. (pos 0, w);
}

abbrev config : ClientConfig ℕ
config = record {
  runtime = still;
  breaker_now = still.now;
  policy = record {
    max_attempts = pos 3;
    base_delay = pos 100;
    max_delay = pos 1000;
    jitter = none;
    sleep = none;
    should_retry = none;
  };
}

abbrev base_call : Action ℕ
base_call w = (none, suc w)

abbrev bare : ℕ → Guarded ℕ
bare n = record { limiter = none; breaker = none; world = n }

one_call : do_guarded config 2 base_call (bare 0) ≡ some (none, bare 1)
unfolding do_guarded retry retry_loop attempt_round attempt limited broken
one_call = refl

still-IsQuiet : IsQuietWorld config 2 base_call (λ w. w)
still-IsQuiet = record {
  now_quiet = λ w. refl;
  ctx_err_quiet = λ w. refl;
  timer_quiet = λ d w. refl;
  breaker_now_quiet = λ w. refl;
}

policy-IsQuiet :
    IsQuiet (guarded_runtime still) config.policy (attempt config 2 base_call) (λ s. s.world)
unfolding jitter_of default_jitter sleep_of sleep_with_context
policy-IsQuiet = record {
  ctx_err_quiet = λ w. refl;
  jitter_quiet = λ d w. ground arith;
  sleep_quiet = λ d w. ground arith;
}

do_guarded_calls_example : 1 ≤ 0 + 3
do_guarded_calls_example =
    do_guarded_calls config 2 base_call (λ w. w) still-IsQuiet policy-IsQuiet (λ w. omega arith)
      (bare 0) none (bare 1) one_call

abbrev opened_breaker : CircuitBreaker
opened_breaker = record {
  max_fails = pos 2;
  reset_after = pos 10;
  state = circuit_open;
  failures = pos 2;
  opened_at = pos 5;
  half_open_flight = false;
}

abbrev guarded : Guarded ℕ
guarded = record { limiter = none; breaker = some opened_breaker; world = 0 }

-- ===== src/Reliability/Examples/RetryRuns.antt =====
-- A call that fails twice and then succeeds, under a policy of three attempts.
use orders_go.Common.{
  ℕ, suc, ◌-◌, ◌≤◌, ◌<◌, ◌≡◌, refl, Option, none, some, arith, ltb, inl, if◌then◌else◌,
}
use orders_go.Common.Int.{pos}
use orders_go.Go.Errors.{GoError, message, error_is}
use orders_go.Go.Effects.{P, Runtime, sleep_with_context}
use orders_go.Reliability.Retry.{
  RetryPolicy, backoff, default_jitter, default_should_retry, jitter_of, sleep_of, should_retry_of,
  retry, retry_loop, attempt_round, pause,
}
use orders_go.Reliability.Retry.Delay.{backoff-overflow}
use orders_go.Reliability.Retry.Attempts.{IsQuiet}
use orders_go.Reliability.Retry.Flaky.{IsFlaky, retry_outcome}

-- The world counts the calls.
abbrev still : Runtime ℕ
still = record {
  now = λ w. (pos 0, w);
  ctx_err = λ w. (none, w);
  timer = λ _ w. (none, w);
  int63n = λ _ w. (pos 0, w);
}

abbrev policy : RetryPolicy ℕ
policy = record {
  max_attempts = pos 3;
  base_delay = pos 100;
  max_delay = pos 1000;
  jitter = none;
  sleep = none;
  should_retry = none;
}

abbrev flaky : P ℕ (Option GoError)
flaky w = some (if ltb w 2 then some (message "unavailable") else none, suc w)

still-IsQuiet : IsQuiet still policy flaky (λ w. w)
unfolding jitter_of default_jitter sleep_of sleep_with_context
still-IsQuiet = record {
  ctx_err_quiet = λ w. refl;
  jitter_quiet = λ d w. ground arith;
  sleep_quiet = λ d w. ground arith;
}

due-IsQuiet : IsQuiet still policy flaky (λ w. 2 - w)
unfolding jitter_of default_jitter sleep_of sleep_with_context
due-IsQuiet = record {
  ctx_err_quiet = λ w. refl;
  jitter_quiet = λ d w. ground arith;
  sleep_quiet = λ d w. ground arith;
}

flaky-IsFlaky : IsFlaky still policy flaky (λ w. 2 - w)
unfolding sleep_of sleep_with_context should_retry_of default_should_retry error_is
flaky-IsFlaky = record {
  quiet = due-IsQuiet;
  alive = λ w. refl;
  rested = λ d w. ground arith;
  works = λ w h. (suc w, ground arith);
  fails = λ w j h. (message "unavailable", suc w, ground arith, refl, ground arith);
}

three_calls : retry still policy flaky 0 ≡ some (none, 3)
unfolding retry retry_loop attempt_round pause jitter_of default_jitter sleep_of sleep_with_context
    should_retry_of default_should_retry error_is backoff
three_calls = ground arith

retry_outcome_example :
    (2 < 3 → (w' : ℕ) × (retry still policy flaky 0 ≡ some (none, w')))
    × (3 ≤ 2 → (e : GoError) × (w' : ℕ) × (retry still policy flaky 0 ≡ some (some e, w')))
retry_outcome_example = retry_outcome still policy flaky flaky-IsFlaky 0

-- A delay of 100 ns is doubled for the 64th time, or for the 57th, into the sign bit.
backoff-overflow_example : default_jitter still (backoff policy 64) 0 ≡ (pos 0, 0)
backoff-overflow_example = backoff-overflow policy refl refl still 64 0 (inl refl)

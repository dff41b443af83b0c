-- ===== src/Reliability/Examples/BreakerRuns.antt =====
-- A breaker of two failures and a timeout of ten nanoseconds.
use orders_go.Common.{ℕ, suc, ◌≡◌, ◌≢◌, refl, true, false, Option, none, some, [], ◌∷◌, arith}
use orders_go.Common.Int.{pos, ltb_ℤ, ◌-ℤ◌, ◌+ℤ◌}
use orders_go.Go.Int64.{Time, time_sub, add64, wrap64}
use orders_go.Go.Errors.{GoError, message, sentinel, Sentinel}
use orders_go.Go.Effects.{M, Action}
use orders_go.Reliability.Breaker.{
  CircuitBreaker, circuit_closed, circuit_open, circuit_half_open, execute, admit, settle,
}
use orders_go.Reliability.Breaker.Invariant.{IsValid}
use orders_go.Reliability.Breaker.Cycle.{repeated, ran, failures_trip, execute_opened}
use orders_go.Reliability.Breaker.Interleaved.{
  System, Enter, refused, started, Step, enter, Star, here, next, Star-IsValid, finish,
  opened_as_of, probing, two_probes, half_open_exclusive,
}

abbrev closed_breaker : CircuitBreaker
closed_breaker = record {
  max_fails = pos 2;
  reset_after = pos 10;
  state = circuit_closed;
  failures = pos 0;
  opened_at = pos 0;
  half_open_flight = false;
}

abbrev opened_breaker : CircuitBreaker
opened_breaker = record closed_breaker { state = circuit_open; failures = pos 2; opened_at = pos 5 }

abbrev probing_breaker : CircuitBreaker
probing_breaker = record closed_breaker {
  state = circuit_half_open;
  failures = pos 2;
  opened_at = pos 3;
  half_open_flight = true;
}

-- The world is the time and counts on with each call, which fails.
abbrev ticking : M ℕ Time
ticking w = (pos w, w)

abbrev failing : Action ℕ
failing w = (some (message "unavailable"), suc w)

failures_trip_example :
    (c₁ c₂ : CircuitBreaker) × (repeated 1 (execute ticking failing) (some closed_breaker, 0)
      ≡ (some c₁, repeated 1 (ran ticking failing) 0))
    × (c₁.state ≡ circuit_closed)
    × (repeated 2 (execute ticking failing) (some closed_breaker, 0)
        ≡ (some c₂, repeated 2 (ran ticking failing) 0))
    × (c₂.state ≡ circuit_open)
failures_trip_example =
    failures_trip ticking failing 1 closed_breaker 0 0 (λ v. (message "unavailable", refl)) refl
      refl refl (omega arith)

execute_opened_example :
    let now = pos 7 in
    let waited = ltb_ℤ (time_sub now (pos 5)) (pos 10) in
    (waited ≡ true
      → execute ticking failing (some opened_breaker, 7)
        ≡ (some (sentinel Sentinel.circuit_open), (some opened_breaker, 7)))
    × (waited ≡ false
        → (ran ticking failing 7).0 ≡ none
        → execute ticking failing (some opened_breaker, 7) ≡ (
          none,
          (
            some (record opened_breaker {
              state = circuit_closed;
              failures = pos 0;
              half_open_flight = false;
            }),
            8,
          ),
        ))
    × ((e : GoError)
        → waited ≡ false
        → (ran ticking failing 7).0 ≡ some e
        → execute ticking failing (some opened_breaker, 7) ≡ (
          some e,
          (
            some (record opened_breaker {
              opened_at = now;
              failures = pos 0;
              half_open_flight = false;
            }),
            8,
          ),
        ))
execute_opened_example = execute_opened ticking failing opened_breaker 7 refl

abbrev idle : System
idle = record { breaker = closed_breaker; in_flight = [] }

abbrev busy : System
busy = record { breaker = closed_breaker; in_flight = pos 3 ∷ [] }

one_call : Star Step idle busy
unfolding admit
one_call = next here (enter (started (pos 3) refl refl))

closed-IsValid : IsValid closed_breaker
closed-IsValid = ground arith

probing-IsValid : IsValid probing_breaker
probing-IsValid = ground arith

Star-IsValid_example : IsValid closed_breaker
Star-IsValid_example = Star-IsValid one_call closed-IsValid

abbrev overlapping : System
overlapping = record { breaker = probing_breaker; in_flight = pos 20 ∷ pos 1 ∷ [] }

one_refused : Star Enter overlapping overlapping
unfolding admit
one_refused = next here (refused (pos 21) (sentinel Sentinel.circuit_open) refl refl)

-- Three calls begin, the last two fail and open the breaker as of time 3; at time 20 a probe begins.
overlapping_reached : Star Step idle overlapping
unfolding admit settle time_sub ◌-ℤ◌ add64 wrap64 ◌+ℤ◌
overlapping_reached =
    let e = message "unavailable" in
    next
      (next
        (next
          (next
            (next (next here (enter (started (pos 1) refl refl)))
              (enter (started (pos 2) refl refl)))
            (enter (started (pos 3) refl refl)))
          (finish (pos 3 ∷ []) (pos 1 ∷ []) (pos 2) (some e) refl refl))
        (finish [] (pos 1 ∷ []) (pos 3) (some e) refl refl))
      (enter (started (pos 20) refl refl))

half_open_exclusive_example :
    (overlapping.in_flight ≢ [])
    × (overlapping ≡ overlapping)
    × ((now : Time) (err : Option GoError)
        → (settle now err overlapping.breaker).state ≢ circuit_half_open)
half_open_exclusive_example =
    half_open_exclusive closed-IsValid refl overlapping_reached refl one_refused

-- The call from time 1 fails while the probe from time 20 is in flight.
two_probes_example :
    let refusal : Option GoError = some (sentinel Sentinel.circuit_open) in
    let e = message "unavailable" in
    let failed = settle (pos 1) (some e) probing_breaker in
    let failed_probe = settle (pos 20) (some e) probing_breaker in
    (admit (pos 21) probing_breaker ≡ (probing_breaker, refusal))
    × (failed_probe ≡ opened_as_of (pos 20) probing_breaker)
    × (admit (pos 21) failed_probe ≡ (opened_as_of (pos 20) probing_breaker, refusal))
    × (failed ≡ opened_as_of (pos 1) probing_breaker)
    × (admit (pos 21) failed ≡ (probing failed, none))
    × Star Step overlapping (record { breaker = probing failed; in_flight = pos 21 ∷ pos 20 ∷ [] })
unfolding time_sub ◌-ℤ◌
two_probes_example =
    two_probes overlapping [] [] (pos 20) (pos 1) (pos 21) (message "unavailable") refl refl refl
      refl refl

-- ===== src/Reliability/Examples/LimiterRuns.antt =====
-- A limiter of one token every ten nanoseconds and a burst of two.
use orders_go.Common.{
  ℕ, ◌+◌, ◌-◌, ◌*◌, ◌≤◌, ◌≡◌, refl, Option, none, some, [], ◌∷◌, arith, ltb, leb, if◌then◌else◌,
}
use orders_go.Common.Int.{pos, pos_part, ◌-ℤ◌}
use orders_go.Go.Int64.{time_sub, sub64, wrap64}
use orders_go.Go.Errors.{GoError, sentinel, Sentinel}
use orders_go.Go.Effects.{Runtime}
use orders_go.Reliability.Limiter.{RateLimiter, refill, poll, round, wait_loop}
use orders_go.Reliability.Limiter.Bucket.{Bucket, limiter, IsSound, refill-topped_up}
use orders_go.Reliability.Limiter.Rate.{granted, granted_bound}
use orders_go.Reliability.Limiter.Waiting.{IsClock, wait_loop_total}

abbrev bucket : Bucket
bucket = record { rate = 10; burst = 2; tokens = 1; last = 100 }

bucket-IsSound : IsSound 125 bucket
bucket-IsSound = omega arith

refill-topped_up_example :
    refill (pos 125) (limiter bucket)
    ≡ record { rate = pos 10; burst = pos 2; tokens = pos 2; last = pos 120 }
refill-topped_up_example = refill-topped_up 125 bucket bucket-IsSound

granted_bound_example :
    (granted (101 ∷ 102 ∷ 111 ∷ []) (limiter bucket)).0 * 10 ≤ 1 * 10 + (125 - 100)
granted_bound_example =
    granted_bound (101 ∷ 102 ∷ 111 ∷ []) 100 125 bucket (omega arith) (omega arith) (omega arith)

abbrev drained : Bucket
drained = record { rate = 10; burst = 2; tokens = 0; last = 100 }

drained-refused : (poll (pos 103) (limiter drained)).1 ≡ some (pos 7)
unfolding poll refill time_sub sub64 wrap64 ◌-ℤ◌
drained-refused = refl

abbrev clock_time : ℕ → ℕ
clock_time w = if ltb w 1000 then w else 1000

-- The world is the time, up to a thousand; a timer that would run longer meets the context's end.
abbrev short_day : Runtime ℕ
short_day = record {
  now = λ w. (pos (clock_time w), w);
  ctx_err = λ w. (none, w);
  timer = λ d w.
      if leb (w + pos_part d) 1000
      then (none, w + pos_part d)
      else (some (sentinel Sentinel.deadline_exceeded), w);
  int63n = λ _ w. (pos 0, w);
}

short_day-IsClock : IsClock short_day clock_time
short_day-IsClock = record {
  now_reads = λ w. (clock_time w, refl, omega arith, omega arith);
  ctx_err_forward = λ w. omega arith;
  timer_waits = λ d w h. ground arith;
}

wait_loop_total_example :
    (err : Option GoError) × (s : RateLimiter × ℕ) × (wait_loop short_day none 2
        (limiter drained, 103)
      ≡ some (err, s))
unfolding orders_go.Reliability.Limiter.call_hook
wait_loop_total_example =
    wait_loop_total short_day none short_day-IsClock 0 drained 103 (λ d u. omega arith)
      (λ u. ground arith) (omega arith) (omega arith) (omega arith) (omega arith) (omega arith)

token_taken :
    wait_loop short_day none 1 (limiter bucket, 105)
    ≡ some (none, (record { rate = pos 10; burst = pos 2; tokens = pos 0; last = pos 100 }, 105))
unfolding wait_loop round poll refill time_sub sub64 wrap64 ◌-ℤ◌
token_taken = refl

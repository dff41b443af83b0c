-- ===== src/Reliability/Limiter.antt =====
-- internal/orders/reliability.go, `RateLimiter`: a token bucket. What runs under the mutex is
-- `poll`; `wait` is the loop around it.
pub mod Bucket
pub mod Rate
pub mod Refused
pub mod Waiting
pub mod Fresh
use orders_go.Common.{ℕ, zero, suc, Bool, true, false, Option, none, some, ◌||◌, if◌then◌else◌}
use orders_go.Common.Int.{ℤ, pos, ltb_ℤ, leb_ℤ}
use orders_go.Go.Int64.{Time, Duration, add64, sub64, mul64, div64, time_sub, time_add}
use orders_go.Go.Errors.{GoError}
use orders_go.Go.Effects.{M, P, Runtime, sleep_with_context, Round, returned, continued}

-- The mutable part and the settings; the clock, the sleep and the hook are arguments of `wait`.
pub record RateLimiter : Type 0 where
  pub rate : Duration
  pub burst : ℤ
  pub tokens : ℤ
  pub last : Time

-- A limiter starts with a full bucket.
unfoldable pub new_rate_limiter : {W : Type 0} → Runtime W → Duration → ℤ → M W RateLimiter
new_rate_limiter rt rate burst w =
    let (now, w') = rt.now w in
    (record { rate = rate; burst = burst; tokens = burst; last = now }, w')

unfoldable pub refill : Time → RateLimiter → RateLimiter
refill now r =
    if leb_ℤ r.rate (pos 0)
    then record r { tokens = r.burst; last = now }
    else let elapsed = time_sub now r.last in
      if ltb_ℤ elapsed r.rate
      then r
      else let add = div64 elapsed r.rate in
        if leb_ℤ add (pos 0)
        then r
        else let tokens' = add64 r.tokens add in
          record r {
            tokens = if ltb_ℤ r.burst tokens' then r.burst else tokens';
            last = time_add r.last (mul64 add r.rate);
          }

-- One round of the loop under the mutex: nil when a token was taken, else how long to wait.
unfoldable pub poll : Time → RateLimiter → RateLimiter × Option Duration
unfolding refill
poll now r =
    let r' = refill now r in
    if ltb_ℤ (pos 0) r'.tokens
    then (record r' { tokens = sub64 r'.tokens (pos 1) }, none)
    else (r', some (sub64 r'.rate (time_sub now r'.last)))

module _ {W : Type 0} (rt : Runtime W) (on_wait : Option (Duration → M W (Unit {0}))) where
  unfoldable pub call_hook : Duration → W → W
  call_hook d w = elim on_wait [ none ↦ w | some hook ↦ (hook d w).1 ]

  -- One round of the `for` loop of `Wait`.
  unfoldable pub round : RateLimiter × W → Round (RateLimiter × W)
  unfolding sleep_with_context
  round (r, w) =
      let (stop, w₁) = rt.ctx_err w in
      elim stop [
        | some err ↦ returned (some err) (r, w₁)
        | none ↦
            let (now, w₂) = rt.now w₁ in
            let (r', wait) = poll now r in
            elim wait [
              | none ↦ returned none (r', w₂)
              | some d ↦
                  if leb_ℤ d (pos 0)
                  then continued (r', w₂)
                  else let (slept, w₃) = sleep_with_context rt d (call_hook d w₂) in
                    elim slept [
                      | some err ↦ returned (some err) (r', w₃)
                      | none ↦ continued (r', w₃)
                    ]
            ]
      ]

  -- The `for` loop of `Wait`.
  unfoldable pub wait_loop : ℕ → P (RateLimiter × W) (Option GoError)
  wait_loop zero s = none
  wait_loop (suc fuel) s = elim (round s) [
    | returned err s' ↦ some (err, s')
    | continued s' ↦ wait_loop fuel s'
  ]

  -- `Wait`. A nil limiter, and one with no rate or no burst, only looks at the context.
  unfoldable pub wait : ℕ → P (Option RateLimiter × W) (Option GoError)
  wait fuel (none, w) = let (stop, w₁) = rt.ctx_err w in some (stop, (none, w₁))
  wait fuel (some r, w) = elim (leb_ℤ r.rate (pos 0) || leb_ℤ r.burst (pos 0)) [
    | true ↦ let (stop, w₁) = rt.ctx_err w in some (stop, (some r, w₁))
    | false ↦ elim (wait_loop fuel (r, w)) [
      | none ↦ none
      | some (err, s) ↦ some (err, (some s.0, s.1))
    ]
  ]

-- ===== src/Reliability/Breaker.antt =====
-- internal/orders/reliability.go, `CircuitBreaker`. The mutex makes the two halves of `Execute`,
-- before and after the call of `fn`, atomic; between them other calls may run their halves.
pub mod Invariant
pub mod Cycle
pub mod Interleaved
use orders_go.Common.{ℕ, ◌-◌, ◌*◌, ◌^◌, Bool, true, false, Option, none, some, if◌then◌else◌}
use orders_go.Common.Int.{ℤ, pos, negsuc, ltb_ℤ, leb_ℤ}
use orders_go.Go.Int64.{Time, Duration, add64, time_sub}
use orders_go.Go.Errors.{GoError, sentinel, Sentinel}
use orders_go.Go.Effects.{M, Action}

pub data CircuitState : Type 0 where
  circuit_closed circuit_open circuit_half_open : CircuitState

-- `now` is nil or a clock.
pub record CircuitBreakerConfig (W : Type 0) : Type 0 where
  pub max_failures : ℤ
  pub reset_timeout : Duration
  pub now : Option (M W Time)

-- The mutable part and the settings; the clock is the argument `now` of what reads it.
pub record CircuitBreaker : Type 0 where
  pub max_fails : ℤ
  pub reset_after : Duration
  pub state : CircuitState
  pub failures : ℤ
  pub opened_at : Time
  pub half_open_flight : Bool

-- `time.Time{}`, in nanoseconds since 1970.
abbrev pub zero_time : Time
zero_time = negsuc (62135596800 * 10 ^ 9 - 1)

abbrev pub two_seconds : Duration
two_seconds = pos (2 * 10 ^ 9)

unfoldable pub new_circuit_breaker :
    {W : Type 0} → M W Time → CircuitBreakerConfig W → CircuitBreaker × M W Time
new_circuit_breaker time_now cfg = (
  record {
    max_fails = if ltb_ℤ cfg.max_failures (pos 1) then pos 1 else cfg.max_failures;
    reset_after = if leb_ℤ cfg.reset_timeout (pos 0) then two_seconds else cfg.reset_timeout;
    state = circuit_closed;
    failures = pos 0;
    opened_at = zero_time;
    half_open_flight = false;
  },
  elim cfg.now [ none ↦ time_now | some clock ↦ clock ],
)

abbrev pub is_half_open : CircuitState → Bool
is_half_open circuit_half_open = true
is_half_open _ = false

-- The test behind the `switch`.
take_flight : CircuitBreaker → CircuitBreaker
take_flight c = if is_half_open c.state then record c { half_open_flight = true } else c

admit_in : CircuitState → Time → CircuitBreaker → CircuitBreaker × Option GoError
unfolding take_flight
admit_in circuit_open now c =
    if ltb_ℤ (time_sub now c.opened_at) c.reset_after
    then (c, some (sentinel Sentinel.circuit_open))
    else (take_flight (record c { state = circuit_half_open }), none)
admit_in circuit_half_open now c =
    if c.half_open_flight then (c, some (sentinel Sentinel.circuit_open)) else (take_flight c, none)
admit_in circuit_closed now c = (take_flight c, none)

-- `Execute` up to the call of `fn`: a refusal, or nil when `fn` is to be called.
unfoldable pub admit : Time → CircuitBreaker → CircuitBreaker × Option GoError
unfolding admit_in
admit now c = admit_in c.state now c

settle_failure : Time → CircuitBreaker → CircuitBreaker
settle_failure now c =
    if is_half_open c.state
    then record c { state = circuit_open; opened_at = now; failures = pos 0 }
    else let failures' = add64 c.failures (pos 1) in
      if leb_ℤ c.max_fails failures'
      then record c { failures = failures'; state = circuit_open; opened_at = now }
      else record c { failures = failures' }

-- `Execute` behind the call of `fn`, which returned `err`; `now` was read before the call.
unfoldable pub settle : Time → Option GoError → CircuitBreaker → CircuitBreaker
unfolding settle_failure
settle now err c =
    let c' = if is_half_open c.state then record c { half_open_flight = false } else c in
    elim err [
      | none ↦ record c' { state = circuit_closed; failures = pos 0 }
      | some _ ↦ settle_failure now c'
    ]

-- `Execute` where no other call runs its halves meanwhile. A nil breaker only calls `fn`.
unfoldable pub execute : {W : Type 0} → M W Time → Action W → Action (Option CircuitBreaker × W)
execute clock fn (none, w) = let (err, w') = fn w in (err, (none, w'))
execute clock fn (some c, w) =
    let (now, w₁) = clock w in
    let (c₁, refusal) = admit now c in
    elim refusal [
      | some err ↦ (some err, (some c₁, w₁))
      | none ↦ let (err, w₂) = fn w₁ in (err, (some (settle now err c₁), w₂))
    ]

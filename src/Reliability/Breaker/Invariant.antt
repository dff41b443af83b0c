-- ===== src/Reliability/Breaker/Invariant.antt =====
-- reliability.go, `CircuitBreaker`: what holds whenever the mutex is free.
use orders_go.Common.{◌≡◌, true, none, some, arith, Option}
use orders_go.Common.Int.{pos, ◌≤ℤ◌, ◌<ℤ◌}
use orders_go.Go.Int64.{Time}
use orders_go.Go.Errors.{GoError, sentinel, Sentinel}
use orders_go.Go.Effects.{M}
use orders_go.Reliability.Breaker.{
  CircuitBreaker, CircuitBreakerConfig, circuit_closed, circuit_half_open, new_circuit_breaker,
  admit, settle,
}

-- A failure threshold and a timeout above zero, fewer failures than the threshold while closed,
-- and the flight flag up exactly in the half-open state.
pub record IsValid (c : CircuitBreaker) : Type 0 where
  pub threshold : pos 1 ≤ℤ c.max_fails
  pub timeout : pos 1 ≤ℤ c.reset_after
  pub below : c.state ≡ circuit_closed → c.failures <ℤ c.max_fails
  pub probing : c.state ≡ circuit_half_open → c.half_open_flight ≡ true
  pub flying : c.half_open_flight ≡ true → c.state ≡ circuit_half_open

-- What the constructor returns satisfies the invariant, whatever the configuration says.
pub new-IsValid :
    {W : Type 0} (time_now : M W Time) (cfg : CircuitBreakerConfig W)
    → IsValid (new_circuit_breaker time_now cfg).0
unfolding new_circuit_breaker
new-IsValid time_now cfg = ground arith

-- Both halves of `Execute` keep the invariant.
pub admit-IsValid : (now : Time) (c : CircuitBreaker) → IsValid c → IsValid (admit now c).0
unfolding admit
admit-IsValid now c h = ground arith

pub settle-IsValid :
    (now : Time) (err : Option GoError) (c : CircuitBreaker)
    → IsValid c
    → IsValid (settle now err c)
unfolding settle
settle-IsValid now none c h = ground arith
settle-IsValid now (some e) c h = ground arith

-- While half-open every further call is refused, at any time, and nothing changes.
pub admit-half_open :
    (now : Time) (c : CircuitBreaker)
    → IsValid c
    → c.state ≡ circuit_half_open
    → admit now c ≡ (c, some (sentinel Sentinel.circuit_open))
unfolding admit
admit-half_open now c h e = ground arith

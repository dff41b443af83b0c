-- ===== src/Reliability/Client.antt =====
-- internal/orders/reliability.go, `ReliablePaymentClient` and `ReliableDriverClient`: each attempt
-- of the retry loop waits for the limiter and then goes through the breaker.
pub mod Calls
pub mod Ensures
pub mod Returns
pub mod Recovery
use orders_go.Common.{ℕ, String, Option, none, some}
use orders_go.Common.Int.{ℤ}
use orders_go.Go.Int64.{Time, Duration}
use orders_go.Go.Float64.{Float64}
use orders_go.Go.Errors.{GoError}
use orders_go.Go.Effects.{M, P, Action, Runtime}
use orders_go.Reliability.Breaker.{CircuitBreaker, execute}
use orders_go.Reliability.Limiter.{RateLimiter, wait}
use orders_go.Reliability.Retry.{RetryPolicy, retry}

-- The client's own mutable parts, each nil or there, and the world around it.
pub record Guarded (W : Type 0) : Type 0 where
  pub limiter : Option RateLimiter
  pub breaker : Option CircuitBreaker
  pub world : W

-- What the client is built with: the clock of its breaker and its policy. The limiter of a client
-- has no hook.
pub record ClientConfig (W : Type 0) : Type 0 where
  pub runtime : Runtime W
  pub breaker_now : M W Time
  pub policy : RetryPolicy (Guarded W)

module _ {W : Type 0} where
  -- The parts of a payment client and of a driver client as they are put together; the base client,
  -- the clock and the policy go to the calls.
  abbrev pub new_reliable_payment_client :
      Option RateLimiter → Option CircuitBreaker → W → Guarded W
  new_reliable_payment_client limiter breaker w = record {
    limiter = limiter;
    breaker = breaker;
    world = w;
  }

  abbrev pub new_reliable_driver_client : Option RateLimiter → Option CircuitBreaker → W → Guarded W
  new_reliable_driver_client limiter breaker w = record {
    limiter = limiter;
    breaker = breaker;
    world = w;
  }

  -- An action of the world that leaves the client's parts alone.
  abbrev pub on_world : {A : Type 0} → M W A → M (Guarded W) A
  on_world m s = let (a, w) = m s.world in (a, record s { world = w })

  abbrev pub guarded_runtime : Runtime W → Runtime (Guarded W)
  guarded_runtime rt = record {
    now = on_world rt.now;
    ctx_err = on_world rt.ctx_err;
    timer = λ d. on_world (rt.timer d);
    int63n = λ n. on_world (rt.int63n n);
  }

  module _ (c : ClientConfig W) (fuel : ℕ) where
    -- `if c.limiter != nil { c.limiter.Wait(ctx) }`
    unfoldable pub limited : P (Guarded W) (Option GoError)
    limited s = elim s.limiter [
      | none ↦ some (none, s)
      | some r ↦ elim (wait c.runtime none fuel (some r, s.world)) [
        | none ↦ none
        | some (err, (r', w)) ↦ some (err, record s { limiter = r'; world = w })
      ]
    ]

    -- `if c.breaker != nil { return c.breaker.Execute(fn) }; return fn()`
    unfoldable pub broken : Action W → Action (Guarded W)
    broken fn s = elim s.breaker [
      | none ↦ on_world fn s
      | some b ↦
          let (err, (b', w)) = execute c.breaker_now fn (some b, s.world) in
          (err, record s { breaker = b'; world = w })
    ]

    unfoldable pub attempt : Action W → P (Guarded W) (Option GoError)
    attempt fn s = elim (limited s) [
      | none ↦ none
      | some (err, s') ↦ elim err [ some e ↦ some (some e, s') | none ↦ some (broken fn s') ]
    ]

    -- `do` of either client.
    unfoldable pub do_guarded : Action W → P (Guarded W) (Option GoError)
    do_guarded fn = retry (guarded_runtime c.runtime) c.policy (attempt fn)

    -- The wrapped calls, over the base client's.
    unfoldable pub guarded_charge :
        (String → Float64 → Action W) → String → Float64 → P (Guarded W) (Option GoError)
    guarded_charge charge order_id amount = do_guarded (charge order_id amount)

    unfoldable pub guarded_refund :
        (String → Float64 → Action W) → String → Float64 → P (Guarded W) (Option GoError)
    guarded_refund refund order_id amount = do_guarded (refund order_id amount)

    unfoldable pub guarded_assign :
        (String → String → Action W) → String → String → P (Guarded W) (Option GoError)
    guarded_assign assign order_id driver_id = do_guarded (assign order_id driver_id)

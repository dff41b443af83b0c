-- ===== src/Reliability/Client/Recovery.antt =====
-- reliability.go, `do` of the reliable clients behind an open breaker whose timeout is over.
use orders_go.Common.{ℕ, ◌≡◌, false, none, some, arith}
use orders_go.Common.Int.{pos, ltb_ℤ}
use orders_go.Go.Int64.{time_sub}
use orders_go.Go.Effects.{Action}
use orders_go.Reliability.Breaker.{CircuitBreaker, circuit_open, circuit_closed}
use orders_go.Reliability.Breaker.Cycle.{execute_opened}
use orders_go.Reliability.Retry.Single.{retry_once}
use orders_go.Reliability.Client.{
  Guarded, ClientConfig, guarded_runtime, limited, broken, attempt, do_guarded,
}

module _ {W : Type 0} (c : ClientConfig W) (fuel : ℕ) (fn : Action W) where
  -- A client whose breaker has been open for its timeout, with a live context and a limiter that
  -- lets the call pass: if the base client works again, the next call succeeds at its first attempt
  -- and closes the breaker.
  pub do_guarded-recovers :
      (s s₁ : Guarded W) (b : CircuitBreaker)
      → (c.runtime.ctx_err s.world).0 ≡ none
      → limited c fuel (record s { world = (c.runtime.ctx_err s.world).1 }) ≡ some (none, s₁)
      → s₁.breaker ≡ some b
      → b.state ≡ circuit_open
      → ltb_ℤ (time_sub (c.breaker_now s₁.world).0 b.opened_at) b.reset_after ≡ false
      → (fn (c.breaker_now s₁.world).1).0 ≡ none
      → do_guarded c fuel fn s
        ≡ some (
          none,
          record s₁ {
            breaker =
                some
                  (record b { state = circuit_closed; failures = pos 0; half_open_flight = false });
            world = (fn (c.breaker_now s₁.world).1).1;
          },
        )
  unfolding do_guarded attempt broken
  do_guarded-recovers s s₁ b alive passed there opened over works =
      let probe = (execute_opened c.breaker_now fn b s₁.world opened).1 over works in
      retry_once (guarded_runtime c.runtime) c.policy (attempt c fuel fn) s _ alive
        (ground (arith, passed, there, probe))

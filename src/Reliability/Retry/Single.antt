-- ===== src/Reliability/Retry/Single.antt =====
-- reliability.go, `RetryPolicy.Do` where the first attempt is the last.
use orders_go.Common.{◌≡◌, false, Option, none, some, arith}
use orders_go.Go.Errors.{GoError}
use orders_go.Go.Effects.{P, Runtime}
use orders_go.Reliability.Retry.{RetryPolicy, should_retry_of, attempt_round, retry_loop, retry}
use orders_go.Reliability.Retry.Attempts.{attempts_pos}

module _ {W : Type 0} (rt : Runtime W) (p : RetryPolicy W) (fn : P W (Option GoError)) where
  -- An error that is not retried is returned at once, after the one call.
  pub retry-not_retried :
      (w w₂ : W) (e : GoError)
      → (rt.ctx_err w).0 ≡ none
      → fn (rt.ctx_err w).1 ≡ some (some e, w₂)
      → should_retry_of rt p e ≡ false
      → retry rt p fn w ≡ some (some e, w₂)
  unfolding retry retry_loop attempt_round
  retry-not_retried w w₂ e alive failed once =
      let (n, some_left) = attempts_pos rt p fn in
      rw some_left (ground (arith, alive, failed, once))

  -- A first call that succeeds is the only one.
  pub retry_once :
      (w w₂ : W)
      → (rt.ctx_err w).0 ≡ none
      → fn (rt.ctx_err w).1 ≡ some (none, w₂)
      → retry rt p fn w ≡ some (none, w₂)
  unfolding retry retry_loop attempt_round
  retry_once w w₂ alive ran =
      let (n, some_left) = attempts_pos rt p fn in rw some_left (ground (arith, alive, ran))

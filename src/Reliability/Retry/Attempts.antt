-- ===== src/Reliability/Retry/Attempts.antt =====
-- reliability.go, the loop of `RetryPolicy.Do`.
use orders_go.Common.{
  ℕ, zero, suc, ◌+◌, ◌-◌, ◌≤◌, ◌≡◌, ◌≢◌, true, Bool, Option, none, some, arith, ◌==◌, Option-cases,
  inl, inr,
}
use orders_go.Go.Int64.{Duration}
use orders_go.Go.Errors.{GoError}
use orders_go.Go.Effects.{P, Runtime, Round, returned, continued}
use orders_go.Reliability.Retry.{
  RetryPolicy, attempts_of, backoff, jitter_of, sleep_of, pause, attempt_round, retry_loop, retry,
}

module _ {W : Type 0} (rt : Runtime W) (p : RetryPolicy W) (fn : P W (Option GoError)) where
  -- A world that what `Do` does beside `fn` leaves as it is, as far as `f` sees it.
  pub record IsQuiet (f : W → ℕ) : Type 0 where
    pub ctx_err_quiet : (w : W) → f (rt.ctx_err w).1 ≡ f w
    pub jitter_quiet : (d : Duration) (w : W) → f (jitter_of rt p d w).1 ≡ f w
    pub sleep_quiet : (d : Duration) (w : W) → f (sleep_of rt p d w).1 ≡ f w

  -- The world that a round leaves behind.
  abbrev world_of : Round W → W
  world_of (returned _ w) = w
  world_of (continued w) = w

  pause_quiet : (f : W → ℕ) → IsQuiet f → (k : ℕ) (w : W) → f (world_of (pause rt p k w)) ≡ f w
  unfolding pause
  pause_quiet f q k w =
      let d = jitter_of rt p (backoff p k) w in
      ground (arith, q.jitter_quiet (backoff p k) w, q.sleep_quiet d.0 d.1)

  attempt_round_calls :
      (f : W → ℕ)
      → IsQuiet f
      → ((w : W) (e : Option GoError) (w' : W) → fn w ≡ some (e, w') → f w' ≤ f w + 1)
      → (last : Bool) (k : ℕ) (w : W) (x : Round W) → attempt_round rt p fn last k w ≡ some x
      → f (world_of x) ≤ f w + 1
  unfolding attempt_round
  attempt_round_calls f q counts last k w x h =
      let w₁ = (rt.ctx_err w).1 in
      elim (Option-cases (fn w₁)) [
        | inl stuck ↦ ground (arith, q.ctx_err_quiet w)
        | inr ((outcome, w₂), ran) ↦
            ground (arith, q.ctx_err_quiet w, counts w₁ outcome w₂ ran, pause_quiet f q k w₂)
      ]

  retry_loop_calls :
      (f : W → ℕ)
      → IsQuiet f
      → ((w : W) (e : Option GoError) (w' : W) → fn w ≡ some (e, w') → f w' ≤ f w + 1)
      → (left k : ℕ) (w : W) (e : Option GoError) (w' : W)
      → retry_loop rt p fn left k w ≡ some (e, w')
      → f w' ≤ f w + left
  unfolding retry_loop
  retry_loop_calls f q counts zero k w e w' h = ground arith
  retry_loop_calls f q counts (suc left) k w e w' h =
      elim (Option-cases (attempt_round rt p fn (left == 0) k w)) [
        | inl stuck ↦ ground arith
        | inr (returned err v, now) ↦
            ground (arith, attempt_round_calls f q counts (left == 0) k w (returned err v) now)
        | inr (continued v, now) ↦ ground (
          arith,
          attempt_round_calls f q counts (left == 0) k w (continued v) now,
          retry_loop_calls f q counts left (k + 1) v e w',
        )
      ]

  -- If what `Do` does beside `fn` leaves a count alone, and `fn` adds at most one to it, then `Do`
  -- adds at most the attempts of its policy: it calls `fn` no more often.
  pub retry_calls :
      (f : W → ℕ)
      → IsQuiet f
      → ((w : W) (e : Option GoError) (w' : W) → fn w ≡ some (e, w') → f w' ≤ f w + 1)
      → (w : W) (e : Option GoError) (w' : W) → retry rt p fn w ≡ some (e, w')
      → f w' ≤ f w + attempts_of p
  unfolding retry
  retry_calls f q counts w e w' h = retry_loop_calls f q counts (attempts_of p) 0 w e w' h

  pause-ne-nil : (k : ℕ) (w w' : W) → pause rt p k w ≢ returned none w'
  unfolding pause
  pause-ne-nil k w w' = ground arith

  attempt_round-nil :
      (last : Bool) (k : ℕ) (w w' : W)
      → attempt_round rt p fn last k w ≡ some (returned none w')
      → fn (rt.ctx_err w).1 ≡ some (none, w')
  unfolding attempt_round
  attempt_round-nil last k w w' h = elim (Option-cases (fn (rt.ctx_err w).1)) [
    | inl stuck ↦ ground arith
    | inr ((outcome, w₂), ran) ↦ ground (arith, ran, pause-ne-nil k w₂ w')
  ]

  pub attempt_round-last : (k : ℕ) (w w' : W) → attempt_round rt p fn true k w ≢ some (continued w')
  unfolding attempt_round
  attempt_round-last k w w' = elim (Option-cases (fn (rt.ctx_err w).1)) [
    | inl stuck ↦ ground arith
    | inr ((outcome, w₂), ran) ↦ ground (arith, ran)
  ]

  retry_loop-nil :
      (left k : ℕ) (w w' : W)
      → retry_loop rt p fn (suc left) k w ≡ some (none, w')
      → (w₁ : W) × (fn w₁ ≡ some (none, w'))
  unfolding retry_loop
  retry_loop-nil zero k w w' h = elim (Option-cases (attempt_round rt p fn true k w)) [
    | inl stuck ↦ absurd (ground arith)
    | inr (returned err v, now) ↦ ((rt.ctx_err w).1, attempt_round-nil true k w w' (ground arith))
    | inr (continued v, now) ↦ absurd (attempt_round-last k w v now)
  ]
  retry_loop-nil (suc left) k w w' h =
      elim (Option-cases (attempt_round rt p fn (suc left == 0) k w)) [
        | inl stuck ↦ absurd (ground arith)
        | inr (returned err v, now) ↦
            ((rt.ctx_err w).1, attempt_round-nil (suc left == 0) k w w' (ground arith))
        | inr (continued v, now) ↦ retry_loop-nil left (k + 1) v w' (rw (now, retry_loop) at h)
      ]

  pub attempts_pos : (n : ℕ) × (attempts_of p ≡ suc n)
  attempts_pos = (attempts_of p - 1, ground arith)

  -- `Do` returns nil only right behind a call of `fn` that returned nil.
  pub retry-nil :
      (w w' : W) → retry rt p fn w ≡ some (none, w') → (w₁ : W) × (fn w₁ ≡ some (none, w'))
  unfolding retry
  retry-nil w w' h = let (n, e) = attempts_pos in retry_loop-nil n 0 w w' (rw e at h)

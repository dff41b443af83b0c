-- ===== src/Reliability/Retry/Flaky.antt =====
-- reliability.go, `RetryPolicy.Do` of a call that fails some times and then succeeds.
use orders_go.Common.{
  ℕ, zero, suc, ◌+◌, ◌-◌, ◌≤◌, ◌<◌, ◌≡◌, refl, true, false, Bool, Option, none, some, arith, ◌==◌,
  ℕ-cases, Bool-cases, inl, inr, ◌∙◌,
}
use orders_go.Common.Int.{pos, ltb_ℤ}
use orders_go.Go.Int64.{Duration}
use orders_go.Go.Errors.{GoError}
use orders_go.Go.Effects.{P, Runtime, returned, continued}
use orders_go.Reliability.Retry.{
  RetryPolicy, attempts_of, backoff, jitter_of, sleep_of, should_retry_of, pause, attempt_round,
  retry_loop, retry,
}
use orders_go.Reliability.Retry.Attempts.{IsQuiet, attempts_pos}

module _ {W : Type 0} (rt : Runtime W) (p : RetryPolicy W) (fn : P W (Option GoError)) where
  -- Surroundings in which the context stays alive and every sleep is slept out, and an `fn` that
  -- fails with errors that are retried as often as `due` says, and then succeeds.
  pub record IsFlaky (due : W → ℕ) : Type 0 where
    pub quiet : IsQuiet rt p fn due
    pub alive : (w : W) → (rt.ctx_err w).0 ≡ none
    pub rested : (d : Duration) (w : W) → (sleep_of rt p d w).0 ≡ none
    pub works : (w : W) → due w ≡ 0 → (w' : W) × (fn w ≡ some (none, w'))
    pub fails :
        (w : W) (j : ℕ)
        → due w ≡ suc j
        → (e : GoError) × (w' : W) × (fn w ≡ some (some e, w'))
          × (should_retry_of rt p e ≡ true)
          × (due w' ≡ j)

  pause_continues :
      {due : W → ℕ}
      → IsFlaky due
      → (k : ℕ) (w : W) → (w' : W) × (pause rt p k w ≡ continued w') × (due w' ≡ due w)
  unfolding pause
  pause_continues flaky k w =
      let (d, w₁) = jitter_of rt p (backoff p k) w in
      let same = flaky.quiet.jitter_quiet (backoff p k) w in
      elim (Bool-cases (ltb_ℤ (pos 0) d)) [
        | inl sleeps ↦ (
          (sleep_of rt p d w₁).1,
          ground (arith, flaky.rested d w₁),
          flaky.quiet.sleep_quiet d w₁ ∙ same,
        )
        | inr wakes ↦ (w₁, ground arith, same)
      ]

  round_succeeds :
      {due : W → ℕ}
      → IsFlaky due
      → (last : Bool) (k : ℕ) (w : W) → due w ≡ 0
      → (w' : W) × (attempt_round rt p fn last k w ≡ some (returned none w'))
  unfolding attempt_round
  round_succeeds flaky last k w none_due =
      let (w', ok) = flaky.works (rt.ctx_err w).1 (flaky.quiet.ctx_err_quiet w ∙ none_due) in
      (w', ground (arith, flaky.alive w, ok))

  round_fails :
      {due : W → ℕ}
      → IsFlaky due
      → (last : Bool) (k : ℕ) (w : W) (j : ℕ) → due w ≡ suc j
      → (e : GoError) × (v w' : W) × (last ≡ true
          → attempt_round rt p fn last k w ≡ some (returned (some e) v))
        × (last ≡ false → attempt_round rt p fn last k w ≡ some (continued w'))
        × (due w' ≡ j)
  unfolding attempt_round
  round_fails flaky last k w j some_due =
      let (e, v, failed, again, left) =
        flaky.fails (rt.ctx_err w).1 j (flaky.quiet.ctx_err_quiet w ∙ some_due) in
      let (w', goes_on, same) = pause_continues flaky k v in
      (
        e,
        v,
        w',
        ground (arith, flaky.alive w, failed),
        ground (arith, flaky.alive w, failed, again, goes_on),
        same ∙ left,
      )

  retry_loop-succeeds :
      {due : W → ℕ}
      → IsFlaky due
      → (left k : ℕ) (w : W) → due w < left
      → (w' : W) × (retry_loop rt p fn left k w ≡ some (none, w'))
  unfolding retry_loop
  retry_loop-succeeds flaky zero k w h = elim h [ ]
  retry_loop-succeeds {due} flaky (suc left) k w h = elim (ℕ-cases (due w)) [
    | inl none_due ↦
        let (w', done) = round_succeeds flaky (left == 0) k w none_due in
        (w', rw (done, retry_loop))
    | inr (j, some_due) ↦
        let (e, v, w', _, goes_on, left_due) = round_fails flaky (left == 0) k w j some_due in
        let (w'', done) = retry_loop-succeeds flaky left (k + 1) w' (omega arith) in
        (w'', rw (goes_on (ground arith), retry_loop) done)
  ]

  retry_loop-fails :
      {due : W → ℕ}
      → IsFlaky due
      → (left k : ℕ) (w : W) → suc left ≤ due w
      → (e : GoError) × (w' : W) × (retry_loop rt p fn (suc left) k w ≡ some (some e, w'))
  unfolding retry_loop
  retry_loop-fails {due} flaky zero k w h =
      let (e, v, _, stops, _, _) = round_fails flaky true k w (due w - 1) (omega arith) in
      (e, v, rw (stops refl, retry_loop))
  retry_loop-fails {due} flaky (suc left) k w h =
      let (_, _, w', _, goes_on, left_due) =
        round_fails flaky (suc left == 0) k w (due w - 1) (omega arith) in
      let (e, w'', done) = retry_loop-fails flaky left (k + 1) w' (omega arith) in
      (e, w'', rw (goes_on (ground arith), retry_loop) done)

  -- In surroundings in which the context stays alive and every sleep is slept out, with an `fn` that
  -- fails with retried errors `due w` times and then succeeds, `Do` succeeds if the failures are
  -- fewer than the attempts, and else returns an error.
  pub retry_outcome :
      {due : W → ℕ}
      → IsFlaky due
      → (w : W)
      → (due w < attempts_of p → (w' : W) × (retry rt p fn w ≡ some (none, w')))
        × (attempts_of p ≤ due w → (e : GoError) × (w' : W) × (retry rt p fn w ≡ some (some e, w')))
  unfolding retry
  retry_outcome flaky w =
      let (n, e) = attempts_pos rt p fn in
      (
        retry_loop-succeeds flaky (attempts_of p) 0 w,
        λ many. rw e (retry_loop-fails flaky n 0 w (rw e at many)),
      )

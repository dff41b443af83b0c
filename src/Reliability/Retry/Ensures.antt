-- ===== src/Reliability/Retry/Ensures.antt =====
-- reliability.go, `RetryPolicy.Do`: a rule to carry a property of the world, and of the outcome,
-- through the loop.
use mathlib.Core.Path.{subst}
use orders_go.Common.{
  ℕ, zero, suc, ◌+◌, ◌≡◌, true, Bool, Option, none, some, arith, ◌==◌, ◌||◌, not, Option-cases,
  Bool-cases, inl, inr,
}
use orders_go.Common.Int.{pos, ltb_ℤ}
use orders_go.Go.Int64.{Duration}
use orders_go.Go.Errors.{GoError}
use orders_go.Go.Effects.{P, Runtime, Round, returned, continued}
use orders_go.Reliability.Retry.{
  RetryPolicy, backoff, jitter_of, sleep_of, should_retry_of, pause, attempt_round, retry_loop,
  retry,
}
use orders_go.Reliability.Retry.Attempts.{attempts_pos, attempt_round-last}

module _ {W : Type 0} (rt : Runtime W) (p : RetryPolicy W) (Holds : W → Type 0) where
  -- What `Do` does beside `fn` keeps the property.
  pub record IsKept : Type 0 where
    pub ctx_err_kept : (w : W) → Holds w → Holds (rt.ctx_err w).1
    pub jitter_kept : (d : Duration) (w : W) → Holds w → Holds (jitter_of rt p d w).1
    pub sleep_kept : (d : Duration) (w : W) → Holds w → Holds (sleep_of rt p d w).1

  module _ (kept : IsKept) (Good : Option GoError → Type 0)
      (bad : (e : GoError) → Good (some e)) where
    -- What a round ensures: a good outcome where it returns, and the property.
    abbrev pub RoundEnsures : Round W → Type 0
    RoundEnsures (returned err w) = Holds w × Good err
    RoundEnsures (continued w) = Holds w

    pause-Ensures : (k : ℕ) (w : W) → Holds w → RoundEnsures (pause rt p k w)
    unfolding pause
    pause-Ensures k w h =
        let (d, w₁) = jitter_of rt p (backoff p k) w in
        let h₁ = kept.jitter_kept (backoff p k) w h in
        let h₂ = kept.sleep_kept d w₁ h₁ in
        elim (Bool-cases (ltb_ℤ (pos 0) d)) [
          | inl sleeps ↦ elim (Option-cases (sleep_of rt p d w₁).0) [
            | inl slept ↦ rw sleeps (rw slept h₂)
            | inr (e, woken) ↦ rw sleeps (rw woken (h₂, bad e))
          ]
          | inr wakes ↦ rw wakes h₁
        ]

    module _ (fn : P W (Option GoError))
        (ensures : (w : W) (e : Option GoError) (w' : W)
          → Holds w
          → fn w ≡ some (e, w')
          → Holds w' × Good e) where
      pub attempt_round-Ensures :
          (last : Bool) (k : ℕ) (w : W) (x : Round W)
          → Holds w
          → attempt_round rt p fn last k w ≡ some x
          → RoundEnsures x
      unfolding attempt_round
      attempt_round-Ensures last k w x h e =
          let (stop, w₁) = rt.ctx_err w in
          let h₁ = kept.ctx_err_kept w h in
          let stops : (r : Round W) → r ≡ x → RoundEnsures r → RoundEnsures x =
            λ r. subst RoundEnsures in
          elim (Option-cases stop) [
            | inr (err, done) ↦ stops (returned (some err) w₁) (ground (arith, done)) (h₁, bad err)
            | inl alive ↦ elim (Option-cases (fn w₁)) [
              | inl stuck ↦ absurd (ground (arith, alive, stuck))
              | inr ((none, w₂), ran) ↦
                  stops (returned none w₂) (ground (arith, alive, ran)) (ensures w₁ none w₂ h₁ ran)
              | inr ((some err, w₂), ran) ↦
                  let (h₂, good) = ensures w₁ (some err) w₂ h₁ ran in
                  elim (Bool-cases (last || not (should_retry_of rt p err))) [
                    | inl final ↦
                        stops (returned (some err) w₂) (ground (arith, alive, ran, final))
                          (h₂, good)
                    | inr again ↦
                        stops (pause rt p k w₂) (ground (arith, alive, ran, again))
                          (pause-Ensures k w₂ h₂)
                  ]
            ]
          ]

      retry_loop-Ensures :
          (left k : ℕ) (w w' : W) (e : Option GoError)
          → Holds w
          → retry_loop rt p fn (suc left) k w ≡ some (e, w')
          → Holds w' × Good e
      unfolding retry_loop
      retry_loop-Ensures zero k w w' e h done =
          elim (Option-cases (attempt_round rt p fn true k w)) [
            | inl stuck ↦ absurd (ground (arith, stuck))
            | inr (returned err v, now) ↦
                subst (λ (r : Option GoError × W). Holds r.1 × Good r.0) (ground (arith, now))
                  (attempt_round-Ensures true k w (returned err v) h now)
            | inr (continued v, now) ↦ absurd (attempt_round-last rt p fn k w v now)
          ]
      retry_loop-Ensures (suc left) k w w' e h done =
          elim (Option-cases (attempt_round rt p fn (suc left == 0) k w)) [
            | inl stuck ↦ absurd (ground (arith, stuck))
            | inr (returned err v, now) ↦
                subst (λ (r : Option GoError × W). Holds r.1 × Good r.0) (ground (arith, now))
                  (attempt_round-Ensures (suc left == 0) k w (returned err v) h now)
            | inr (continued v, now) ↦
                retry_loop-Ensures left (k + 1) v w' e
                  (attempt_round-Ensures (suc left == 0) k w (continued v) h now)
                  (rw (now, retry_loop) at done)
          ]

      pub retry-Ensures :
          (w w' : W) (e : Option GoError)
          → Holds w
          → retry rt p fn w ≡ some (e, w')
          → Holds w' × Good e
      unfolding retry
      retry-Ensures w w' e h done =
          let (n, same) = attempts_pos rt p fn in retry_loop-Ensures n 0 w w' e h (rw same at done)

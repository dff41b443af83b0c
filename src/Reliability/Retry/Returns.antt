-- ===== src/Reliability/Retry/Returns.antt =====
-- reliability.go, `RetryPolicy.Do`: where each attempt comes back from a world that the others leave,
-- so does the loop.
use mathlib.Core.Path.{subst}
use orders_go.Common.{
  ℕ, zero, suc, ◌+◌, ◌≡◌, ◌≢◌, Bool, Option, none, some, arith, ◌==◌, Option-cases, inl, inr,
}
use orders_go.Go.Errors.{GoError}
use orders_go.Go.Effects.{P, Runtime, returned, continued}
use orders_go.Reliability.Retry.{RetryPolicy, attempts_of, attempt_round, retry_loop, retry}
use orders_go.Reliability.Retry.Ensures.{IsKept, attempt_round-Ensures, retry-Ensures}

-- From a world with the property the call comes back, and leaves one with it.
abbrev pub Returns : {W A : Type 0} → (W → Type 0) → P W A → Type 0
Returns {W} {A} Holds m = (w : W) → Holds w → (a : A) × (w' : W) × (m w ≡ some (a, w')) × Holds w'

module _ {W : Type 0} (rt : Runtime W) (p : RetryPolicy W) (Holds : W → Type 0)
    (kept : IsKept rt p Holds) (fn : P W (Option GoError)) (returns : Returns Holds fn) where
  ensured :
      (w : W) (e : Option GoError) (w' : W) → Holds w → fn w ≡ some (e, w') → Holds w' × Unit {0}
  ensured w e w' h ran =
      let (a, v, ran', h') = returns w h in
      let same : v ≡ w' = ground (arith, ran, ran') in (subst Holds same h', tt)

  attempt_round-stuck :
      (last : Bool) (k : ℕ) (w : W) → Holds w → attempt_round rt p fn last k w ≢ none
  unfolding attempt_round
  attempt_round-stuck last k w h =
      let (a, v, ran, _) = returns (rt.ctx_err w).1 (kept.ctx_err_kept w h) in ground (arith, ran)

  retry_loop-stuck : (left k : ℕ) (w : W) → Holds w → retry_loop rt p fn left k w ≢ none
  unfolding retry_loop
  retry_loop-stuck zero k w h = ground arith
  retry_loop-stuck (suc left) k w h = elim (Option-cases (attempt_round rt p fn (left == 0) k w)) [
    | inl stuck ↦ absurd (attempt_round-stuck (left == 0) k w h stuck)
    | inr (returned err v, now) ↦ ground (arith, now)
    | inr (continued v, now) ↦
        let next = retry_loop-stuck left (k + 1) v (
          attempt_round-Ensures rt p Holds kept (λ _. Unit {0}) (λ _. tt) fn ensured (left == 0) k w
            (continued v) h now) in
        ground (arith, now, next)
  ]

  pub retry-Returns : Returns Holds (retry rt p fn)
  unfolding retry
  retry-Returns w h = elim (Option-cases (retry rt p fn w)) [
    | inl stuck ↦ absurd (retry_loop-stuck (attempts_of p) 0 w h stuck)
    | inr ((e, w'), ran) ↦ (
      e,
      w',
      ran,
      (retry-Ensures rt p Holds kept (λ _. Unit {0}) (λ _. tt) fn ensured w w' e h ran).0,
    )
  ]

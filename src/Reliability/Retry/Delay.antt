-- ===== src/Reliability/Retry/Delay.antt =====
-- reliability.go, the delay computation of `RetryPolicy.Do` and `defaultJitter`.
use native.Mathlib.Nat.{pow-suc}
use orders_go.Common.{
  ℕ, zero, suc, ◌+◌, ◌*◌, ◌/◌, ◌%◌, ◌^◌, ◌≤◌, ◌<◌, ◌≡◌, refl, ◌⊎◌, arith, ltb, if◌then◌else◌,
}
use orders_go.Common.Int.{pos}
use orders_go.Go.Int64.{shl64_pos, div64, add64_pos}
use orders_go.Go.Effects.{Runtime}
use orders_go.Reliability.Retry.{RetryPolicy, backoff, default_jitter}

module _ {W : Type 0} (p : RetryPolicy W) {b m : ℕ} (base : p.base_delay ≡ pos b)
    (most : p.max_delay ≡ pos m) where
  -- Where the shift does not overflow, the delay doubles with each attempt up to the greatest delay.
  backoff-doubles :
      (k : ℕ)
      → b * 2 ^ k < 2 ^ 63
      → backoff p k
        ≡ pos (if ltb 0 m then (if ltb m (b * 2 ^ k) then m else b * 2 ^ k) else b * 2 ^ k)
  unfolding backoff
  backoff-doubles k fits = rw (base, most) (rw (shl64_pos b k) (ground arith))

  -- Where the shift overflows into the sign bit, or shifts every bit out, the jittered delay is 0,
  -- however great the delay was meant to be and whatever the greatest delay is.
  pub backoff-overflow :
      (rt : Runtime W) (k : ℕ) (w : W)
      → ((b * 2 ^ k) % 2 ^ 64 ≡ 0) ⊎ (2 ^ 63 ≤ (b * 2 ^ k) % 2 ^ 64)
      → default_jitter rt (backoff p k) w ≡ (pos 0, w)
  unfolding backoff default_jitter
  backoff-overflow rt k w bits = rw (base, most) (rw (shl64_pos b k) (ground arith))

-- A shift by 64 places or more leaves no bit.
pub vanishes : (b j k : ℕ) → k ≡ 64 + j → (b * 2 ^ k) % 2 ^ 64 ≡ 0
vanishes b j zero e = absurd (omega arith)
vanishes b zero (suc k) e = let e' : suc k ≡ 64 = omega arith in rw e' (omega arith)
vanishes b (suc j) (suc k) e = rw (pow-suc 2 k) (omega (arith, vanishes b j k (omega arith)))

-- With a random number below its bound, the jitter takes off at most half of a delay that is not
-- negative, and adds nothing.
default_jitter_bounds :
    {W : Type 0} (rt : Runtime W) (n : ℕ) (w : W)
    → n < 2 ^ 63
    → ((h : ℕ) → (r : ℕ) × ((rt.int63n (pos (h + 1)) w).0 ≡ pos r) × (r ≤ h))
    → (x : ℕ) × ((default_jitter rt (pos n) w).0 ≡ pos x) × (n ≤ 2 * x + 1) × (x ≤ n)
unfolding default_jitter div64
default_jitter_bounds rt zero w small law = (0, refl, omega arith, omega arith)
default_jitter_bounds rt (suc m) w small law =
    let h : ℕ = suc m / 2 in
    let (r, drawn, le) = law h in
    (h + r, ground (arith, add64_pos h 1, drawn, add64_pos h r), omega arith, omega arith)

-- ===== src/Reliability/Limiter/Bucket.antt =====
-- reliability.go, `RateLimiter.refill`, and a token bucket over plain numbers beside it.
use orders_go.Common.{ℕ, ◌+◌, ◌-◌, ◌*◌, ◌/◌, ◌^◌, ◌≤◌, ◌<◌, ◌≡◌, arith, ltb, if◌then◌else◌}
use orders_go.Common.Int.{pos}
use orders_go.Go.Int64.{div64, time_sub_pos, time_add_pos, add64_pos, mul64_pos}
use orders_go.Reliability.Limiter.{RateLimiter, refill}

pub record Bucket : Type 0 where
  pub rate : ℕ
  pub burst : ℕ
  pub tokens : ℕ
  pub last : ℕ

abbrev pub min : ℕ → ℕ → ℕ
min a b = if ltb a b then a else b

-- One token for each whole `rate` since `last`, up to `burst`; the rest of the time is kept.
abbrev pub topped_up : ℕ → Bucket → Bucket
topped_up now b =
    let add = (now - b.last) / b.rate in
    record b { tokens = min b.burst (b.tokens + add); last = b.last + add * b.rate }

-- The limiter that a bucket stands for.
abbrev pub limiter : Bucket → RateLimiter
limiter b = record {
  rate = pos b.rate;
  burst = pos b.burst;
  tokens = pos b.tokens;
  last = pos b.last;
}

-- A reading of the clock that is not before `last`, with no number near the end of an int64.
pub record IsSound (now : ℕ) (b : Bucket) : Type 0 where
  pub rate_pos : 0 < b.rate
  pub capped : b.tokens ≤ b.burst
  pub forward : b.last ≤ now
  pub rate_small : b.rate < 2 ^ 63
  pub small : b.burst + (now - b.last) < 2 ^ 63

pub div_mul_le : (e r : ℕ) → 0 < r → e / r * r ≤ e
div_mul_le e r h = omega arith

pub div_pos : (e r : ℕ) → 0 < r → r ≤ e → 1 ≤ e / r
div_pos e r h k = grind arith

pub div_le : (e r : ℕ) → 0 < r → e / r ≤ e
div_le e r h = grind arith

pub rest_lt : (e r : ℕ) → 0 < r → e < e / r * r + r
rest_lt e r h = omega arith

pub div_small : (e r : ℕ) → e < r → e / r ≡ 0
div_small e r h = grind arith

pub div_small_mul : (e r : ℕ) → e < r → e / r * r ≡ 0
div_small_mul e r h = rw (div_small e r h) (omega arith)

-- For a clock that is not before `last`, and with no number near the end of an int64, the code's
-- refill in 64-bit arithmetic computes that of the bucket over plain numbers.
pub refill-topped_up :
    (now : ℕ) (b : Bucket)
    → IsSound now b
    → refill (pos now) (limiter b) ≡ limiter (topped_up now b)
unfolding refill div64
refill-topped_up now b h =
    let add : ℕ = (now - b.last) / b.rate in
    let fits : add ≤ now - b.last = div_le (now - b.last) b.rate h.rate_pos in
    let kept : add * b.rate ≤ now - b.last = div_mul_le (now - b.last) b.rate h.rate_pos in
    rw (time_sub_pos now b.last h.forward (omega arith)) (
      rw
        (
          add64_pos b.tokens add (omega (arith, h.capped, h.small)),
          mul64_pos add b.rate (omega (arith, h.small)),
          time_add_pos b.last (add * b.rate),
        )
        (ground (
          arith,
          div_pos (now - b.last) b.rate,
          div_small (now - b.last) b.rate,
          div_small_mul (now - b.last) b.rate,
        )))

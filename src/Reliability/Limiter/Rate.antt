-- ===== src/Reliability/Limiter/Rate.antt =====
-- reliability.go, `RateLimiter.Wait`: what its rounds under the mutex grant, in any order in which
-- goroutines get there.
use mathlib.Core.Path.{subst}
use orders_go.Common.{
  ℕ, zero, suc, ◌+◌, ◌-◌, ◌*◌, ◌/◌, ◌^◌, ◌≤◌, ◌<◌, ◌≡◌, refl, none, some, List, [], ◌∷◌, arith,
  Bool-cases, ltb, if◌then◌else◌, inl, inr,
}
use orders_go.Common.Int.{pos}
use orders_go.Go.Int64.{Duration, time_sub_pos, sub64_pos}
use orders_go.Reliability.Limiter.{RateLimiter, poll}
use orders_go.Reliability.Limiter.Bucket.{
  Bucket, limiter, topped_up, min, IsSound, refill-topped_up, div_mul_le, rest_lt,
}

-- The time since `last` that has made no token yet, after a refill.
abbrev pub rest : ℕ → Bucket → ℕ
rest now b = now - (topped_up now b).last

pub rest-lt-rate :
    (now : ℕ) (b : Bucket) → IsSound now b → (rest now b < b.rate) × ((topped_up now b).last ≤ now)
rest-lt-rate now b h = (
  omega (
    arith,
    h.forward,
    rest_lt (now - b.last) b.rate h.rate_pos,
    div_mul_le (now - b.last) b.rate h.rate_pos,
  ),
  omega (arith, h.forward, div_mul_le (now - b.last) b.rate h.rate_pos),
)

-- A round takes a token if the refill leaves one, and else is told when the next is due.
pub poll_lem :
    (now : ℕ) (b : Bucket)
    → IsSound now b
    → let b' = topped_up now b in
      poll (pos now) (limiter b) ≡ (
        if ltb 0 b'.tokens
        then (limiter (record b' { tokens = b'.tokens - 1 }), none)
        else (limiter b', some (pos (b.rate - rest now b))))
unfolding poll
poll_lem now b h =
    let (lt, le) = rest-lt-rate now b h in
    rw (refill-topped_up now b h) (
      rw (time_sub_pos now (topped_up now b).last le (omega (arith, lt, h.rate_small))) (
        rw (sub64_pos b.rate (rest now b) (omega (arith, lt)) h.rate_small)
          (ground (arith, sub64_pos (topped_up now b).tokens 1, h.small, h.capped))))

-- How many of the rounds at these readings of the clock take a token, and the limiter after them.
pub granted : List ℕ → RateLimiter → ℕ × RateLimiter
granted [] r = (0, r)
granted (t ∷ ts) r =
    let (r', wait) = poll (pos t) r in
    let (n, r'') = granted ts r' in (elim wait [ none ↦ suc n | some _ ↦ n ], r'')

granted-won :
    (t : ℕ) (ts : List ℕ) (r r' : RateLimiter)
    → poll (pos t) r ≡ (r', none)
    → (granted (t ∷ ts) r).0 ≡ suc (granted ts r').0
unfolding granted
granted-won t ts r r' e = ground arith

granted-lost :
    (t : ℕ) (ts : List ℕ) (r r' : RateLimiter) {d : Duration}
    → poll (pos t) r ≡ (r', some d)
    → (granted (t ∷ ts) r).0 ≡ (granted ts r').0
unfolding granted
granted-lost t ts r r' e = ground arith

-- Readings of a clock that does not go back, from `lo` to `hi`.
abbrev pub Ascending : ℕ → List ℕ → ℕ → Type 0
Ascending lo [] hi = lo ≤ hi
Ascending lo (t ∷ ts) hi = (lo ≤ t) × Ascending t ts hi

Ascending-le : (lo : ℕ) (ts : List ℕ) (hi : ℕ) → Ascending lo ts hi → lo ≤ hi
Ascending-le lo [] hi h = h
Ascending-le lo (t ∷ ts) hi h = omega (arith, Ascending-le t ts hi h.1)

mul_mono : (a b r : ℕ) → a ≤ b → a * r ≤ b * r
mul_mono a b r h = grind arith

min_mul : (a b r : ℕ) → min a b * r ≤ b * r
min_mul a b r = mul_mono (min a b) b r (ground arith)

-- A refill makes no more tokens than it moves `last` forward.
topped_up_potential :
    (now r : ℕ) (b : Bucket)
    → b.rate ≡ r
    → (topped_up now b).tokens * r + b.last ≤ b.tokens * r + (topped_up now b).last
topped_up_potential now r b e =
    subst (λ q. (topped_up now b).tokens * q + b.last ≤ b.tokens * q + (topped_up now b).last) e
      (omega (arith, min_mul b.burst (b.tokens + (now - b.last) / b.rate) b.rate))

-- A token taken is one `rate` off the potential.
spend :
    (n k r p l l' hi : ℕ)
    → 0 < k
    → n * r ≤ (k - 1) * r + (hi - l')
    → k * r + l ≤ p + l'
    → l' ≤ hi
    → suc n * r ≤ p + (hi - l)
spend n zero r p l l' hi z a b c = elim z [ ]
spend n (suc k) r p l l' hi z a b c =
    let same : suc k - 1 ≡ k = omega arith in
    let a' : n * r ≤ k * r + (hi - l') = rw (← same) a in omega (arith, a', b)

keep :
    (n k r p l l' hi : ℕ)
    → n * r ≤ k * r + (hi - l')
    → k * r + l ≤ p + l'
    → l' ≤ hi
    → n * r ≤ p + (hi - l)
keep n k r p l l' hi a b c = omega arith

module _ (r0 b0 : ℕ) (rate_pos : 0 < r0) (rate_small : r0 < 2 ^ 63) where
  -- A bucket at time `lo` whose numbers stay small until `hi`.
  record IsSafe (lo hi : ℕ) (b : Bucket) : Type 0 where
    same_rate : b.rate ≡ r0
    same_burst : b.burst ≡ b0
    capped : b.tokens ≤ b.burst
    past : b.last ≤ lo
    small : b0 + (hi - b.last) < 2 ^ 63

  IsSafe-IsSound : (lo hi t : ℕ) (b : Bucket) → IsSafe lo hi b → lo ≤ t → t ≤ hi → IsSound t b
  IsSafe-IsSound lo hi t b s l k = record {
    rate_pos = omega (arith, s.same_rate);
    capped = s.capped;
    forward = omega (arith, s.past);
    rate_small = omega (arith, s.same_rate);
    small = omega (arith, s.small, s.same_burst);
  }

  topped_up-IsSafe :
      (lo hi t : ℕ) (b : Bucket) → IsSafe lo hi b → IsSound t b → IsSafe t hi (topped_up t b)
  topped_up-IsSafe lo hi t b s sound = record {
    same_rate = s.same_rate;
    same_burst = s.same_burst;
    capped = ground arith;
    past = (rest-lt-rate t b sound).1;
    small = omega (arith, s.small);
  }

  spent-IsSafe :
      (lo hi : ℕ) (b : Bucket) → IsSafe lo hi b → IsSafe lo hi (record b { tokens = b.tokens - 1 })
  spent-IsSafe lo hi b s = record {
    same_rate = s.same_rate;
    same_burst = s.same_burst;
    capped = omega (arith, s.capped);
    past = s.past;
    small = s.small;
  }

  granted_bound_from :
      (ts : List ℕ) (lo hi : ℕ) (b : Bucket)
      → IsSafe lo hi b
      → Ascending lo ts hi
      → (granted ts (limiter b)).0 * r0 ≤ b.tokens * r0 + (hi - b.last)
  unfolding granted
  granted_bound_from [] lo hi b s a = omega arith
  granted_bound_from (t ∷ ts) lo hi b s a =
      let sound = IsSafe-IsSound lo hi t b s a.0 (Ascending-le t ts hi a.1) in
      let b' = topped_up t b in
      let past = (rest-lt-rate t b sound).1 in
      let potential = topped_up_potential t r0 b s.same_rate in
      let now_safe = topped_up-IsSafe lo hi t b s sound in
      elim (Bool-cases (ltb 0 b'.tokens)) [
        | inl won ↦
            let b'' : Bucket = record b' { tokens = b'.tokens - 1 } in
            let ih = granted_bound_from ts t hi b'' (spent-IsSafe t hi b' now_safe) a.1 in
            let this : poll (pos t) (limiter b) ≡ (limiter b'', none) =
              rw (poll_lem t b sound) (rw won) in
            rw (granted-won t ts (limiter b) (limiter b'') this) (
              spend (granted ts (limiter b'')).0 b'.tokens r0 (b.tokens * r0) b.last b'.last hi
                (ground arith) ih potential
                (omega (arith, past, sound.forward, Ascending-le t ts hi a.1)))
        | inr lost ↦
            let ih = granted_bound_from ts t hi b' now_safe a.1 in
            let this : poll (pos t) (limiter b) ≡ (limiter b', some (pos (b.rate - rest t b))) =
              rw (poll_lem t b sound) (rw lost) in
            rw (granted-lost t ts (limiter b) (limiter b') this) (
              keep (granted ts (limiter b')).0 b'.tokens r0 (b.tokens * r0) b.last b'.last hi ih
                potential (omega (arith, past, sound.forward, Ascending-le t ts hi a.1)))
      ]

-- Whatever rounds run between `last` and `hi`, at readings of the clock that do not go back and far
-- from the end of an int64, they take at most the tokens there were and one for each `rate` of that
-- time.
pub granted_bound :
    (ts : List ℕ) (lo hi : ℕ) (b : Bucket)
    → IsSound lo b
    → Ascending lo ts hi
    → b.burst + (hi - b.last) < 2 ^ 63
    → (granted ts (limiter b)).0 * b.rate ≤ b.tokens * b.rate + (hi - b.last)
granted_bound ts lo hi b s a small =
    granted_bound_from b.rate b.burst s.rate_pos s.rate_small ts lo hi b
      (record {
        same_rate = refl;
        same_burst = refl;
        capped = s.capped;
        past = s.forward;
        small = small;
      })
      a

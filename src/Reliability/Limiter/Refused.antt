-- ===== src/Reliability/Limiter/Refused.antt =====
-- reliability.go, `RateLimiter.Wait`: the wait that a refused round is told.
use orders_go.Common.{
  ℕ, ◌+◌, ◌-◌, ◌≤◌, ◌<◌, ◌≡◌, Option, none, some, arith, ◌≢◌, Bool-cases, ltb, inl, inr, ap,
}
use orders_go.Common.Int.{pos}
use orders_go.Go.Int64.{Duration}
use orders_go.Reliability.Limiter.{RateLimiter, poll}
use orders_go.Reliability.Limiter.Bucket.{
  Bucket, limiter, topped_up, IsSound, div_pos, div_small, div_small_mul,
}
use orders_go.Reliability.Limiter.Rate.{rest, rest-lt-rate, poll_lem}

pub poll-refused :
    (now : ℕ) (b : Bucket)
    → IsSound now b
    → (poll (pos now) (limiter b)).1 ≢ none
    → ((topped_up now b).tokens ≡ 0)
      × (poll (pos now) (limiter b) ≡ (limiter (topped_up now b), some (pos (b.rate - rest now b))))
poll-refused now b s no_token = elim (Bool-cases (ltb 0 (topped_up now b).tokens)) [
  | inl won ↦ absurd (no_token (rw (poll_lem now b s) (rw won)))
  | inr lost ↦ (ground arith, rw (poll_lem now b s) (rw lost))
]

pub topped_up-IsSound :
    (now later : ℕ) (b : Bucket)
    → IsSound now b
    → IsSound later b
    → now ≤ later
    → IsSound later (topped_up now b)
topped_up-IsSound now later b s s' le = record {
  rate_pos = s.rate_pos;
  capped = ground arith;
  forward = omega (arith, (rest-lt-rate now b s).1);
  rate_small = s.rate_small;
  small = omega (arith, s'.small);
}

-- An empty bucket grants from one `rate` after `last` on.
pub empty-granted :
    (t : ℕ) (b : Bucket)
    → IsSound t b
    → 0 < b.burst
    → b.last + b.rate ≤ t
    → (poll (pos t) (limiter b)).1 ≡ none
empty-granted t b s some_burst due =
    rw (poll_lem t b s) (ground (arith, div_pos (t - b.last) b.rate s.rate_pos (omega arith)))

empty-refused :
    (t : ℕ) (b : Bucket)
    → IsSound t b
    → b.tokens ≡ 0
    → t < b.last + b.rate
    → (poll (pos t) (limiter b)).1 ≡ some (pos (b.rate - (t - b.last)))
empty-refused t b s empty early = rw (poll_lem t b s) (
    ground (
      arith,
      div_small (t - b.last) b.rate (omega (arith, s.forward)),
      div_small_mul (t - b.last) b.rate (omega (arith, s.forward)),
    ))

-- With a positive burst, a clock that does not go back, and no other round between the two, a
-- refused round is told a wait of at most one `rate`, after which a round is not refused, and
-- before which every round is.
poll_wait_exact :
    (now later : ℕ) (b : Bucket)
    → IsSound now b
    → IsSound later b
    → now ≤ later
    → 0 < b.burst
    → (poll (pos now) (limiter b)).1 ≢ none
    → (d : ℕ) × ((poll (pos now) (limiter b)).1 ≡ some (pos d))
      × (0 < d)
      × (d ≤ b.rate)
      × (now + d ≤ later → (poll (pos later) (poll (pos now) (limiter b)).0).1 ≡ none)
      × (later < now + d
          → (e : ℕ) × ((poll (pos later) (poll (pos now) (limiter b)).0).1 ≡ some (pos e))
            × (later + e ≡ now + d))
poll_wait_exact now later b s s' le some_burst no_token =
    let b' = topped_up now b in
    let (empty, told) = poll-refused now b s no_token in
    let sound = topped_up-IsSound now later b s s' le in
    let (lt, past) = rest-lt-rate now b s in
    (
      b.rate - rest now b,
      ap (λ (p : RateLimiter × Option Duration). p.1) told,
      omega (arith, lt),
      omega arith,
      λ due. rw told (empty-granted later b' sound some_burst (omega (arith, due, past, lt))),
      λ early. (
        b.rate - (later - b'.last),
        rw told (empty-refused later b' sound empty (omega (arith, early, past, lt))),
        omega (arith, early, past, lt, sound.forward),
      ),
    )

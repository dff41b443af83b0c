-- ===== src/Reliability/Limiter/Waiting.antt =====
-- reliability.go, `RateLimiter.Wait`: the loop around the rounds under the mutex.
use native.Mathlib.Nat.{le_trans}
use orders_go.Common.{
  ℕ, zero, suc, ◌+◌, ◌-◌, ◌^◌, ◌≤◌, ◌<◌, ◌≡◌, ◌∙◌, ◌≢◌, Option, none, some, arith, Option-cases,
  inl, inr,
}
use orders_go.Common.Int.{pos}
use orders_go.Go.Int64.{Time, Duration}
use orders_go.Go.Errors.{GoError}
use orders_go.Go.Effects.{M, Runtime, Round, returned, continued, Round-cases}
use orders_go.Reliability.Limiter.{RateLimiter, poll, round, call_hook, wait_loop, wait}
use orders_go.Reliability.Limiter.Bucket.{Bucket, limiter, topped_up, IsSound}
use orders_go.Reliability.Limiter.Rate.{rest, rest-lt-rate}
use orders_go.Reliability.Limiter.Refused.{poll-refused, empty-granted, topped_up-IsSound}

-- What Go documents of the monotonic clock and of timers: no reading lies before what has passed,
-- and a timer that fires has waited as long as it was set for.
pub record IsClock {W : Type 0} (rt : Runtime W) (time : W → ℕ) : Type 0 where
  pub now_reads :
      (w : W) → (t : ℕ) × ((rt.now w).0 ≡ pos t) × (time w ≤ t) × (t ≤ time (rt.now w).1)
  pub ctx_err_forward : (w : W) → time w ≤ time (rt.ctx_err w).1
  pub timer_waits :
      (d : ℕ) (w : W) → (rt.timer (pos d) w).0 ≡ none → time w + d ≤ time (rt.timer (pos d) w).1

module _ {W : Type 0} (rt : Runtime W) (on_wait : Option (Duration → M W (Unit {0}))) where
  -- A round that finds the context done, or takes a token, is the last.
  round_stops :
      (r : RateLimiter) (w : W)
      → ((rt.ctx_err w).0 ≡ none → (poll (rt.now (rt.ctx_err w).1).0 r).1 ≡ none)
      → (err : Option GoError) × (s : RateLimiter × W) × (round rt on_wait (r, w) ≡ returned err s)
  unfolding round
  round_stops r w h = elim (Option-cases (rt.ctx_err w).0) [
    | inl live ↦ (
      none,
      ((poll (rt.now (rt.ctx_err w).1).0 r).0, (rt.now (rt.ctx_err w).1).1),
      ground (arith, h live),
    )
    | inr (e, done) ↦ (some e, (r, (rt.ctx_err w).1), ground arith)
  ]

  round-takes_token :
      (r : RateLimiter) (w : W) {s : RateLimiter × W}
      → round rt on_wait (r, w) ≡ returned none s
      → poll (rt.now (rt.ctx_err w).1).0 r ≡ (s.0, none)
  unfolding round
  round-takes_token r w h = ground arith

  round-continued :
      (r : RateLimiter) (w : W) {s : RateLimiter × W}
      → round rt on_wait (r, w) ≡ continued s
      → (poll (rt.now (rt.ctx_err w).1).0 r).1 ≢ none
  unfolding round
  round-continued r w h e = ground arith

  -- The loop of `Wait` returns nil only if a round under the mutex took a token, which leaves the
  -- limiter that `Wait` leaves.
  wait_loop-takes_token :
      (fuel : ℕ) (r : RateLimiter) (w : W) {s : RateLimiter × W}
      → wait_loop rt on_wait fuel (r, w) ≡ some (none, s)
      → (t : Time) × (r₁ : RateLimiter) × (poll t r₁ ≡ (s.0, none))
  unfolding wait_loop
  wait_loop-takes_token zero r w h = cc
  wait_loop-takes_token (suc n) r w {s} h = elim (Round-cases (round rt on_wait (r, w))) [
    | inl (err, s', e) ↦
        ((rt.now (rt.ctx_err w).1).0, r, round-takes_token r w {s = s} (ground arith))
    | inr (s', e) ↦ wait_loop-takes_token n s'.0 s'.1 (rw (e, wait_loop) at h)
  ]

  module _ {time : W → ℕ} (clock : IsClock rt time) where
    -- What a round that goes on has done: it slept for the wait that it was told.
    round_sleeps :
        (r : RateLimiter) (w : W) (d : ℕ) {s : RateLimiter × W}
        → ((u : W) → time u ≤ time (call_hook rt on_wait (pos d) u))
        → (poll (rt.now (rt.ctx_err w).1).0 r).1 ≡ some (pos d)
        → round rt on_wait (r, w) ≡ continued s
        → (s.0 ≡ (poll (rt.now (rt.ctx_err w).1).0 r).0)
          × (time (rt.now (rt.ctx_err w).1).1 + d ≤ time s.1)
    unfolding round
    round_sleeps r w d hook told e =
        let w₂ = (rt.now (rt.ctx_err w).1).1 in
        let w₃ = call_hook rt on_wait (pos d) w₂ in
        (ground arith, ground (arith, hook w₂, clock.timer_waits d w₃))

    -- The reading of the clock in a round that begins in `w`.
    reading : W → ℕ
    reading w = (clock.now_reads (rt.ctx_err w).1).0

    readings :
        (w : W)
        → ((rt.now (rt.ctx_err w).1).0 ≡ pos (reading w))
          × (time w ≤ reading w)
          × (reading w ≤ time (rt.now (rt.ctx_err w).1).1)
    unfolding reading
    readings w =
        let (t, e, after, before) = clock.now_reads (rt.ctx_err w).1 in
        (e, le_trans (clock.ctx_err_forward w) after, before)

    -- Where no other goroutine takes tokens, and the clock with the burst stays below 2^63
    -- nanoseconds, `Wait` on a bucket of a positive rate and burst ends after at most
    -- two rounds.
    pub wait_loop_total :
        (n : ℕ) (b : Bucket) (w : W)
        → ((d : Duration) (u : W) → time u ≤ time (call_hook rt on_wait d u))
        → ((u : W) → b.burst + time u < 2 ^ 63)
        → 0 < b.rate
        → b.rate < 2 ^ 63
        → 0 < b.burst
        → b.tokens ≤ b.burst
        → b.last ≤ time w
        → (err : Option GoError) × (s : RateLimiter × W) × (wait_loop rt on_wait
              (suc (suc n))
              (limiter b, w)
            ≡ some (err, s))
    unfolding wait_loop
    wait_loop_total n b w hook horizon rate rate_small burst capped past =
        let sound : (u : W) → b.last ≤ time u → IsSound (reading u) b = λ u later. record {
          rate_pos = rate;
          capped = capped;
          forward = omega (arith, (readings u).1);
          rate_small = rate_small;
          small = omega (arith, (readings u).2, horizon (rt.now (rt.ctx_err u).1).1);
        } in
        elim (Round-cases (round rt on_wait (limiter b, w))) [
          | inl (err, s, e) ↦ (err, s, rw (e, wait_loop))
          | inr (s, e) ↦
              let refused = round-continued (limiter b) w e in
              let t = reading w in
              let (read, later, earlier) = readings w in
              let (empty, told) = poll-refused t b (sound w past) (rw read at refused) in
              let (same, slept) =
                round_sleeps (limiter b) w (b.rate - rest t b) {s = s}
                  (hook (pos (b.rate - rest t b))) (rw read (rw told)) e in
              let (read', later', _) = readings s.1 in
              let b' = topped_up t b in
              let sound' =
                topped_up-IsSound t (reading s.1) b (sound w past) (sound s.1 (omega arith))
                  (omega arith) in
              let due : b'.last + b.rate ≤ reading s.1 =
                omega (
                  arith,
                  (rest-lt-rate t b (sound w past)).1,
                  (rest-lt-rate t b (sound w past)).0,
                ) in
              let grant : (poll (pos (reading s.1)) (limiter b')).1 ≡ none =
                empty-granted (reading s.1) b' sound' burst due in
              let (err, s', e') =
                round_stops s.0 s.1 (λ _. rw (read', same) (rw read (rw told grant))) in
              (err, s', rw (e, wait_loop) (rw (e', wait_loop)))
        ]

module _ {W : Type 0} (rt : Runtime W) (f : W → ℕ) (now : (w : W) → f (rt.now w).1 ≡ f w)
    (ctx : (w : W) → f (rt.ctx_err w).1 ≡ f w)
    (timer : (d : Duration) (w : W) → f (rt.timer d w).1 ≡ f w) where
  abbrev world_of : {S : Type 0} → Round S → S
  world_of (returned _ s) = s
  world_of (continued s) = s

  round_quiet : (s : RateLimiter × W) → f (world_of (round rt none s)).1 ≡ f s.1
  unfolding round call_hook
  round_quiet (r, w) =
      let w₁ = (rt.ctx_err w).1 in
      let (t, w₂) = rt.now w₁ in
      elim (Option-cases (poll t r).1) [
        | inl taken ↦ ground (arith, ctx w, now w₁)
        | inr (d, told) ↦ ground (arith, ctx w, now w₁, timer d w₂)
      ]

  wait_loop_quiet :
      (n : ℕ) (s : RateLimiter × W) (e : Option GoError) (s' : RateLimiter × W)
      → wait_loop rt none n s ≡ some (e, s')
      → f s'.1 ≡ f s.1
  unfolding wait_loop
  wait_loop_quiet zero s e s' h = cc
  wait_loop_quiet (suc n) s e s' h = elim (Round-cases (round rt none s)) [
    | inl (err, v, now) ↦ ground (arith, round_quiet s)
    | inr (v, now) ↦
        wait_loop_quiet n v e s' (rw (now, wait_loop) at h) ∙ (rw now at (round_quiet s))
  ]

  -- Waiting without a hook leaves alone what the clock, the context and the timers do.
  pub wait_quiet :
      (n : ℕ) (s : Option RateLimiter × W) (e : Option GoError) (s' : Option RateLimiter × W)
      → wait rt none n s ≡ some (e, s')
      → f s'.1 ≡ f s.1
  unfolding wait
  wait_quiet n (none, w) e s' h = ground (arith, ctx w)
  wait_quiet n (some r, w) e s' h = elim (Option-cases (wait_loop rt none n (r, w))) [
    | inl stuck ↦ ground (arith, ctx w)
    | inr ((err, v), done) ↦ ground (arith, ctx w, wait_loop_quiet n (r, w) err v done)
  ]

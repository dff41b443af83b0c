-- ===== src/Reliability/Limiter/Fresh.antt =====
-- reliability.go, `RateLimiter.Wait`: what the loop keeps of the bucket, so that the next call of
-- `Wait` ends as well.
use mathlib.Core.Path.{subst}
use native.Mathlib.Nat.{le_trans}
use orders_go.Common.{
  ℕ, zero, suc, ◌+◌, ◌-◌, ◌^◌, ◌≤◌, ◌<◌, ◌≡◌, ◌∙◌, sym, refl, ap, Option, none, some, arith,
  Option-cases, Bool-cases, inl, inr, ltb, ◌||◌,
}
use orders_go.Common.Int.{ℤ, pos, leb_ℤ}
use orders_go.Go.Int64.{Duration}
use orders_go.Go.Errors.{GoError}
use orders_go.Go.Effects.{Runtime, Round, returned, continued, Round-cases, sleep_with_context}
use orders_go.Reliability.Limiter.{RateLimiter, poll, round, call_hook, wait_loop, wait}
use orders_go.Reliability.Limiter.Bucket.{Bucket, limiter, topped_up, IsSound}
use orders_go.Reliability.Limiter.Rate.{rest-lt-rate, poll_lem}
use orders_go.Reliability.Limiter.Waiting.{IsClock, wait_loop_total}

-- What is documented besides: time does not go back in a timer that is cut short, or in the drawing
-- of a random number.
pub record IsForward {W : Type 0} (rt : Runtime W) (time : W → ℕ) : Type 0 where
  pub clock : IsClock rt time
  pub timer_forward : (d : Duration) (w : W) → time w ≤ time (rt.timer d w).1
  pub int63n_forward : (n : ℤ) (w : W) → time w ≤ time (rt.int63n n w).1

-- A limiter that stands for a bucket of a positive rate and burst, filled no later than at `now`;
-- `most` bounds the burst.
pub record IsFresh (most now : ℕ) (r : RateLimiter) : Type 0 where
  pub bucket : Bucket
  pub stands : r ≡ limiter bucket
  pub rate_pos : 0 < bucket.rate
  pub rate_small : bucket.rate < 2 ^ 63
  pub burst_pos : 0 < bucket.burst
  pub burst_most : bucket.burst ≤ most
  pub capped : bucket.tokens ≤ bucket.burst
  pub past : bucket.last ≤ now

pub IsFresh-later :
    (most now later : ℕ) (r : RateLimiter) → now ≤ later → IsFresh most now r → IsFresh most later r
IsFresh-later most now later r le h = record {
  bucket = h.bucket;
  stands = h.stands;
  rate_pos = h.rate_pos;
  rate_small = h.rate_small;
  burst_pos = h.burst_pos;
  burst_most = h.burst_most;
  capped = h.capped;
  past = le_trans h.past le;
}

poll-IsFresh :
    (most now : ℕ) (r : RateLimiter)
    → most + now < 2 ^ 63
    → IsFresh most now r
    → IsFresh most now (poll (pos now) r).0
poll-IsFresh most now r horizon h =
    let b = h.bucket in
    let sound : IsSound now b = record {
      rate_pos = h.rate_pos;
      capped = h.capped;
      forward = h.past;
      rate_small = h.rate_small;
      small = omega (arith, h.burst_most);
    } in
    let b' = topped_up now b in
    let last_ok = (rest-lt-rate now b sound).1 in
    elim (Bool-cases (ltb 0 b'.tokens)) [
      | inl won ↦ record {
        bucket = record b' { tokens = b'.tokens - 1 };
        stands = rw h.stands (rw (poll_lem now b sound) (rw won refl));
        rate_pos = h.rate_pos;
        rate_small = h.rate_small;
        burst_pos = h.burst_pos;
        burst_most = h.burst_most;
        capped = ground arith;
        past = last_ok;
      }
      | inr lost ↦ record {
        bucket = b';
        stands = rw h.stands (rw (poll_lem now b sound) (rw lost refl));
        rate_pos = h.rate_pos;
        rate_small = h.rate_small;
        burst_pos = h.burst_pos;
        burst_most = h.burst_most;
        capped = ground arith;
        past = last_ok;
      }
    ]

module _ {W : Type 0} (rt : Runtime W) (time : W → ℕ) (forward : IsForward rt time) (most : ℕ)
    (horizon : (w : W) → most + time w < 2 ^ 63) where
  abbrev limiter_of : Round (RateLimiter × W) → RateLimiter × W
  limiter_of (returned _ s) = s
  limiter_of (continued s) = s

  -- The limiter is fresh at the world's time, which is not before `since`.
  abbrev IsReadyAt : ℕ → RateLimiter × W → Type 0
  IsReadyAt since s = IsFresh most (time s.1) s.0 × (since ≤ time s.1)

  round-IsReadyAt :
      (since : ℕ) (r : RateLimiter) (w : W)
      → IsReadyAt since (r, w)
      → IsReadyAt since (limiter_of (round rt none (r, w)))
  unfolding round call_hook sleep_with_context
  round-IsReadyAt since r w (h, le) =
      let (stop, w₁) = rt.ctx_err w in
      let le₁ = forward.clock.ctx_err_forward w in
      let (now, w₂) = rt.now w₁ in
      let (t, read, after, before) = forward.clock.now_reads w₁ in
      let ends : (x : Round (RateLimiter × W))
          → x ≡ round rt none (r, w)
          → IsReadyAt since (limiter_of x)
          → IsReadyAt since (limiter_of (round rt none (r, w))) =
        λ x. subst (λ y. IsReadyAt since (limiter_of y)) in
      let (r', told) = poll now r in
      let polled : IsFresh most t r' =
        subst (λ n. IsFresh most t (poll n r).0) (sym read)
          (poll-IsFresh most t r (omega (arith, horizon w₂, before))
            (IsFresh-later most (time w) t r (omega (arith, le₁, after)) h)) in
      let fresh : IsFresh most (time w₂) r' = IsFresh-later most t (time w₂) r' before polled in
      let le₂ : since ≤ time w₂ = omega (arith, le, le₁, after, before) in
      elim (Option-cases stop) [
        | inr (e, over) ↦
            ends (returned (some e) (r, w₁)) (ground (arith, over))
              (IsFresh-later most (time w) (time w₁) r le₁ h, omega (arith, le, le₁))
        | inl alive ↦ elim (Option-cases told) [
          | inl taken ↦ ends (returned none (r', w₂)) (ground (arith, alive, taken)) (fresh, le₂)
          | inr (d, wait_for) ↦
              let (slept, w₃) = rt.timer d w₂ in
              let le₃ = forward.timer_forward d w₂ in
              let later = IsFresh-later most (time w₂) (time w₃) r' le₃ fresh in
              elim (Bool-cases (leb_ℤ d (pos 0))) [
                | inl at_once ↦
                    ends (continued (r', w₂)) (ground (arith, alive, wait_for, at_once))
                      (fresh, le₂)
                | inr sleeps ↦ elim (Option-cases slept) [
                  | inl over ↦
                      ends (continued (r', w₃)) (ground (arith, alive, wait_for, sleeps, over))
                        (later, omega (arith, le₂, le₃))
                  | inr (e, woken) ↦
                      ends (returned (some e) (r', w₃))
                        (ground (arith, alive, wait_for, sleeps, woken))
                        (later, omega (arith, le₂, le₃))
                ]
              ]
        ]
      ]

  wait_loop-IsReadyAt :
      (since fuel : ℕ) (s : RateLimiter × W) (e : Option GoError) (s' : RateLimiter × W)
      → IsReadyAt since s
      → wait_loop rt none fuel s ≡ some (e, s')
      → IsReadyAt since s'
  unfolding wait_loop
  wait_loop-IsReadyAt since zero s e s' h done = cc
  wait_loop-IsReadyAt since (suc n) s e s' h done =
      let kept = round-IsReadyAt since s.0 s.1 h in
      elim (Round-cases (round rt none s)) [
        | inl (err, v, now) ↦
            subst (IsReadyAt since) (ground (arith, now))
              (subst (λ x. IsReadyAt since (limiter_of x)) now kept)
        | inr (v, now) ↦
            wait_loop-IsReadyAt since n v e s'
              (subst (λ x. IsReadyAt since (limiter_of x)) now kept) (rw (now, wait_loop) at done)
      ]

  -- A nil limiter, or one that is fresh.
  abbrev pub IsReadyIn : ℕ → Option RateLimiter → W → Type 0
  IsReadyIn since none w = since ≤ time w
  IsReadyIn since (some r) w = IsReadyAt since (r, w)

  -- With fuel for two rounds `Wait` comes back, and leaves a limiter from which it does again.
  pub wait_total :
      (since n : ℕ) (lim : Option RateLimiter) (w : W)
      → IsReadyIn since lim w
      → (e : Option GoError) × (lim' : Option RateLimiter) × (w' : W) × (wait rt none
            (suc (suc n))
            (lim, w)
          ≡ some (e, (lim', w')))
        × IsReadyIn since lim' w'
  unfolding wait call_hook
  wait_total since n none w h =
      ((rt.ctx_err w).0, none, (rt.ctx_err w).1, refl, le_trans h (forward.clock.ctx_err_forward w))
  wait_total since n (some r) w (h, le) =
      let le₁ = forward.clock.ctx_err_forward w in
      elim (Bool-cases (leb_ℤ r.rate (pos 0) || leb_ℤ r.burst (pos 0))) [
        | inl idle ↦ (
          (rt.ctx_err w).0,
          some r,
          (rt.ctx_err w).1,
          rw (wait, idle) refl,
          (IsFresh-later most (time w) (time (rt.ctx_err w).1) r le₁ h, le_trans le le₁),
        )
        | inr active ↦
            let b = h.bucket in
            let (e, s, ran) =
              wait_loop_total rt none forward.clock n b w (λ d u. omega arith)
                (λ u. omega (arith, horizon u, h.burst_most)) h.rate_pos h.rate_small h.burst_pos
                h.capped h.past in
            let ran' : wait_loop rt none (suc (suc n)) (r, w) ≡ some (e, s) =
              ap (λ x. wait_loop rt none (suc (suc n)) (x, w)) h.stands ∙ ran in
            (
              e,
              some s.0,
              s.1,
              rw (wait, active) (rw ran' refl),
              wait_loop-IsReadyAt since (suc (suc n)) (r, w) e s (h, le) ran',
            )
      ]

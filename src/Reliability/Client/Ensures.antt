-- ===== src/Reliability/Client/Ensures.antt =====
-- reliability.go, `do` of the reliable clients: a rule to carry a property of the world through a
-- call, whatever the limiter, the breaker and the retry loop do.
use mathlib.Core.Path.{subst}
use orders_go.Common.{
  ℕ, zero, suc, ◌≡◌, Option, none, some, arith, Option-cases, Bool-cases, inl, inr, ◌||◌,
}
use orders_go.Common.Int.{ℤ, pos, leb_ℤ}
use orders_go.Go.Int64.{Duration, add64, div64}
use orders_go.Go.Errors.{GoError}
use orders_go.Go.Effects.{
  Action, Runtime, Round, returned, continued, Round-cases, sleep_with_context,
}
use orders_go.Reliability.Breaker.{execute, admit}
use orders_go.Reliability.Limiter.{RateLimiter, poll, round, call_hook, wait_loop, wait}
use orders_go.Reliability.Retry.{default_jitter, jitter_of, sleep_of}
use orders_go.Reliability.Retry.Ensures.{IsKept, retry-Ensures}
use orders_go.Reliability.Client.{
  Guarded, ClientConfig, guarded_runtime, limited, broken, attempt, do_guarded,
}

-- The clock, the context, the timers and the random numbers keep a property.
pub record IsKeptBy {W : Type 0} (rt : Runtime W) (Holds : W → Type 0) : Type 0 where
  pub now_kept : (w : W) → Holds w → Holds (rt.now w).1
  pub ctx_err_kept : (w : W) → Holds w → Holds (rt.ctx_err w).1
  pub timer_kept : (d : Duration) (w : W) → Holds w → Holds (rt.timer d w).1
  pub int63n_kept : (n : ℤ) (w : W) → Holds w → Holds (rt.int63n n w).1

module _ {W : Type 0} (rt : Runtime W) (Holds : W → Type 0) (kept : IsKeptBy rt Holds) where
  pub sleep_kept : (d : Duration) (w : W) → Holds w → Holds (sleep_with_context rt d w).1
  unfolding sleep_with_context
  sleep_kept d w h = elim (Bool-cases (leb_ℤ d (pos 0))) [
    | inl none_left ↦ rw none_left h
    | inr some_left ↦ rw some_left (kept.timer_kept d w h)
  ]

  pub default_jitter_kept : (d : Duration) (w : W) → Holds w → Holds (default_jitter rt d w).1
  unfolding default_jitter
  default_jitter_kept d w h = elim (Bool-cases (leb_ℤ d (pos 0))) [
    | inl none_left ↦ rw none_left h
    | inr some_left ↦ rw some_left (kept.int63n_kept (add64 (div64 d (pos 2)) (pos 1)) w h)
  ]

  abbrev world_of : Round (RateLimiter × W) → W
  world_of (returned _ s) = s.1
  world_of (continued s) = s.1

  round_kept : (r : RateLimiter) (w : W) → Holds w → Holds (world_of (round rt none (r, w)))
  unfolding round call_hook
  round_kept r w h =
      let (stop, w₁) = rt.ctx_err w in
      let h₁ = kept.ctx_err_kept w h in
      let (t, w₂) = rt.now w₁ in
      let h₂ = kept.now_kept w₁ h₁ in
      let ends : (x : Round (RateLimiter × W))
          → x ≡ round rt none (r, w)
          → Holds (world_of x)
          → Holds (world_of (round rt none (r, w))) =
        λ x. subst (λ y. Holds (world_of y)) in
      let (r', told) = poll t r in
      elim (Option-cases stop) [
        | inr (e, done) ↦ ends (returned (some e) (r, w₁)) (ground (arith, done)) h₁
        | inl alive ↦ elim (Option-cases told) [
          | inl taken ↦ ends (returned none (r', w₂)) (ground (arith, alive, taken)) h₂
          | inr (d, wait) ↦
              let (slept, w₃) = sleep_with_context rt d w₂ in
              let h₃ = sleep_kept d w₂ h₂ in
              elim (Bool-cases (leb_ℤ d (pos 0))) [
                | inl none_left ↦
                    ends (continued (r', w₂)) (ground (arith, alive, wait, none_left)) h₂
                | inr some_left ↦ elim (Option-cases slept) [
                  | inl over ↦
                      ends (continued (r', w₃)) (ground (arith, alive, wait, some_left, over)) h₃
                  | inr (e, woken) ↦
                      ends (returned (some e) (r', w₃))
                        (ground (arith, alive, wait, some_left, woken)) h₃
                ]
              ]
        ]
      ]

  wait_loop_kept :
      (n : ℕ) (r : RateLimiter) (w : W) (e : Option GoError) (s : RateLimiter × W)
      → Holds w
      → wait_loop rt none n (r, w) ≡ some (e, s)
      → Holds s.1
  unfolding wait_loop
  wait_loop_kept zero r w e s h done = absurd (ground arith)
  wait_loop_kept (suc n) r w e s h done =
      let h' = round_kept r w h in
      elim (Round-cases (round rt none (r, w))) [
        | inl (err, v, now) ↦
            let same : v ≡ s = ground (arith, now) in
            subst (λ (x : RateLimiter × W). Holds x.1) same (rw now at h')
        | inr (v, now) ↦ wait_loop_kept n v.0 v.1 e s (rw now at h') (rw (now, wait_loop) at done)
      ]

  pub wait_kept :
      (n : ℕ) (r : Option RateLimiter) (w : W) (e : Option GoError) (s : Option RateLimiter × W)
      → Holds w
      → wait rt none n (r, w) ≡ some (e, s)
      → Holds s.1
  unfolding wait
  wait_kept n none w e s h done =
      let same : (rt.ctx_err w).1 ≡ s.1 = ground arith in subst Holds same (kept.ctx_err_kept w h)
  wait_kept n (some r) w e s h done =
      elim (Bool-cases (leb_ℤ r.rate (pos 0) || leb_ℤ r.burst (pos 0))) [
        | inl unlimited ↦
            let same : (rt.ctx_err w).1 ≡ s.1 = ground (arith, unlimited) in
            subst Holds same (kept.ctx_err_kept w h)
        | inr waits ↦ elim (Option-cases (wait_loop rt none n (r, w))) [
          | inl stuck ↦ absurd (ground (arith, waits, stuck))
          | inr ((err, v), over) ↦
              let same : v.1 ≡ s.1 = ground (arith, waits, over) in
              subst Holds same (wait_loop_kept n r w err v h over)
        ]
      ]

module _ {W : Type 0} (c : ClientConfig W) (Holds : W → Type 0) (kept : IsKeptBy c.runtime Holds)
    (clock_kept : (w : W) → Holds w → Holds (c.breaker_now w).1)
    (own_jitter : c.policy.jitter ≡ none) (own_sleep : c.policy.sleep ≡ none) (fuel : ℕ)
    (Good : Option GoError → Type 0) (bad : (e : GoError) → Good (some e)) where
  -- The property, of a client's world.
  abbrev HoldsIn : Guarded W → Type 0
  HoldsIn s = Holds s.world

  guarded_kept : IsKeptBy (guarded_runtime c.runtime) HoldsIn
  guarded_kept = record {
    now_kept = λ s. kept.now_kept s.world;
    ctx_err_kept = λ s. kept.ctx_err_kept s.world;
    timer_kept = λ d s. kept.timer_kept d s.world;
    int63n_kept = λ n s. kept.int63n_kept n s.world;
  }

  policy-IsKept : IsKept (guarded_runtime c.runtime) c.policy HoldsIn
  unfolding jitter_of sleep_of
  policy-IsKept = record {
    ctx_err_kept = guarded_kept.ctx_err_kept;
    jitter_kept =
        rw own_jitter (default_jitter_kept (guarded_runtime c.runtime) HoldsIn guarded_kept);
    sleep_kept = rw own_sleep (sleep_kept (guarded_runtime c.runtime) HoldsIn guarded_kept);
  }

  limited_kept :
      (s : Guarded W) (e : Option GoError) (s' : Guarded W)
      → Holds s.world
      → limited c fuel s ≡ some (e, s')
      → Holds s'.world
  unfolding limited
  limited_kept s e s' h done = elim (Option-cases s.limiter) [
    | inl absent ↦ let same : s.world ≡ s'.world = ground (arith, absent) in subst Holds same h
    | inr (r, there) ↦ elim (Option-cases (wait c.runtime none fuel (some r, s.world))) [
      | inl stuck ↦ absurd (ground (arith, there, stuck))
      | inr ((err, v), over) ↦
          let same : v.1 ≡ s'.world = ground (arith, there, over) in
          subst Holds same (wait_kept c.runtime Holds kept fuel (some r) s.world err v h over)
    ]
  ]

  module _ (fn : Action W) (ensures : (w : W) → Holds w → Holds (fn w).1 × Good (fn w).0) where
    broken-Ensures :
        (s : Guarded W)
        → Holds s.world
        → Holds (broken c fuel fn s).1.world × Good (broken c fuel fn s).0
    unfolding broken execute
    broken-Ensures s h = elim (Option-cases s.breaker) [
      | inl absent ↦ rw absent (ensures s.world h)
      | inr (b, there) ↦
          let (t, w₁) = c.breaker_now s.world in
          let h₁ = clock_kept s.world h in
          elim (Option-cases (admit t b).1) [
            | inl entered ↦
                let same : (fn w₁).1 ≡ (broken c fuel fn s).1.world =
                  ground (arith, there, entered) in
                let same_err : (fn w₁).0 ≡ (broken c fuel fn s).0 =
                  ground (arith, there, entered) in
                let (h₂, good) = ensures w₁ h₁ in (subst Holds same h₂, subst Good same_err good)
            | inr (e, refused) ↦
                let same : w₁ ≡ (broken c fuel fn s).1.world = ground (arith, there, refused) in
                let same_err : some e ≡ (broken c fuel fn s).0 = ground (arith, there, refused) in
                (subst Holds same h₁, subst Good same_err (bad e))
          ]
    ]

    attempt-Ensures :
        (s : Guarded W) (e : Option GoError) (s' : Guarded W)
        → Holds s.world
        → attempt c fuel fn s ≡ some (e, s')
        → Holds s'.world × Good e
    unfolding attempt
    attempt-Ensures s e s' h done = elim (Option-cases (limited c fuel s)) [
      | inl stuck ↦ absurd (ground (arith, stuck))
      | inr ((some err, s₁), over) ↦
          let same : s₁.world ≡ s'.world = ground (arith, over) in
          let same_err : some err ≡ e = ground (arith, over) in
          (subst Holds same (limited_kept s (some err) s₁ h over), subst Good same_err (bad err))
      | inr ((none, s₁), over) ↦
          let (err, s₂) = broken c fuel fn s₁ in
          let same : s₂.world ≡ s'.world = ground (arith, over) in
          let same_err : err ≡ e = ground (arith, over) in
          let (h₂, good) = broken-Ensures s₁ (limited_kept s none s₁ h over) in
          (subst Holds same h₂, subst Good same_err good)
    ]

    -- What the base client's call keeps and ensures of its outcome, a reliable client's does.
    pub do_guarded-Ensures :
        (s s' : Guarded W) (e : Option GoError)
        → Holds s.world
        → do_guarded c fuel fn s ≡ some (e, s')
        → Holds s'.world × Good e
    unfolding do_guarded
    do_guarded-Ensures s s' e h done =
        retry-Ensures (guarded_runtime c.runtime) c.policy HoldsIn policy-IsKept Good bad
          (attempt c fuel fn) attempt-Ensures s s' e h done

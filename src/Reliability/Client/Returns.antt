-- ===== src/Reliability/Client/Returns.antt =====
-- reliability.go, `do` of the reliable clients: a call comes back, whatever the base client, the
-- breaker and the retry loop do, and leaves a limiter from which the next call does.
use mathlib.Core.Path.{subst}
use native.Mathlib.Nat.{le_trans}
use orders_go.Common.{
  ℕ, suc, ◌+◌, ◌^◌, ◌≤◌, ◌<◌, ◌≡◌, sym, Option, none, some, arith, Option-cases, inl, inr,
}
use orders_go.Go.Effects.{Action}
use orders_go.Reliability.Breaker.{execute}
use orders_go.Reliability.Limiter.{RateLimiter}
use orders_go.Reliability.Limiter.Fresh.{IsForward, IsFresh-later, IsReadyIn, wait_total}
use orders_go.Reliability.Retry.{jitter_of, sleep_of}
use orders_go.Reliability.Retry.Ensures.{IsKept}
use orders_go.Reliability.Retry.Returns.{Returns, retry-Returns}
use orders_go.Reliability.Client.Ensures.{IsKeptBy, sleep_kept, default_jitter_kept}
use orders_go.Reliability.Client.{
  Guarded, ClientConfig, guarded_runtime, limited, broken, attempt, do_guarded,
}

module _ {W : Type 0} (c : ClientConfig W) (time : W → ℕ) (forward : IsForward c.runtime time)
    (most : ℕ) (horizon : (w : W) → most + time w < 2 ^ 63)
    (clock_forward : (w : W) → time w ≤ time (c.breaker_now w).1)
    (own_jitter : c.policy.jitter ≡ none) (own_sleep : c.policy.sleep ≡ none) (n since : ℕ) where
  -- The client's limiter is nil or fresh, at a time not before `since`.
  abbrev pub IsReady : Guarded W → Type 0
  IsReady g = IsReadyIn c.runtime time forward most horizon since g.limiter g.world

  IsReadyIn-later :
      (lim : Option RateLimiter) (w w' : W)
      → time w ≤ time w'
      → IsReadyIn c.runtime time forward most horizon since lim w
      → IsReadyIn c.runtime time forward most horizon since lim w'
  IsReadyIn-later none w w' le h = le_trans h le
  IsReadyIn-later (some r) w w' le (h, le') =
      (IsFresh-later most (time w) (time w') r le h, le_trans le' le)

  runtime_kept : IsKeptBy (guarded_runtime c.runtime) IsReady
  runtime_kept = record {
    now_kept = λ g h.
        let (t, _, after, before) = forward.clock.now_reads g.world in
        IsReadyIn-later g.limiter g.world _ (le_trans after before) h;
    ctx_err_kept = λ g. IsReadyIn-later g.limiter g.world _ (forward.clock.ctx_err_forward g.world);
    timer_kept = λ d g. IsReadyIn-later g.limiter g.world _ (forward.timer_forward d g.world);
    int63n_kept = λ k g. IsReadyIn-later g.limiter g.world _ (forward.int63n_forward k g.world);
  }

  policy-IsKept : IsKept (guarded_runtime c.runtime) c.policy IsReady
  unfolding jitter_of sleep_of
  policy-IsKept = record {
    ctx_err_kept = runtime_kept.ctx_err_kept;
    jitter_kept =
        rw own_jitter (default_jitter_kept (guarded_runtime c.runtime) IsReady runtime_kept);
    sleep_kept = rw own_sleep (sleep_kept (guarded_runtime c.runtime) IsReady runtime_kept);
  }

  limited-Returns : Returns IsReady (limited c (suc (suc n)))
  unfolding limited
  limited-Returns g h = elim (Option-cases g.limiter) [
    | inl absent ↦ (none, g, ground (arith, absent), h)
    | inr (r, there) ↦
        let ready : IsReadyIn c.runtime time forward most horizon since (some r) g.world =
          subst (λ l. IsReadyIn c.runtime time forward most horizon since l g.world) there h in
        let (e, lim, w, ran, h') =
          wait_total c.runtime time forward most horizon since n (some r) g.world ready in
        (e, record g { limiter = lim; world = w }, ground (arith, there, ran), h')
  ]

  module _ (fn : Action W) (fn_forward : (w : W) → time w ≤ time (fn w).1) where
    broken_forward :
        (g : Guarded W)
        → ((broken c (suc (suc n)) fn g).1.limiter ≡ g.limiter)
          × (time g.world ≤ time (broken c (suc (suc n)) fn g).1.world)
    unfolding broken execute
    broken_forward g =
        let w₁ = (c.breaker_now g.world).1 in
        let le₁ = clock_forward g.world in
        let alone = fn_forward g.world in
        let behind = fn_forward w₁ in (ground arith, ground (arith, le₁, alone, behind))

    broken-IsReady : (g : Guarded W) → IsReady g → IsReady (broken c (suc (suc n)) fn g).1
    broken-IsReady g h =
        let (same, le) = broken_forward g in
        let g' = (broken c (suc (suc n)) fn g).1 in
        subst (λ l. IsReadyIn c.runtime time forward most horizon since l g'.world) (sym same)
          (IsReadyIn-later g.limiter g.world g'.world le h)

    attempt-Returns : Returns IsReady (attempt c (suc (suc n)) fn)
    unfolding attempt
    attempt-Returns g h =
        let (e, g', ran, h') = limited-Returns g h in
        elim (Option-cases e) [
          | inr (err, refused) ↦ (some err, g', ground (arith, ran, refused), h')
          | inl passed ↦
              let (e₂, g₂) = broken c (suc (suc n)) fn g' in
              (e₂, g₂, ground (arith, ran, passed), broken-IsReady g' h')
        ]

    pub do_guarded-Returns : Returns IsReady (do_guarded c (suc (suc n)) fn)
    unfolding do_guarded
    do_guarded-Returns =
        retry-Returns (guarded_runtime c.runtime) c.policy IsReady policy-IsKept
          (attempt c (suc (suc n)) fn) attempt-Returns

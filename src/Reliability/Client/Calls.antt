-- ===== src/Reliability/Client/Calls.antt =====
-- reliability.go, `do` of the reliable clients: what reaches the base client, and what comes back.
use orders_go.Common.{
  ℕ, ◌+◌, ◌≤◌, ◌≡◌, true, false, Option, none, some, arith, Option-cases, inl, inr,
}
use orders_go.Common.Int.{ltb_ℤ}
use orders_go.Go.Int64.{Duration, time_sub}
use orders_go.Go.Errors.{GoError, sentinel, Sentinel, error_is}
use orders_go.Go.Effects.{Action}
use orders_go.Reliability.Breaker.{CircuitBreaker, circuit_open, execute, admit}
use orders_go.Reliability.Breaker.Cycle.{execute_opened}
use orders_go.Reliability.Limiter.{wait}
use orders_go.Reliability.Limiter.Waiting.{wait_quiet}
use orders_go.Reliability.Retry.{attempts_of, should_retry_of, default_should_retry}
use orders_go.Reliability.Retry.Attempts.{IsQuiet, retry_calls, retry-nil}
use orders_go.Reliability.Retry.Single.{retry-not_retried}
use orders_go.Reliability.Client.{
  Guarded, ClientConfig, guarded_runtime, limited, broken, attempt, do_guarded,
}

module _ {W : Type 0} (c : ClientConfig W) (fuel : ℕ) (fn : Action W) where
  execute-nil :
      (b : CircuitBreaker) (w : W) {b' : Option CircuitBreaker} {w' : W}
      → execute c.breaker_now fn (some b, w) ≡ (none, (b', w'))
      → (v : W) × (fn v ≡ (none, w'))
  unfolding execute
  execute-nil b w h = elim (Option-cases (admit (c.breaker_now w).0 b).1) [
    | inl entered ↦ ((c.breaker_now w).1, ground arith)
    | inr (e, refused) ↦ absurd (ground arith)
  ]

  broken-nil :
      (s s' : Guarded W) → broken c fuel fn s ≡ (none, s') → (v : W) × (fn v ≡ (none, s'.world))
  unfolding broken
  broken-nil s s' h = elim (Option-cases s.breaker) [
    | inl absent ↦ (s.world, ground arith)
    | inr (b, there) ↦
        let x = execute c.breaker_now fn (some b, s.world) in
        execute-nil b s.world {b' = x.1.0} {w' = s'.world} (ground arith)
  ]

  attempt-nil :
      (s : Guarded W) (s' : Guarded W)
      → attempt c fuel fn s ≡ some (none, s')
      → (v : W) × (fn v ≡ (none, s'.world))
  unfolding attempt
  attempt-nil s s' h = elim (Option-cases (limited c fuel s)) [
    | inl stuck ↦ absurd (ground arith)
    | inr ((some e, s₁), refused) ↦ absurd (ground arith)
    | inr ((none, s₁), passed) ↦ broken-nil s₁ s' (ground arith)
  ]

  -- A call of a reliable client succeeds only right behind a call of the base client that did.
  pub do_guarded-nil :
      (s s' : Guarded W)
      → do_guarded c fuel fn s ≡ some (none, s')
      → (v : W) × (fn v ≡ (none, s'.world))
  unfolding do_guarded
  do_guarded-nil s s' h =
      let (s₁, ok) = retry-nil (guarded_runtime c.runtime) c.policy (attempt c fuel fn) s s' h in
      attempt-nil s₁ s' ok

  broken-open :
      (s : Guarded W) (b : CircuitBreaker)
      → s.breaker ≡ some b
      → b.state ≡ circuit_open
      → ltb_ℤ (time_sub (c.breaker_now s.world).0 b.opened_at) b.reset_after ≡ true
      → broken c fuel fn s
        ≡ (some (sentinel Sentinel.circuit_open), record s { world = (c.breaker_now s.world).1 })
  unfolding broken
  broken-open s b there opened early =
      ground (arith, there, (execute_opened c.breaker_now fn b s.world opened).0 early)

  circuit_open-not_retried :
      c.policy.should_retry ≡ none
      → should_retry_of (guarded_runtime c.runtime) c.policy (sentinel Sentinel.circuit_open)
        ≡ false
  unfolding should_retry_of default_should_retry error_is
  circuit_open-not_retried policy = rw policy

  -- With the default choice of errors to retry, a live context, and a limiter that lets the attempt
  -- pass: while its breaker is open a client returns `ErrCircuitOpen` after one attempt. The world it
  -- leaves is that in which the breaker read its clock: the base client was not called.
  do_guarded-open :
      (s s₁ : Guarded W) (b : CircuitBreaker)
      → c.policy.should_retry ≡ none
      → (c.runtime.ctx_err s.world).0 ≡ none
      → limited c fuel (record s { world = (c.runtime.ctx_err s.world).1 }) ≡ some (none, s₁)
      → s₁.breaker ≡ some b
      → b.state ≡ circuit_open
      → ltb_ℤ (time_sub (c.breaker_now s₁.world).0 b.opened_at) b.reset_after ≡ true
      → do_guarded c fuel fn s
        ≡ some (
          some (sentinel Sentinel.circuit_open),
          record s₁ { world = (c.breaker_now s₁.world).1 },
        )
  unfolding do_guarded attempt
  do_guarded-open s s₁ b policy alive passed there opened early =
      retry-not_retried (guarded_runtime c.runtime) c.policy (attempt c fuel fn) s
        (record s₁ { world = (c.breaker_now s₁.world).1 }) (sentinel Sentinel.circuit_open) alive
        (ground (arith, passed, broken-open s₁ b there opened early))
        (circuit_open-not_retried policy)

  module _ (f : W → ℕ) where
    -- A count that the clock, the context and the timers leave as it is.
    pub record IsQuietWorld : Type 0 where
      pub now_quiet : (w : W) → f (c.runtime.now w).1 ≡ f w
      pub ctx_err_quiet : (w : W) → f (c.runtime.ctx_err w).1 ≡ f w
      pub timer_quiet : (d : Duration) (w : W) → f (c.runtime.timer d w).1 ≡ f w
      pub breaker_now_quiet : (w : W) → f (c.breaker_now w).1 ≡ f w

    module _ (quiet : IsQuietWorld) where
      limited_quiet :
          (s : Guarded W) (e : Option GoError) (s' : Guarded W)
          → limited c fuel s ≡ some (e, s')
          → f s'.world ≡ f s.world
      unfolding limited
      limited_quiet s e s' h = elim (Option-cases s.limiter) [
        | inl absent ↦ ground arith
        | inr (r, there) ↦ elim (Option-cases (wait c.runtime none fuel (some r, s.world))) [
          | inl stuck ↦ ground arith
          | inr ((err, v), done) ↦
              let same =
                wait_quiet c.runtime f quiet.now_quiet quiet.ctx_err_quiet quiet.timer_quiet fuel
                  (some r, s.world) err v done in
              ground (arith, there, done, same)
        ]
      ]

      broken_calls :
          ((w : W) → f (fn w).1 ≤ f w + 1)
          → (s : Guarded W) → f (broken c fuel fn s).1.world ≤ f s.world + 1
      unfolding broken execute
      broken_calls counts s = elim (Option-cases s.breaker) [
        | inl absent ↦ ground (arith, counts s.world)
        | inr (b, there) ↦
            let w₁ = (c.breaker_now s.world).1 in
            ground (arith, there, quiet.breaker_now_quiet s.world, counts w₁)
      ]

      attempt_calls :
          ((w : W) → f (fn w).1 ≤ f w + 1)
          → (s : Guarded W) (e : Option GoError) (s' : Guarded W)
          → attempt c fuel fn s ≡ some (e, s')
          → f s'.world ≤ f s.world + 1
      unfolding attempt
      attempt_calls counts s e s' h = elim (Option-cases (limited c fuel s)) [
        | inl stuck ↦ ground arith
        | inr ((err, s₁), passed) ↦
            ground (arith, passed, limited_quiet s err s₁ passed, broken_calls counts s₁)
      ]

      -- For a count that the clocks, contexts, timers, sleeps and jitter leave alone, and that a call
      -- of the base client raises by at most one, a call of a reliable client raises it by at most
      -- the attempts of its policy.
      pub do_guarded_calls :
          IsQuiet (guarded_runtime c.runtime) c.policy (attempt c fuel fn) (λ s. f s.world)
          → ((w : W) → f (fn w).1 ≤ f w + 1)
          → (s : Guarded W) (e : Option GoError) (s' : Guarded W)
          → do_guarded c fuel fn s ≡ some (e, s')
          → f s'.world ≤ f s.world + attempts_of c.policy
      unfolding do_guarded
      do_guarded_calls q counts s e s' h =
          retry_calls (guarded_runtime c.runtime) c.policy (attempt c fuel fn) (λ s. f s.world) q
            (attempt_calls counts) s e s' h

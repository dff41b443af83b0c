-- ===== src/Orders/Builder/Handles.antt =====
-- builder.go: whether the database is closed on every way out of `BuildOrderService`.
use orders_go.Common.{
  ℕ, suc, ◌-◌, ◌≡◌, ◌∙◌, refl, String, none, some, arith, str_eq, Option-cases, Bool-cases, inl,
  inr, List, [], ◌∷◌,
}
use orders_go.Go.Errors.{GoError}
use orders_go.Go.Effects.{M, Action, Runtime}
use orders_go.Reliability.Limiter.{new_rate_limiter}
use orders_go.Orders.Builder.{
  Setup, Build, refused, built, or_close, new_guards, configured, build_order_service,
}
use orders_go.Orders.Settings.{ReliabilityConfig}
use orders_go.Db.Schema.{Table, create_all, init_payments, init_sagas, init_drivers}

-- `held` counts the open handles: a successful open adds one, a close takes one away, and nothing
-- else touches them.
pub record CountsHandles {W : Type 0} (rt : Runtime W) (setup : Setup W) (held : W → ℕ)
    : Type 0 where
  pub opened : (w : W) → (setup.open_db w).0 ≡ none → held (setup.open_db w).1 ≡ suc (held w)
  pub not_opened :
      (w : W) (e : GoError) → (setup.open_db w).0 ≡ some e → held (setup.open_db w).1 ≡ held w
  pub closed : (w : W) → held (setup.close_db w) ≡ held w - 1
  pub created : (t : Table) (w : W) → held (setup.create t w).1 ≡ held w
  pub read : (w : W) → held (setup.settings w).1 ≡ held w
  pub timed : (w : W) → held (rt.now w).1 ≡ held w

-- A build that is refused holds `n` handles, and one that is returned a handle more.
abbrev pub Holds : {W : Type 0} → (W → ℕ) → ℕ → Build × W → Type 0
Holds held n (refused e, w) = held w ≡ n
Holds held n (built g c, w) = held w ≡ suc n

module _ {W : Type 0} (rt : Runtime W) (setup : Setup W) (held : W → ℕ)
    (counts : CountsHandles rt setup held) where
  or_close-Holds :
      (text : String) (step : Action W) (rest : M W Build) (n : ℕ) (w : W)
      → ((v : W) → held (step v).1 ≡ held v)
      → ((v : W) → held v ≡ suc n → Holds held n (rest v))
      → held w ≡ suc n
      → Holds held n (or_close rt setup text step rest w)
  or_close-Holds text step rest n w kept after one = elim (Option-cases (step w).0) [
    | inl ok ↦ rw (Holds, or_close, ok) (after (step w).1 (kept w ∙ one))
    | inr (e, bad) ↦
        rw (Holds, or_close, bad) (omega (arith, counts.closed (step w).1, kept w, one))
  ]

  create_all-kept : (ts : List Table) (w : W) → held (create_all setup.create ts w).1 ≡ held w
  unfolding create_all
  create_all-kept [] w = refl
  create_all-kept (t ∷ ts) w = elim (Option-cases (setup.create t w).0) [
    | inl ok ↦ rw (create_all, ok) (create_all-kept ts (setup.create t w).1 ∙ counts.created t w)
    | inr (e, bad) ↦ rw (create_all, bad) (counts.created t w)
  ]

  new_guards-kept : (cfg : ReliabilityConfig) (w : W) → held (new_guards rt setup cfg w).1 ≡ held w
  unfolding new_guards new_rate_limiter
  new_guards-kept cfg w = counts.timed (rt.now w).1 ∙ counts.timed w

  configured-Holds : (n : ℕ) (w : W) → held w ≡ suc n → Holds held n (configured rt setup w)
  unfolding configured
  configured-Holds n w one = elim (Option-cases (setup.settings w).0.1) [
    | inl ok ↦
        rw (Holds, configured, ok)
          (new_guards-kept (setup.settings w).0.0 (setup.settings w).1 ∙ counts.read w ∙ one)
    | inr (e, bad) ↦
        rw (Holds, configured, bad)
          (omega (arith, counts.closed (setup.settings w).1, counts.read w, one))
  ]

  -- Where opening the database adds a handle, closing it takes one away and nothing else touches the
  -- handles, `BuildOrderService` leaves as many as there were whenever it returns an error, and
  -- one more when it returns a service.
  pub build_order_service-Holds :
      (dsn : String) (w : W) → Holds held (held w) (build_order_service rt setup dsn w)
  unfolding build_order_service init_sagas
  build_order_service-Holds dsn w = elim (Bool-cases (str_eq dsn "")) [
    | inl blank ↦ rw blank refl
    | inr named ↦ elim (Option-cases (setup.open_db w).0) [
      | inr (e, bad) ↦ rw (named, bad) (counts.not_opened w e bad)
      | inl ok ↦
          rw (named, ok)
            (or_close-Holds "postgres init failed: " (init_payments setup.create) _ (held w)
              (setup.open_db w).1 (counts.created Table.payments)
              (λ v₁.
                or_close-Holds "saga store init failed: " (init_sagas setup.create) _ (held w) v₁
                  (create_all-kept _)
                  (λ v₂.
                    or_close-Holds "driver store init failed: " (init_drivers setup.create) _
                      (held w) v₂ (counts.created Table.order_assignments)
                      (configured-Holds (held w))))
              (counts.opened w ok))
    ]
  ]

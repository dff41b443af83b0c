-- ===== src/Orders/Reliable/Parts.antt =====
-- The reliable clients as parts of the service that builder.go puts together: what a call through
-- the limiter, the breaker and the retry loop has in common with the base client's call.
use mathlib.Core.Path.{subst}
use orders_go.Common.{ℕ, ◌≡◌, refl, Option, none, some, arith, Option-cases, inl, inr}
use orders_go.Go.Errors.{GoError}
use orders_go.Go.Effects.{M, P, Action, Runtime}
use orders_go.Reliability.Client.{Guarded, do_guarded}
use orders_go.Reliability.Client.Calls.{do_guarded-nil}
use orders_go.Reliability.Client.Ensures.{IsKeptBy, do_guarded-Ensures}
use orders_go.Orders.Settings.{ReliabilityConfig}
use orders_go.Orders.Service.Rules.{Ensures, Ensures-lift}
use orders_go.Orders.Reliable.{
  World, Shop, on_db, on_world, world_runtime, on_payments, on_drivers, payment_part, driver_part,
  client_config,
}
use orders_go.Db.Sql.{Db}

module _ {E : Type 0} where
  pub on_payments_inv :
      (m : P (Guarded (World E)) (Option GoError)) (s : Shop E) {e : Option GoError} {s' : Shop E}
      → on_payments m s ≡ some (e, s')
      → (g : Guarded (World E)) × (m (payment_part s) ≡ some (e, g)) × (g.world ≡ s'.world)
  on_payments_inv m s h = elim (Option-cases (m (payment_part s))) [
    | inl stuck ↦ absurd (ground (arith, stuck))
    | inr ((err, g), ran) ↦ (g, ground (arith, ran), ground (arith, ran))
  ]

  pub on_drivers_inv :
      (m : P (Guarded (World E)) (Option GoError)) (s : Shop E) {e : Option GoError} {s' : Shop E}
      → on_drivers m s ≡ some (e, s')
      → (g : Guarded (World E)) × (m (driver_part s) ≡ some (e, g)) × (g.world ≡ s'.world)
  on_drivers_inv m s h = elim (Option-cases (m (driver_part s))) [
    | inl stuck ↦ absurd (ground (arith, stuck))
    | inr ((err, g), ran) ↦ (g, ground (arith, ran), ground (arith, ran))
  ]

  -- A call that only works on the database.
  pub on_world-Ensures :
      {A : Type 0} (Before : Db → Type 0) (After : A → Db → Type 0) (m : M Db A)
      → ((db : Db) → Before db → After (m db).0 (m db).1)
      → Ensures (λ (s : Shop E). Before s.world.db) (on_world (on_db m)) (λ a s. After a s.world.db)
  on_world-Ensures {A} Before After m law =
      let run : M (Shop E) A = λ s. let (a, w) = on_db m s.world in (a, record s { world = w }) in
      Ensures-lift run (λ s. law s.world.db)

module _ {E : Type 0} (rt : Runtime E) (fuel : ℕ) (cfg : ReliabilityConfig) (fn : Action Db)
    (Holds : Db → Type 0) where
  abbrev HoldsOn : World E → Type 0
  HoldsOn w = Holds w.db

  db-IsKept : IsKeptBy (world_runtime rt) HoldsOn
  db-IsKept = record {
    now_kept = λ w h. h;
    ctx_err_kept = λ w h. h;
    timer_kept = λ d w h. h;
    int63n_kept = λ n w h. h;
  }

  -- What the base client's call keeps of the database, and ensures of its outcome if a failure
  -- ensures it anyway, a call through the guards does.
  pub guarded-Keeps :
      (Good : Option GoError → Type 0)
      → ((e : GoError) → Good (some e))
      → ((db : Db) → Holds db → Holds (fn db).1 × Good (fn db).0)
      → (g g' : Guarded (World E)) (e : Option GoError) → Holds g.world.db
      → do_guarded (client_config rt fuel cfg) fuel (on_db fn) g ≡ some (e, g')
      → Holds g'.world.db × Good e
  guarded-Keeps Good bad keeps g g' e h done =
      do_guarded-Ensures (client_config rt fuel cfg) HoldsOn db-IsKept (λ w h'. h') refl refl fuel
        Good bad (on_db fn) (λ w. keeps w.db) g g' e h done

  module _ (Done : Db → Type 0) (keeps : (db : Db) → Holds db → Holds (fn db).1)
      (done_by : (db : Db) → (fn db).0 ≡ none → Done (fn db).1) where
    guarded_done :
        (g g' : Guarded (World E)) (e : Option GoError)
        → Holds g.world.db
        → do_guarded (client_config rt fuel cfg) fuel (on_db fn) g ≡ some (e, g')
        → Holds g'.world.db × (e ≡ none → Done g'.world.db)
    guarded_done g g' e h done = (
      (guarded-Keeps (λ _. Unit {0}) (λ _. tt) (λ db h'. (keeps db h', tt)) g g' e h done).0,
      λ ok.
          let (v, ran) =
            do_guarded-nil (client_config rt fuel cfg) fuel (on_db fn) g g' (rw ok at done) in
          let same : (fn v.db).1 ≡ g'.world.db = ground arith in
          subst Done same (done_by v.db (ground arith)),
    )

    -- The same, of either client as a part of the service.
    pub payments-Ensures :
        Ensures
          (λ s. Holds s.world.db)
          (on_payments (do_guarded (client_config rt fuel cfg) fuel (on_db fn)))
          (λ e s. Holds s.world.db × (e ≡ none → Done s.world.db))
    payments-Ensures = record {
      ensured = λ s e s' h run.
          let (g, done, same) =
            on_payments_inv (do_guarded (client_config rt fuel cfg) fuel (on_db fn)) s run in
          subst (λ (w : World E). Holds w.db × (e ≡ none → Done w.db)) same
            (guarded_done (payment_part s) g e h done);
    }

    pub drivers-Ensures :
        Ensures
          (λ s. Holds s.world.db)
          (on_drivers (do_guarded (client_config rt fuel cfg) fuel (on_db fn)))
          (λ e s. Holds s.world.db × (e ≡ none → Done s.world.db))
    drivers-Ensures = record {
      ensured = λ s e s' h run.
          let (g, done, same) =
            on_drivers_inv (do_guarded (client_config rt fuel cfg) fuel (on_db fn)) s run in
          subst (λ (w : World E). Holds w.db × (e ≡ none → Done w.db)) same
            (guarded_done (driver_part s) g e h done);
    }

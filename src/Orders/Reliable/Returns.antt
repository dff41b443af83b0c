-- ===== src/Orders/Reliable/Returns.antt =====
-- The service that internal/orders/builder.go puts together: `CreateOrder` comes back, whatever
-- becomes of the statements and whatever the breakers and the retry loops do.
use native.Mathlib.Nat.{le_trans, le_refl}
use orders_go.Common.{ℕ, suc, ◌+◌, ◌^◌, ◌≤◌, ◌<◌, ◌≡◌, refl, String, Option, none, some, arith}
use orders_go.Go.Float64.{Float64}
use orders_go.Go.Errors.{GoError}
use orders_go.Go.Effects.{M, Action, Runtime}
use orders_go.Reliability.Limiter.{RateLimiter}
use orders_go.Reliability.Limiter.Fresh.{IsForward, IsFresh, IsFresh-later, IsReadyIn}
use orders_go.Reliability.Retry.Returns.{Returns}
use orders_go.Reliability.Client.{
  Guarded, do_guarded, guarded_charge, guarded_refund, guarded_assign,
}
use orders_go.Reliability.Client.Returns.{do_guarded-Returns}
use orders_go.Orders.Settings.{ReliabilityConfig}
use orders_go.Orders.Service.{Reply, create_order}
use orders_go.Orders.Service.Returns.{AllReturn, create_order-Returns}
use orders_go.Orders.Reliable.{
  World, Shop, on_db, world_runtime, payment_part, driver_part, on_payments, on_drivers,
  client_config, reliable_payments, reliable_drivers, reliable_service,
}
use orders_go.Orders.Reliable.Invariant.{create_order-IsIntact}
use orders_go.Db.Sql.{Db}
use orders_go.Db.Payments.{charge, refund}
use orders_go.Db.Drivers.{assign}
use orders_go.Db.Integrity.{IsIntact}

-- A limiter that is nil, or fresh.
abbrev pub FreshIn : ℕ → ℕ → Option RateLimiter → Type 0
FreshIn most now none = Unit
FreshIn most now (some r) = IsFresh most now r

FreshIn-later :
    (most now later : ℕ) (lim : Option RateLimiter)
    → now ≤ later
    → FreshIn most now lim
    → FreshIn most later lim
FreshIn-later most now later none le h = tt
FreshIn-later most now later (some r) le h = IsFresh-later most now later r le h

-- Both limiters are nil or fresh.
abbrev pub AreFresh : {E : Type 0} → (E → ℕ) → ℕ → Shop E → Type 0
AreFresh time most s =
    FreshIn most (time s.world.env) s.guards.payment_limiter
    × FreshIn most (time s.world.env) s.guards.driver_limiter

module _ {E : Type 0} (rt : Runtime E) (time : E → ℕ) (forward : IsForward rt time) (most : ℕ)
    (horizon : (e : E) → most + time e < 2 ^ 63) (cfg : ReliabilityConfig) (n : ℕ) where
  abbrev world_time : World E → ℕ
  world_time w = time w.env

  world-IsForward : IsForward (world_runtime rt) world_time
  world-IsForward = record {
    clock = record {
      now_reads = λ w. forward.clock.now_reads w.env;
      ctx_err_forward = λ w. forward.clock.ctx_err_forward w.env;
      timer_waits = λ d w. forward.clock.timer_waits d w.env;
    };
    timer_forward = λ d w. forward.timer_forward d w.env;
    int63n_forward = λ k w. forward.int63n_forward k w.env;
  }

  world_horizon : (w : World E) → most + world_time w < 2 ^ 63
  world_horizon w = horizon w.env

  abbrev Set : ℕ → Option RateLimiter → World E → Type 0
  Set = IsReadyIn (world_runtime rt) world_time world-IsForward most world_horizon

  set_now :
      (lim : Option RateLimiter) (w : World E)
      → FreshIn most (world_time w) lim
      → Set (world_time w) lim w
  set_now none w h = le_refl _
  set_now (some r) w h = (h, le_refl _)

  fresh_then :
      (since : ℕ) (lim : Option RateLimiter) (w : World E)
      → Set since lim w
      → (since ≤ world_time w) × FreshIn most (world_time w) lim
  fresh_then since none w h = (h, tt)
  fresh_then since (some r) w (h, le) = (le, h)

  module _ (fn : Action Db) where
    guarded :
        (g : Guarded (World E))
        → FreshIn most (world_time g.world) g.limiter
        → (e : Option GoError) × (g' : Guarded (World E)) × (do_guarded
              (client_config rt (suc (suc n)) cfg)
              (suc (suc n))
              (on_db fn)
              g
            ≡ some (e, g'))
          × (world_time g.world ≤ world_time g'.world)
          × FreshIn most (world_time g'.world) g'.limiter
    guarded g h =
        let (e, g', ran, h') =
          do_guarded-Returns (client_config rt (suc (suc n)) cfg) world_time world-IsForward most
            world_horizon
            (λ w.
              let (t, _, after, before) = forward.clock.now_reads w.env in le_trans after before)
            refl refl n (world_time g.world) (on_db fn) (λ w. le_refl _) g
            (set_now g.limiter g.world h) in
        let (le, fresh) = fresh_then (world_time g.world) g'.limiter g'.world h' in
        (e, g', ran, le, fresh)

    payments-Returns :
        Returns
          (AreFresh time most)
          (on_payments (do_guarded (client_config rt (suc (suc n)) cfg) (suc (suc n)) (on_db fn)))
    payments-Returns s (hp, hd) =
        let (e, g, ran, le, fresh) = guarded (payment_part s) hp in
        (
          e,
          record {
            guards = record s.guards { payment_limiter = g.limiter; payment_breaker = g.breaker };
            world = g.world;
          },
          ground (arith, ran),
          (
            fresh,
            FreshIn-later most (world_time s.world) (world_time g.world) s.guards.driver_limiter le
                hd,
          ),
        )

    drivers-Returns :
        Returns
          (AreFresh time most)
          (on_drivers (do_guarded (client_config rt (suc (suc n)) cfg) (suc (suc n)) (on_db fn)))
    drivers-Returns s (hp, hd) =
        let (e, g, ran, le, fresh) = guarded (driver_part s) hd in
        (
          e,
          record {
            guards = record s.guards { driver_limiter = g.limiter; driver_breaker = g.breaker };
            world = g.world;
          },
          ground (arith, ran),
          (
            FreshIn-later most (world_time s.world) (world_time g.world) s.guards.payment_limiter le
                hp,
            fresh,
          ),
        )

  module _ (new_uuid : M E String) (uuid_forward : (e : E) → time e ≤ time (new_uuid e).1) where
    reliable-AllReturn :
        AllReturn (reliable_service rt (suc (suc n)) cfg new_uuid) (AreFresh time most)
    unfolding reliable_service reliable_payments reliable_drivers guarded_charge guarded_refund
        guarded_assign
    reliable-AllReturn = record {
      charge_returns = λ id a. payments-Returns (charge id a);
      refund_returns = λ id a. payments-Returns (refund id a);
      assign_returns = λ id driver. drivers-Returns (assign id driver);
      status_returns = λ id t s h. (_, _, refl, h);
      step_returns = λ id step t detail s h. (_, _, refl, h);
      start_returns = λ key id user a s h. (_, _, refl, h);
      id_kept = λ s h. (
        FreshIn-later most _ _ s.guards.payment_limiter (uuid_forward s.world.env) h.0,
        FreshIn-later most _ _ s.guards.driver_limiter (uuid_forward s.world.env) h.1,
      );
      driver_kept = λ s h. (
        FreshIn-later most _ _ s.guards.payment_limiter (uuid_forward s.world.env) h.0,
        FreshIn-later most _ _ s.guards.driver_limiter (uuid_forward s.world.env) h.1,
      );
    }

    -- With fuel for two rounds of a limiter, on a clock that does not go back and stays, with the
    -- bursts, below 2^63 nanoseconds, with ids that take no negative time, and where each limiter is
    -- nil or stands for a bucket of a positive rate and burst: `CreateOrder` comes back, whatever
    -- becomes of the statements and whatever the breakers and the retry loops do; it leaves such
    -- limiters, and tables that keep their constraints if they did.
    pub create_order_total :
        (user : String) (amount : Float64) (key : String) (s : Shop E)
        → AreFresh time most s
        → IsIntact s.world.db
        → (r : Reply) × (s' : Shop E) × (create_order
              (reliable_service rt (suc (suc n)) cfg new_uuid)
              user
              amount
              key
              s
            ≡ some (r, s'))
          × AreFresh time most s'
          × IsIntact s'.world.db
    create_order_total user amount key s ready intact =
        let (r, s', ran, ready') =
          create_order-Returns (reliable_service rt (suc (suc n)) cfg new_uuid) (AreFresh time most)
            reliable-AllReturn user amount key s ready in
        (
          r,
          s',
          ran,
          ready',
          create_order-IsIntact rt (suc (suc n)) cfg new_uuid user amount key s intact ran,
        )

-- ===== src/Orders/Reliable/Outcome.antt =====
-- order.go over the reliable clients, whatever becomes of the statements and whatever the limiters,
-- the breakers and the retry loops do.
use orders_go.Common.{ℕ, ◌≡◌, refl, String, none, some}
use orders_go.Go.Float64.{Float64}
use orders_go.Go.Effects.{M, Runtime}
use orders_go.Orders.Settings.{ReliabilityConfig}
use orders_go.Orders.Service.{charge_payment}
use orders_go.Orders.Service.Rules.{Ensures-after}
use orders_go.Orders.Service.Outcome.{IsHonest, charge_payment-Answered}
use orders_go.Orders.Paid.{
  IsPaid, IsDone, IsAssigned, IsPaid-kept, IsDone-kept, IsPaid-IsAssigned, charge-IsPaid,
  assign-IsPaid, assign-IsAssigned,
}
use orders_go.Orders.Reliable.{Shop, reliable_payments, reliable_drivers, reliable_service}
use orders_go.Orders.Reliable.Parts.{on_world-Ensures, payments-Ensures, drivers-Ensures}
use orders_go.Reliability.Client.{guarded_charge, guarded_assign}
use orders_go.Db.Payments.{charge}
use orders_go.Db.Sagas.{add_step, update_status}
use orders_go.Db.Sagas.Kept.{add_step-IsKept, update_status-IsKept}
use orders_go.Db.Drivers.{assign}

module _ {E : Type 0} (rt : Runtime E) (fuel : ℕ) (cfg : ReliabilityConfig) (new_uuid : M E String)
    (id driver : String) (amount : Float64) where
  reliable-IsHonest :
      IsHonest
        (reliable_service rt fuel cfg new_uuid)
        id
        driver
        amount
        (λ s. IsPaid id amount s.world.db)
        (λ s. IsDone id driver amount s.world.db)
  unfolding reliable_service reliable_payments reliable_drivers guarded_charge guarded_assign
  reliable-IsHonest = record {
    charge_honest =
        Ensures-after (λ e s h. h.1)
          (payments-Ensures rt fuel cfg (charge id amount) (λ _. Unit {0}) (IsPaid id amount)
            (λ db _. tt) (charge-IsPaid id driver amount));
    assign_honest =
        Ensures-after (λ e s h ok. IsPaid-IsAssigned id driver amount s.world.db h.0 (h.1 ok))
          (drivers-Ensures rt fuel cfg (assign id driver) (IsPaid id amount) (IsAssigned id driver)
            (assign-IsPaid id driver amount) (assign-IsAssigned id driver amount));
    step_paid = λ step t detail.
        on_world-Ensures (IsPaid id amount) (λ _. IsPaid id amount) (add_step id step t detail)
          (λ db.
            IsPaid-kept id driver amount db (add_step id step t detail db).1
              (add_step-IsKept id step t detail db));
    step_done = λ step t detail.
        on_world-Ensures (IsDone id driver amount) (λ _. IsDone id driver amount)
          (add_step id step t detail)
          (λ db.
            IsDone-kept id driver amount db (add_step id step t detail db).1
              (add_step-IsKept id step t detail db));
    status_done = λ t.
        on_world-Ensures (IsDone id driver amount) (λ _. IsDone id driver amount)
          (update_status id t)
          (λ db.
            IsDone-kept id driver amount db (update_status id t db).1
              (update_status-IsKept id t db));
  }

  -- In the service that the program builds: whatever becomes of the statements, and whatever the
  -- limiters, the breakers and the retry loops do, an order that goes through to a reply without an
  -- error returns its own id, and leaves a payment of its amount that was not given back and its
  -- driver.
  pub reliable_order-nil :
      (s s' : Shop E) {o : String}
      → charge_payment (reliable_service rt fuel cfg new_uuid) id driver amount s
        ≡ some ((o, none), s')
      → (o ≡ id) × IsDone id driver amount s'.world.db
  reliable_order-nil s s' {o} h =
      (charge_payment-Answered (reliable_service rt fuel cfg new_uuid) id driver amount
          (λ t. IsPaid id amount t.world.db) (λ t. IsDone id driver amount t.world.db)
          reliable-IsHonest).ensured
        s (o, none) s' tt h refl

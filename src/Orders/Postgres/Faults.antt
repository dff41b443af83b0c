-- ===== src/Orders/Postgres/Faults.antt =====
-- order.go, `CreateOrder` over Postgres behind `Start`, whatever becomes of its statements.
use orders_go.Common.{◌≡◌, refl, String, none, some}
use orders_go.Go.Float64.{Float64}
use orders_go.Orders.Service.{charge_payment}
use orders_go.Orders.Service.Rules.{Ensures-lift}
use orders_go.Orders.Service.Outcome.{IsHonest, charge_payment-Answered}
use orders_go.Orders.Paid.{
  IsPaid, IsDone, IsPaid-kept, IsDone-kept, IsPaid-IsAssigned, charge-IsPaid, assign-IsPaid,
  assign-IsAssigned,
}
use orders_go.Orders.Postgres.{postgres_service}
use orders_go.Db.Sql.{Db}
use orders_go.Db.Payments.{charge}
use orders_go.Db.Sagas.{add_step, update_status}
use orders_go.Db.Sagas.Kept.{add_step-IsKept, update_status-IsKept}
use orders_go.Db.Drivers.{assign}

module _ (id driver : String) (amount : Float64) where
  postgres-IsHonest :
      IsHonest
        (postgres_service id driver)
        id
        driver
        amount
        (IsPaid id amount)
        (IsDone id driver amount)
  postgres-IsHonest = record {
    charge_honest = Ensures-lift (charge id amount) (λ db _. charge-IsPaid id driver amount db);
    assign_honest = Ensures-lift (assign id driver) (λ db h ok.
        IsPaid-IsAssigned id driver amount (assign id driver db).1
          (assign-IsPaid id driver amount db h) (assign-IsAssigned id driver amount db ok));
    step_paid = λ step t detail. Ensures-lift (add_step id step t detail) (λ db.
        IsPaid-kept id driver amount db (add_step id step t detail db).1
          (add_step-IsKept id step t detail db));
    step_done = λ step t detail. Ensures-lift (add_step id step t detail) (λ db.
        IsDone-kept id driver amount db (add_step id step t detail db).1
          (add_step-IsKept id step t detail db));
    status_done = λ t. Ensures-lift (update_status id t) (λ db.
        IsDone-kept id driver amount db (update_status id t db).1 (update_status-IsKept id t db));
  }

  -- Whatever becomes of its statements, an order that goes through to a reply without an error
  -- returns its own id, and leaves a payment of its amount that was not given back and its driver.
  charge_payment-nil :
      (db db' : Db) {o : String}
      → charge_payment (postgres_service id driver) id driver amount db ≡ some ((o, none), db')
      → (o ≡ id) × IsDone id driver amount db'
  charge_payment-nil db db' {o} h =
      (charge_payment-Answered (postgres_service id driver) id driver amount (IsPaid id amount)
          (IsDone id driver amount) postgres-IsHonest).ensured
        db (o, none) db' tt h refl

-- ===== src/Orders/Postgres.antt =====
-- The order service over the stores of internal/db/orders: `OrderService.CreateOrder` with the
-- clients of postgres_payment.go, driver_store.go and saga_store.go. `id` and `driver` are what the
-- generators return.
pub mod Runs
pub mod Lost
pub mod Faults
use orders_go.Common.{String, Option}
use orders_go.Go.Effects.{lift, pure}
use orders_go.Orders.Saga.{SagaStore, PaymentClient, DriverClient}
use orders_go.Orders.Service.{OrderService, Reply, create_order}
use orders_go.Go.Effects.{P}
use orders_go.Go.Float64.{Float64}
use orders_go.Db.Sql.{Db}
use orders_go.Db.Payments.{charge, refund}
use orders_go.Db.Sagas.{start, update_status, add_step}
use orders_go.Db.Drivers.{assign}

abbrev pub postgres_payments : PaymentClient Db
postgres_payments = record {
  charge = λ id a. lift (charge id a);
  refund = λ id a. lift (refund id a);
}

abbrev pub postgres_drivers : DriverClient Db
postgres_drivers = record { assign = λ id driver. lift (assign id driver) }

abbrev pub postgres_sagas : SagaStore Db
postgres_sagas = record {
  start = λ key id user a. lift (start key id user a);
  update_status = λ id status. lift (update_status id status);
  add_step = λ id step status detail. lift (add_step id step status detail);
}

abbrev pub postgres_service : String → String → OrderService Db
postgres_service id driver = record {
  payments = postgres_payments;
  drivers = postgres_drivers;
  sagas = postgres_sagas;
  id_gen = pure id;
  driver_sel = pure driver;
}

-- ===== src/Orders/Saga.antt =====
-- internal/orders/saga/types.go, and the client interfaces of internal/orders/order.go.
use text.Mathlib.TextEquality.{eq_iff}
use orders_go.Common.{◌≢◌, arith, String, Bool, Option}
use orders_go.Go.Float64.{Float64}
use orders_go.Go.Errors.{GoError}
use orders_go.Go.Effects.{P}

abbrev pub SagaStatus : Type 0
SagaStatus = String

abbrev pub status_started : SagaStatus
status_started = "started"

abbrev pub status_succeeded : SagaStatus
status_succeeded = "succeeded"

abbrev pub status_failed : SagaStatus
status_failed = "failed"

abbrev pub status_refunded : SagaStatus
status_refunded = "refunded"

-- These three are not success.
pub started_pending : status_started ≢ status_succeeded
started_pending won = ground (arith, eq_iff status_started status_succeeded, won)

pub failed_pending : status_failed ≢ status_succeeded
failed_pending won = ground (arith, eq_iff status_failed status_succeeded, won)

pub refunded_pending : status_refunded ≢ status_succeeded
refunded_pending won = ground (arith, eq_iff status_refunded status_succeeded, won)

pub record SagaRecord : Type 0 where
  pub order_id : String
  pub user_id : String
  pub amount : Float64
  pub status : SagaStatus

pub record SagaStore (W : Type 0) : Type 0 where
  pub start : String → String → String → Float64 → P W (SagaRecord × Bool × Option GoError)
  pub update_status : String → SagaStatus → P W (Option GoError)
  pub add_step : String → String → String → String → P W (Option GoError)

pub record PaymentClient (W : Type 0) : Type 0 where
  pub charge : String → Float64 → P W (Option GoError)
  pub refund : String → Float64 → P W (Option GoError)

pub record DriverClient (W : Type 0) : Type 0 where
  pub assign : String → String → P W (Option GoError)

-- ===== src/Orders/Service.antt =====
-- internal/orders/order.go, `OrderService.CreateOrder`. The results of the saga's own writes are
-- dropped, as in the source.
pub mod Rules
pub mod Invariant
pub mod Outcome
pub mod Returns
use Prim.Native.String.{◌++◌}
use orders_go.Common.{String, Bool, Option, none, some, str_eq, if◌then◌else◌}
use orders_go.Go.Float64.{Float64}
use orders_go.Go.Errors.{GoError, sentinel, message, wrapped, Sentinel, error_text}
use orders_go.Go.Effects.{M, P, lift}
use orders_go.Go.Partial.{◌>>=◌, ◌>>◌}
use orders_go.Orders.Saga.{
  SagaRecord, SagaStore, PaymentClient, DriverClient, status_succeeded, status_failed,
  status_refunded,
}

pub record OrderService (W : Type 0) : Type 0 where
  pub payments : PaymentClient W
  pub drivers : DriverClient W
  pub sagas : SagaStore W
  pub id_gen : M W String
  pub driver_sel : M W String

-- `newOrderID` and `newDriverID`.
abbrev pub new_order_id : {W : Type 0} → M W String → M W String
new_order_id new_uuid = new_uuid

abbrev pub new_driver_id : {W : Type 0} → M W String → M W String
new_driver_id new_uuid = new_uuid

-- A nil generator is replaced by the one that makes a new UUID.
unfoldable pub new_order_service :
    {W : Type 0}
    → M W String
    → PaymentClient W
    → DriverClient W
    → SagaStore W
    → Option (M W String)
    → Option (M W String)
    → OrderService W
new_order_service new_uuid payments drivers sagas id_gen driver_sel = record {
  payments = payments;
  drivers = drivers;
  sagas = sagas;
  id_gen = elim id_gen [ none ↦ new_order_id new_uuid | some f ↦ f ];
  driver_sel = elim driver_sel [ none ↦ new_driver_id new_uuid | some f ↦ f ];
}

-- What `CreateOrder` returns.
abbrev pub Reply : Type 0
Reply = String × Option GoError

abbrev pub reply : {W : Type 0} → Reply → P W Reply
reply r w = some (r, w)

-- The answer for a saga that was there already.
unfoldable pub replayed : SagaRecord → Reply
replayed r =
    if str_eq r.status status_succeeded
    then (r.order_id, none)
    else (r.order_id, some (message ("order already processed with status " ++ r.status)))

module _ {W : Type 0} (s : OrderService W) where
  -- The payment is given back where no driver was assigned, which failed with `err`.
  unfoldable pub compensate : String → Float64 → GoError → P W Reply
  compensate order_id amount err = do
    s.sagas.add_step order_id "refund" "started" ""
    refund_err ← s.payments.refund order_id amount
    elim refund_err [
      | some r ↦ do
        s.sagas.add_step order_id "refund" "failed" (error_text r)
        s.sagas.update_status order_id status_failed
        reply (
          "",
          some (wrapped "driver assignment failed: " err ("; refund failed: " ++ error_text r)),
        )
      | none ↦ do
        s.sagas.add_step order_id "refund" "succeeded" ""
        s.sagas.update_status order_id status_refunded
        reply ("", some err)
    ]

  unfoldable pub assign_driver : String → String → Float64 → P W Reply
  assign_driver order_id driver_id amount = do
    s.sagas.add_step order_id "assign" "started" ""
    assign_err ← s.drivers.assign order_id driver_id
    elim assign_err [
      | some err ↦ do
        s.sagas.add_step order_id "assign" "failed" (error_text err)
        compensate order_id amount err
      | none ↦ do
        s.sagas.add_step order_id "assign" "succeeded" ""
        s.sagas.update_status order_id status_succeeded
        reply (order_id, none)
    ]

  unfoldable pub charge_payment : String → String → Float64 → P W Reply
  charge_payment order_id driver_id amount = do
    s.sagas.add_step order_id "charge" "started" ""
    charge_err ← s.payments.charge order_id amount
    elim charge_err [
      | some err ↦ do
        s.sagas.add_step order_id "charge" "failed" (error_text err)
        s.sagas.update_status order_id status_failed
        reply ("", some err)
      | none ↦ do
        s.sagas.add_step order_id "charge" "succeeded" ""
        assign_driver order_id driver_id amount
    ]

  -- What follows `Start`. Both of its error branches return the error.
  unfoldable pub proceed :
      String → String → Float64 → SagaRecord × Bool × Option GoError → P W Reply
  proceed order_id driver_id amount (record', created, err) = elim err [
    | some e ↦ reply ("", some e)
    | none ↦ if created then charge_payment order_id driver_id amount else reply (replayed record')
  ]

  unfoldable pub create_order : String → Float64 → String → P W Reply
  create_order user_id amount key =
      if str_eq key "" then reply ("", some (sentinel Sentinel.idempotency_key_required)) else do
        order_id ← lift s.id_gen
        driver_id ← lift s.driver_sel
        started ← s.sagas.start key order_id user_id amount
        proceed order_id driver_id amount started

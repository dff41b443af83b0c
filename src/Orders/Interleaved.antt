-- ===== src/Orders/Interleaved.antt =====
-- order.go, `CreateOrder` over the stores of internal/db/orders, cut up into its statements: the
-- calls of many callers run side by side on one database, and between two statements of one call
-- any number of others may run. A statement itself is not divided.
pub mod Sequential
pub mod Effects
pub mod Stages
pub mod Moves
pub mod SagaMoves
pub mod StartMoves
pub mod Plans
pub mod OrderPlan
pub mod Bound
pub mod System
pub mod Results
use Prim.Native.String.{◌++◌}
use orders_go.Common.{
  ℕ, String, Bool, Option, none, some, false, str_eq, ◌==◌, ◌||◌, not, if◌then◌else◌,
}
use orders_go.Go.Float64.{Float64, float_eq}
use orders_go.Go.Errors.{GoError, sentinel, message, wrapped, Sentinel, error_text}
use orders_go.Go.Effects.{M}
use orders_go.Orders.Saga.{SagaRecord, SagaStatus, status_succeeded, status_failed, status_refunded}
use orders_go.Orders.Service.{Reply, replayed}
use orders_go.Db.Sql.{Db, failed, rows, no_count, found, no_row, scan_failed, exec, query_row}
use orders_go.Db.Payments.{insert_payment, update_refund, select_refunded}
use orders_go.Db.Sagas.{
  insert_saga, select_saga, empty_record, update_saga, insert_step, exec_error,
}
use orders_go.Db.Drivers.{insert_assignment, select_driver}

-- What is left of a call: its reply, or a statement and what follows it.
pub data Prog (A : Type 0) : Type 0 where
  done : A → Prog A
  atomic : (Db → Db) → (Db → Prog A) → Prog A

-- The statement `m`, whose result `k` goes on with.
abbrev pub call : {A B : Type 0} → M Db A → (A → Prog B) → Prog B
call m k = atomic (λ db. (m db).1) (λ db. k (m db).0)

-- The operations of the stores, each with what follows it.
unfoldable pub charge_steps : String → Float64 → (Option GoError → Prog Reply) → Prog Reply
charge_steps id amount k =
    if str_eq id ""
    then k (some (message "order id required"))
    else call (exec (insert_payment id amount)) (λ res. elim res [
      | failed e ↦ k (some e)
      | no_count e ↦ k (some e)
      | rows n ↦ k (if n == 0 then some (sentinel Sentinel.already_charged) else none)
    ])

-- The rest of `Refund` where the update affected no row.
unfoldable pub explain_refund_steps : String → (Option GoError → Prog Reply) → Prog Reply
explain_refund_steps id k = call (query_row (select_refunded id)) (λ scanned. elim scanned [
  | found refunded ↦
      k (some (sentinel (if refunded then Sentinel.already_refunded else Sentinel.not_charged)))
  | no_row ↦ k (some (sentinel Sentinel.not_charged))
  | scan_failed e ↦ k (some e)
])

unfoldable pub refund_steps : String → Float64 → (Option GoError → Prog Reply) → Prog Reply
refund_steps id amount k =
    if str_eq id ""
    then k (some (message "order id required"))
    else call (exec (update_refund id amount)) (λ res. elim res [
      | failed e ↦ k (some e)
      | no_count e ↦ k (some e)
      | rows n ↦ if n == 0 then explain_refund_steps id k else k none
    ])

-- The rest of `Assign` where the insert affected no row.
unfoldable pub check_existing_steps : String → String → (Option GoError → Prog Reply) → Prog Reply
check_existing_steps id driver k = call (query_row (select_driver id)) (λ scanned. elim scanned [
  | found existing ↦ k (
      if str_eq existing driver
      then none
      else some (message "order already assigned to different driver"))
  | no_row ↦ k (some (message "assignment not found after insert"))
  | scan_failed e ↦ k (some e)
])

unfoldable pub assign_steps : String → String → (Option GoError → Prog Reply) → Prog Reply
assign_steps id driver k =
    if str_eq id "" || str_eq driver ""
    then k (some (message "order and driver ids are required"))
    else call (exec (insert_assignment id driver)) (λ res. elim res [
      | failed e ↦ k (some e)
      | no_count e ↦ k (some e)
      | rows n ↦ if n == 0 then check_existing_steps id driver k else k none
    ])

-- The results of these two are dropped, as in the source.
unfoldable pub add_step_steps : String → String → String → String → Prog Reply → Prog Reply
add_step_steps id step status detail rest =
    call (exec (insert_step id step status detail)) (λ _. rest)

unfoldable pub update_status_steps : String → SagaStatus → Prog Reply → Prog Reply
update_status_steps id status rest = call (exec (update_saga id status)) (λ _. rest)

-- The rest of `Start`, once the insert has affected `n` rows.
unfoldable pub read_back_steps :
    String → String → Float64 → ℕ → (SagaRecord × Bool × Option GoError → Prog Reply) → Prog Reply
read_back_steps key user amount n k = call (query_row (select_saga key)) (λ scanned. elim scanned [
  | no_row ↦ k (empty_record, false, some (message "saga not found after insert"))
  | scan_failed e ↦ k (empty_record, false, some e)
  | found r ↦
      if not (str_eq r.user_id user) || not (float_eq r.amount amount)
      then k (empty_record, false, some (sentinel Sentinel.idempotency_conflict))
      else k (r, n == 1, none)
])

unfoldable pub start_steps :
    String
    → String
    → String
    → Float64
    → (SagaRecord × Bool × Option GoError → Prog Reply)
    → Prog Reply
start_steps key id user amount k = call (exec (insert_saga key id user amount)) (λ res. elim res [
  | failed e ↦ k (empty_record, false, some e)
  | no_count e ↦ k (empty_record, false, some e)
  | rows n ↦ read_back_steps key user amount n k
])

-- A call of `CreateOrder`, with what the two generators return for it.
pub record Attempt : Type 0 where
  pub user_id : String
  pub amount : Float64
  pub key : String
  pub order_id : String
  pub driver_id : String

module _ (c : Attempt) where
  unfoldable pub compensate_steps : GoError → Prog Reply
  compensate_steps err = add_step_steps c.order_id "refund" "started" "" (
      refund_steps c.order_id c.amount (λ refund_err. elim refund_err [
        | some r ↦ add_step_steps c.order_id "refund" "failed" (error_text r) (
            update_status_steps c.order_id status_failed (
              done (
                "",
                some (
                    wrapped "driver assignment failed: " err ("; refund failed: " ++ error_text r)),
              )))
        | none ↦
            add_step_steps c.order_id "refund" "succeeded" ""
              (update_status_steps c.order_id status_refunded (done ("", some err)))
      ]))

  unfoldable pub assign_driver_steps : Prog Reply
  assign_driver_steps = add_step_steps c.order_id "assign" "started" "" (
      assign_steps c.order_id c.driver_id (λ assign_err. elim assign_err [
        | some err ↦
            add_step_steps c.order_id "assign" "failed" (error_text err) (compensate_steps err)
        | none ↦
            add_step_steps c.order_id "assign" "succeeded" ""
              (update_status_steps c.order_id status_succeeded (done (c.order_id, none)))
      ]))

  unfoldable pub charge_payment_steps : Prog Reply
  charge_payment_steps = add_step_steps c.order_id "charge" "started" "" (
      charge_steps c.order_id c.amount (λ charge_err. elim charge_err [
        | some err ↦
            add_step_steps c.order_id "charge" "failed" (error_text err)
              (update_status_steps c.order_id status_failed (done ("", some err)))
        | none ↦ add_step_steps c.order_id "charge" "succeeded" "" assign_driver_steps
      ]))

  unfoldable pub proceed_steps : SagaRecord × Bool × Option GoError → Prog Reply
  proceed_steps (record', created, err) = elim err [
    | some e ↦ done ("", some e)
    | none ↦ if created then charge_payment_steps else done (replayed record')
  ]

  unfoldable pub order_steps : Prog Reply
  order_steps =
      if str_eq c.key ""
      then done ("", some (sentinel Sentinel.idempotency_key_required))
      else start_steps c.key c.order_id c.user_id c.amount proceed_steps

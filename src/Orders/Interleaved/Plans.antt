-- ===== src/Orders/Interleaved/Plans.antt =====
-- What is left of a call is as it should be, operation by operation.
pub mod Payments
pub mod Assignment
use text.Mathlib.TextEquality.{eq_iff}
use orders_go.Common.{
  ◌≡◌, ◌≢◌, refl, ap, ◌∙◌, String, true, Option, none, some, str_eq, ◌==◌, ◌||◌, arith,
  Option-cases, Bool-cases, inl, inr,
}
use orders_go.Go.Float64.{float_eq}
use orders_go.Go.Errors.{GoError}
use orders_go.Orders.Saga.{SagaStatus, status_succeeded}
use orders_go.Orders.Paid.{IsPaid, IsAssigned, IsPaid-IsAssigned}
use orders_go.Orders.Service.{Reply}
use orders_go.Orders.Interleaved.{
  Prog, done, Attempt, charge_steps, explain_refund_steps, refund_steps, check_existing_steps,
  assign_steps, add_step_steps, update_status_steps,
}
use orders_go.Orders.Interleaved.Effects.{Quiet-SameRows, query_row-Quiet, insert_step-Quiet}
use orders_go.Orders.Interleaved.Effects.Drivers.{
  insert_assignment-OnlyOf, insert_assignment-saga, insert_assignment-IsAssigned,
}
use orders_go.Orders.Interleaved.Effects.Payments.{
  insert_payment-OnlyOf, insert_payment-saga, update_refund-OnlyOf, update_refund-saga,
  insert_payment-IsPaid,
}
use orders_go.Orders.Interleaved.Stages.{
  Stage, opened, paid, assigned, finished, owns, IsMine, Ok, IsMine-same, IsDone-same,
}
use orders_go.Orders.Interleaved.Moves.{Holds-IsMine, owner-Moves, Quiet-Moves}
use orders_go.Orders.Interleaved.SagaMoves.{status-Moves, success-Moves}
use orders_go.Db.Sql.{Db, exec, query_row}
use orders_go.Db.Sql.Runs.{at_turn, Executed-cases, Scanned-cases, query_row-found}
use orders_go.Db.Payments.{find_payment, insert_payment, update_refund, select_refunded}
use orders_go.Db.Sagas.{find_order, insert_step}
use orders_go.Db.Drivers.{insert_assignment, select_driver, find_assignment}
use orders_go.Db.Integrity.{IsIntact, IsOpen}
use orders_go.Db.Integrity.Statements.{
  exec-IsIntact, insert_step-KeepsIntact, insert_payment-KeepsIntact, update_refund-KeepsIntact,
  insert_assignment-KeepsIntact,
}

pub query_row-IsIntact :
    {A : Type 0} (select : Db → Option A) (db : Db) → IsIntact db → IsIntact (query_row select db).1
unfolding query_row
query_row-IsIntact select db h = h

module _ (c : Attempt) where
  -- The call's saga where no statement has touched the sagas.
  pub IsMine-sagas : (db db' : Db) → db'.sagas ≡ db.sagas → IsMine c db → IsMine c db'
  IsMine-sagas db db' same h = record {
    row = h.row;
    there = ap (find_order c.order_id) same ∙ h.there;
    same_key = h.same_key;
    same_amount = h.same_amount;
    pending = h.pending;
  }

  pub IsPaid-payments :
      (db db' : Db)
      → db'.payments ≡ db.payments
      → IsPaid c.order_id c.amount db
      → IsPaid c.order_id c.amount db'
  IsPaid-payments db db' same h = record {
    payment = h.payment;
    charged = ap (find_payment c.order_id) same ∙ h.charged;
    charged_amount = h.charged_amount;
    not_refunded = h.not_refunded;
  }

  pub IsMine-IsOpen : (db : Db) → IsMine c db → IsOpen c.order_id db
  IsMine-IsOpen db h gone = ground (arith, h.there, gone)

  pub add_step_steps-Ok :
      (st : Stage) (step t detail : String) (rest : Prog Reply)
      → owns st ≡ true
      → Ok c rest st
      → Ok c (add_step_steps c.order_id step t detail rest) st
  unfolding add_step_steps
  add_step_steps-Ok st step t detail rest o ok db intact settled h =
      let quiet = insert_step-Quiet c.order_id step t detail db in
      let intact' =
        exec-IsIntact (insert_step c.order_id step t detail) db
          (insert_step-KeepsIntact c.order_id step t detail (at_turn db)) intact in
      (st, Quiet-Moves c st db _ o quiet intact' settled h, ok)

  pub update_status_steps-Ok :
      (st : Stage) (status : SagaStatus) (rest : Prog Reply)
      → status ≢ status_succeeded
      → owns st ≡ true
      → Ok c rest opened
      → Ok c (update_status_steps c.order_id status rest) st
  unfolding update_status_steps
  update_status_steps-Ok st status rest other o ok db intact settled h =
      (opened, status-Moves c status db st other o intact settled h, ok)

  pub success_steps-Ok :
      float_eq c.amount c.amount ≡ true
      → Ok c (update_status_steps c.order_id status_succeeded (done (c.order_id, none))) assigned
  unfolding update_status_steps
  success_steps-Ok num db intact settled h = (
    finished c.order_id c.driver_id c.amount,
    success-Moves c status_succeeded db num intact settled h,
    λ _. (c.driver_id, c.amount, refl),
  )

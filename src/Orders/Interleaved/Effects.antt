-- ===== src/Orders/Interleaved/Effects.antt =====
-- What each statement of a call does to the rows of its own order and of the others, whatever becomes
-- of it.
pub mod Payments
pub mod Drivers
pub mod Sagas
use text.Mathlib.TextEquality.{eq_iff}
use text.Mathlib.TextPositions.{eq_refl}
use orders_go.Common.{
  ℕ, ◌≡◌, ◌≢◌, ◌⊎◌, refl, ap, String, Option, none, some, List, [], ◌∷◌, arith, Option-cases, inl,
  inr,
}
use orders_go.Go.Int64.{Time}
use orders_go.Go.Float64.{Float64}
use mathlib.Core.Option
use orders_go.Orders.Saga.{SagaStatus}
use orders_go.Orders.Paid.{IsPaid, IsAssigned}
use orders_go.Db.Sql.{Payment, SagaRow, Db, rows, exec, query_row}
use orders_go.Db.Sql.Runs.{exec-Ran}
use orders_go.Db.Payments.{find_payment, insert_payment, refund_rows, update_refund}
use orders_go.Db.Payments.Laws.{inserted, find-refund_rows, find_payment-id}
use orders_go.Db.Sagas.{
  find_order, find_key, insert_saga, status_rows, update_saga, insert_step, new_row,
}
use orders_go.Db.Sagas.Reread.{updated}
use orders_go.Db.Drivers.{find_assignment, insert_assignment}

-- The rows of an order are the same.
pub record SameRows (j : String) (db db' : Db) : Type 0 where
  pub payment_same : find_payment j db'.payments ≡ find_payment j db.payments
  pub assignment_same : find_assignment j db'.assignments ≡ find_assignment j db.assignments
  pub saga_same : find_order j db'.sagas ≡ find_order j db.sagas

-- Those of every other order are the same.
abbrev pub OnlyOf : String → Db → Db → Type 0
OnlyOf id db db' = (j : String) → j ≢ id → SameRows j db db'

-- The tables but for the steps are the same.
pub record Quiet (db db' : Db) : Type 0 where
  pub payments_same : db'.payments ≡ db.payments
  pub assignments_same : db'.assignments ≡ db.assignments
  pub sagas_same : db'.sagas ≡ db.sagas

pub Quiet-SameRows : (j : String) (db db' : Db) → Quiet db db' → SameRows j db db'
Quiet-SameRows j db db' q = record {
  payment_same = ap (find_payment j) q.payments_same;
  assignment_same = ap (find_assignment j) q.assignments_same;
  saga_same = ap (find_order j) q.sagas_same;
}

pub query_row-Quiet :
    {A : Type 0} (select : Db → Option A) (db : Db) → Quiet db (query_row select db).1
unfolding query_row
query_row-Quiet select db = record {
  payments_same = refl;
  assignments_same = refl;
  sagas_same = refl;
}

pub insert_step-Quiet :
    (id step t detail : String) (db : Db) → Quiet db (exec (insert_step id step t detail) db).1
unfolding insert_step
insert_step-Quiet id step t detail db = elim (exec-Ran (insert_step id step t detail) db) [
  | inl (e, r) ↦ ground (arith, r)
  | inr (n, d', x, y, _) ↦ ground (arith, x, y)
]

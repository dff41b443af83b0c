-- ===== src/Db/Integrity/Open.antt =====
-- The operations of the stores and the sagas: none is lost, and `Start` opens one.
use text.Mathlib.TextPositions.{eq_refl}
use orders_go.Common.{◌≡◌, String, none, true, arith, Option-cases, inl, inr}
use orders_go.Go.Float64.{Float64}
use orders_go.Db.Sql.{Db, query_row}
use orders_go.Db.Sql.Runs.{exec-Ran}
use orders_go.Db.Payments.{insert_payment, update_refund, charge, explain_refund, refund}
use orders_go.Db.Sagas.{
  find_key, find_order, insert_saga, read_back, start, update_saga, update_status, insert_step,
  add_step,
}
use orders_go.Db.Drivers.{insert_assignment, check_existing, assign}
use orders_go.Db.Integrity.{IsOpen}
use orders_go.Db.Integrity.Rows.{is_some-find_order-status_rows}

pub charge-IsOpen :
    (j id : String) (a : Float64) (db : Db) → IsOpen j db → IsOpen j (charge id a db).1
unfolding charge insert_payment
charge-IsOpen j id a db h = elim (exec-Ran (insert_payment id a) db) [
  | inl (e, r) ↦ ground (arith, r, h)
  | inr (n, d', x, y, _) ↦ ground (arith, x, y, h)
]

pub refund-IsOpen :
    (j id : String) (a : Float64) (db : Db) → IsOpen j db → IsOpen j (refund id a db).1
unfolding refund explain_refund query_row update_refund
refund-IsOpen j id a db h = elim (exec-Ran (update_refund id a) db) [
  | inl (e, r) ↦ ground (arith, r, h)
  | inr (n, d', x, y, _) ↦ ground (arith, x, y, h)
]

pub assign-IsOpen :
    (j id driver : String) (db : Db) → IsOpen j db → IsOpen j (assign id driver db).1
unfolding assign check_existing query_row insert_assignment
assign-IsOpen j id driver db h = elim (exec-Ran (insert_assignment id driver) db) [
  | inl (e, r) ↦ ground (arith, r, h)
  | inr (n, d', x, y, _) ↦ ground (arith, x, y, h)
]

pub add_step-IsOpen :
    (j id step t detail : String) (db : Db)
    → IsOpen j db
    → IsOpen j (add_step id step t detail db).1
unfolding add_step insert_step
add_step-IsOpen j id step t detail db h = elim (exec-Ran (insert_step id step t detail) db) [
  | inl (e, r) ↦ ground (arith, r, h)
  | inr (n, d', x, y, _) ↦ ground (arith, x, y, h)
]

pub update_status-IsOpen :
    (j id status : String) (db : Db) → IsOpen j db → IsOpen j (update_status id status db).1
unfolding update_status update_saga
update_status-IsOpen j id status db h = elim (exec-Ran (update_saga id status) db) [
  | inl (e, r) ↦ ground (arith, r, h)
  | inr (n, d', x, y, _) ↦
      ground (arith, x, y, h, is_some-find_order-status_rows id status db.now j db.sagas)
]

-- A saga that `Start` reports as created is there.
pub start-IsOpen :
    (key id user : String) (a : Float64) (db : Db)
    → let ((r, created, err), db') = start key id user a db in
      created ≡ true → err ≡ none → IsOpen id db'
unfolding start read_back query_row insert_saga find_order
start-IsOpen key id user a db made ok = elim (exec-Ran (insert_saga key id user a) db) [
  | inl (e, r) ↦ absurd (ground (arith, r, made))
  | inr (n, d', x, y, count) ↦ elim (Option-cases (find_key key db.sagas)) [
    | inr (r, old) ↦ absurd (grind (arith, x, y, count, made, ok, old))
    | inl new ↦ elim (Option-cases (find_order id db.sagas)) [
      | inr (r, taken) ↦ absurd (ground (arith, x, new, taken))
      | inl free ↦ ground (arith, x, y, made, ok, new, free, eq_refl id)
    ]
  ]
]

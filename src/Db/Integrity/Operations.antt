-- ===== src/Db/Integrity/Operations.antt =====
-- The operations of the three stores keep the tables' constraints, whatever becomes of their
-- statements.
use orders_go.Common.{String, arith}
use orders_go.Go.Float64.{Float64}
use orders_go.Db.Sql.{Db, query_row}
use orders_go.Db.Sql.Runs.{at_turn}
use orders_go.Db.Payments.{insert_payment, update_refund, charge, explain_refund, refund}
use orders_go.Db.Sagas.{
  insert_saga, read_back, start, update_saga, update_status, insert_step, add_step,
}
use orders_go.Db.Drivers.{insert_assignment, check_existing, assign}
use orders_go.Db.Integrity.{IsIntact, IsOpen}
use orders_go.Db.Integrity.Statements.{
  exec-IsIntact, insert_payment-KeepsIntact, update_refund-KeepsIntact, insert_saga-KeepsIntact,
  update_saga-KeepsIntact, insert_step-KeepsIntact, insert_assignment-KeepsIntact,
}

pub charge-IsIntact :
    (id : String) (a : Float64) (db : Db) → IsOpen id db → IsIntact db → IsIntact (charge id a db).1
unfolding charge
charge-IsIntact id a db there h =
    let h' =
      exec-IsIntact (insert_payment id a) db (insert_payment-KeepsIntact id a (at_turn db) there)
        h in
    ground (arith, h, h')

pub refund-IsIntact :
    (id : String) (a : Float64) (db : Db) → IsIntact db → IsIntact (refund id a db).1
unfolding refund explain_refund query_row
refund-IsIntact id a db h =
    let h' =
      exec-IsIntact (update_refund id a) db (update_refund-KeepsIntact id a (at_turn db)) h in
    ground (arith, h, h')

pub start-IsIntact :
    (key id user : String) (a : Float64) (db : Db)
    → IsIntact db
    → IsIntact (start key id user a db).1
unfolding start read_back query_row
start-IsIntact key id user a db h =
    let h' =
      exec-IsIntact (insert_saga key id user a) db
        (insert_saga-KeepsIntact key id user a (at_turn db)) h in
    ground (arith, h, h')

pub update_status-IsIntact :
    (id status : String) (db : Db) → IsIntact db → IsIntact (update_status id status db).1
unfolding update_status
update_status-IsIntact id status db h =
    exec-IsIntact (update_saga id status) db (update_saga-KeepsIntact id status (at_turn db)) h

pub add_step-IsIntact :
    (id step t detail : String) (db : Db) → IsIntact db → IsIntact (add_step id step t detail db).1
unfolding add_step
add_step-IsIntact id step t detail db h =
    exec-IsIntact (insert_step id step t detail) db
      (insert_step-KeepsIntact id step t detail (at_turn db)) h

pub assign-IsIntact :
    (id driver : String) (db : Db) → IsIntact db → IsIntact (assign id driver db).1
unfolding assign check_existing query_row
assign-IsIntact id driver db h =
    let h' =
      exec-IsIntact (insert_assignment id driver) db
        (insert_assignment-KeepsIntact id driver (at_turn db)) h in
    ground (arith, h, h')

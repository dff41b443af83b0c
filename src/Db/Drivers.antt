-- ===== src/Db/Drivers.antt =====
-- internal/db/orders/driver_store.go, `PostgresDriverClient`.
pub mod Laws
pub mod Faults
use orders_go.Common.{
  ℕ, String, Bool, Option, none, some, List, [], ◌∷◌, str_eq, ◌==◌, ◌||◌, if◌then◌else◌,
}
use orders_go.Go.Errors.{GoError, message}
use orders_go.Go.Effects.{M, Action}
use orders_go.Db.Sagas.{find_order}
use orders_go.Db.Sql.{
  Assignment, Db, Effect, affected, violated, Executed, failed, rows, no_count, Scanned, found,
  no_row, scan_failed, exec, query_row,
}

unfoldable pub find_assignment : String → List Assignment → Option Assignment
find_assignment id [] = none
find_assignment id (a ∷ as') = if str_eq a.order_id id then some a else find_assignment id as'

-- INSERT INTO order_assignments … ON CONFLICT (order_id) DO NOTHING; the order must have a saga.
unfoldable pub insert_assignment : String → String → Db → Effect
insert_assignment id driver db = elim (find_assignment id db.assignments) [
  | some _ ↦ affected 0 db
  | none ↦ elim (find_order id db.sagas) [
    | none ↦ violated
    | some _ ↦
        let a : Assignment = record { order_id = id; driver_id = driver; assigned_at = db.now } in
        affected 1 (record db { assignments = a ∷ db.assignments })
  ]
]

-- SELECT driver_id FROM order_assignments WHERE order_id = $1
unfoldable pub select_driver : String → Db → Option String
select_driver id db = elim (find_assignment id db.assignments) [
  | none ↦ none
  | some a ↦ some a.driver_id
]

-- The rest of `Assign` where the insert affected no row.
unfoldable pub check_existing : String → String → Action Db
check_existing id driver db =
    let (scanned, db') = query_row (select_driver id) db in
    elim scanned [
      | found existing ↦ (
        if str_eq existing driver
            then none
            else some (message "order already assigned to different driver"),
        db',
      )
      | no_row ↦ (some (message "assignment not found after insert"), db')
      | scan_failed e ↦ (some e, db')
    ]

unfoldable pub assign : String → String → Action Db
assign id driver db =
    if str_eq id "" || str_eq driver ""
    then (some (message "order and driver ids are required"), db)
    else let (res, db') = exec (insert_assignment id driver) db in
      elim res [
        | failed e ↦ (some e, db')
        | no_count e ↦ (some e, db')
        | rows n ↦ if n == 0 then check_existing id driver db' else (none, db')
      ]

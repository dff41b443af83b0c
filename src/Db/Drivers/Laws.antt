-- ===== src/Db/Drivers/Laws.antt =====
-- driver_store.go, `Assign`.
use text.Mathlib.TextEquality.{eq_iff}
use orders_go.Common.{◌≡◌, ◌≢◌, String, none, some, [], ◌∷◌, str_eq, arith, if◌then◌else◌}
use orders_go.Go.Errors.{message}
use orders_go.Db.Sql.{Assignment, Db, exec, query_row}
use orders_go.Db.Sagas.{find_order}
use orders_go.Db.Drivers.{find_assignment, insert_assignment, select_driver, check_existing, assign}

-- Without faults, for a named order and driver: an order with a saga gets its driver; the same
-- driver again changes nothing and is no error; another driver, or an order without a saga, is an
-- error and changes nothing.
pub assign_outcome :
    (id driver : String) (db : Db)
    → id ≢ ""
    → driver ≢ ""
    → db.fates ≡ []
    → (find_assignment id db.assignments ≡ none
        → find_order id db.sagas ≢ none
        → assign id driver db ≡ (
          none,
          record db {
            assignments =
                record { order_id = id; driver_id = driver; assigned_at = db.now } ∷ db.assignments;
          },
        ))
      × (find_assignment id db.assignments ≡ none
          → find_order id db.sagas ≡ none
          → assign id driver db ≡ (some db.constraint_error, db))
      × ((a : Assignment)
          → find_assignment id db.assignments ≡ some a
          → assign id driver db ≡ (
            if str_eq a.driver_id driver
                then none
                else some (message "order already assigned to different driver"),
            db,
          ))
unfolding assign exec insert_assignment check_existing query_row select_driver
assign_outcome id driver db ne ne' ok =
    let a = eq_iff id "" in
    let b = eq_iff driver "" in
    (ground (arith, a, b, ok), ground (arith, a, b, ok), λ r old. ground (arith, a, b, ok, old))

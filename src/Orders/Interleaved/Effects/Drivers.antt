-- ===== src/Orders/Interleaved/Effects/Drivers.antt =====
-- The statement of driver_store.go, whatever becomes of it.
use text.Mathlib.TextEquality.{eq_iff}
use text.Mathlib.TextPositions.{eq_refl}
use orders_go.Common.{ℕ, ◌≡◌, ◌≢◌, refl, String, arith, Option-cases, inl, inr}
use orders_go.Orders.Paid.{IsAssigned}
use orders_go.Db.Sql.{Db, rows, exec}
use orders_go.Db.Sql.Runs.{exec-Ran}
use orders_go.Db.Sagas.{find_order}
use orders_go.Db.Drivers.{find_assignment, insert_assignment}
use orders_go.Orders.Interleaved.Effects.{OnlyOf}

pub insert_assignment-OnlyOf :
    (id driver : String) (db : Db) → OnlyOf id db (exec (insert_assignment id driver) db).1
unfolding insert_assignment find_assignment
insert_assignment-OnlyOf id driver db j other = elim (exec-Ran (insert_assignment id driver) db) [
  | inl (e, r) ↦ ground (arith, r)
  | inr (n, d', x, y, _) ↦ ground (arith, x, y, other, eq_iff id j)
]

pub insert_assignment-saga :
    (id driver : String) (db : Db)
    → ((exec (insert_assignment id driver) db).1.sagas ≡ db.sagas)
      × ((exec (insert_assignment id driver) db).1.payments ≡ db.payments)
unfolding insert_assignment
insert_assignment-saga id driver db = elim (exec-Ran (insert_assignment id driver) db) [
  | inl (e, r) ↦ ground (arith, r)
  | inr (n, d', x, y, _) ↦ ground (arith, x, y)
]

pub insert_assignment-IsAssigned :
    (id driver : String) (db : Db) (n : ℕ)
    → (exec (insert_assignment id driver) db).0 ≡ rows n
    → n ≢ 0
    → IsAssigned id driver (exec (insert_assignment id driver) db).1
unfolding insert_assignment find_assignment
insert_assignment-IsAssigned id driver db n counted some_row =
    elim (exec-Ran (insert_assignment id driver) db) [
      | inl (e, r) ↦ absurd (ground (arith, r, counted))
      | inr (m, d', x, y, count) ↦
          let k = count n counted in
          elim (Option-cases (find_assignment id db.assignments)) [
            | inr (p, old) ↦ absurd (ground (arith, x, old, k, some_row))
            | inl new ↦ elim (Option-cases (find_order id db.sagas)) [
              | inl free ↦ absurd (ground (arith, x, new, free))
              | inr (row, there) ↦ record {
                assignment = record { order_id = id; driver_id = driver; assigned_at = db.now };
                assigned = ground (arith, x, y, new, there, eq_refl id);
                assigned_driver = refl;
              }
            ]
          ]
    ]

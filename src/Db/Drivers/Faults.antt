-- ===== src/Db/Drivers/Faults.antt =====
-- driver_store.go, `Assign`, whatever becomes of its statements.
use text.Mathlib.TextEquality.{eq_iff}
use text.Mathlib.TextPositions.{eq_refl}
use orders_go.Common.{ℕ, ◌≡◌, ◌⊎◌, refl, String, none, some, ◌∷◌, arith, Option-cases, inl, inr}
use orders_go.Db.Sql.{Assignment, Db, affected, query_row}
use orders_go.Db.Sql.Runs.{at_turn, exec-Ran}
use orders_go.Db.Sagas.{find_order}
use orders_go.Db.Drivers.{find_assignment, insert_assignment, select_driver, check_existing, assign}

insert_assignment_cases :
    (id driver : String) (db : Db)
    → ((a : Assignment) × (find_assignment id db.assignments ≡ some a)
        × (insert_assignment id driver db ≡ affected 0 db))
      ⊎ ((find_assignment id db.assignments ≡ none)
          × ((n : ℕ) (d' : Db)
              → insert_assignment id driver db ≡ affected n d'
              → (d'.payments ≡ db.payments)
                × (d'.assignments
                    ≡ record { order_id = id; driver_id = driver; assigned_at = db.now }
                      ∷ db.assignments)))
unfolding insert_assignment
insert_assignment_cases id driver db = elim (Option-cases (find_assignment id db.assignments)) [
  | inl new ↦ elim (Option-cases (find_order id db.sagas)) [
    | inl free ↦ inr (new, λ n d' h. absurd (ground arith))
    | inr (row, there) ↦ inr (new, λ n d' h. ground arith)
  ]
  | inr (a, old) ↦ inl (a, old, ground arith)
]

-- An assignment keeps the payments; it returns nil only if the order is the driver's then.
pub assign_under_faults :
    (id driver : String) (db : Db)
    → let (err, db') = assign id driver db in
      (db'.payments ≡ db.payments)
      × (err ≡ none
          → (a : Assignment) × (find_assignment id db'.assignments ≡ some a)
            × (a.driver_id ≡ driver))
unfolding assign check_existing query_row select_driver find_assignment
assign_under_faults id driver db = elim (exec-Ran (insert_assignment id driver) db) [
  | inl (e, r) ↦ (ground (arith, r), λ h. absurd (ground (arith, r)))
  | inr (n, d', x, y, count) ↦ elim (insert_assignment_cases id driver (at_turn db)) [
    | inl (a, old, z) ↦ (
      ground (arith, x, y, z),
      λ h. (
        a,
        ground (arith, x, y, z, old),
        grind (arith, x, y, z, old, count, eq_iff a.driver_id driver),
      ),
    )
    | inr (new, grown) ↦
        let (same, more) = grown n d' x in
        (
          ground (arith, y, same),
          λ h. (
            record { order_id = id; driver_id = driver; assigned_at = db.now },
            ground (arith, y, more, eq_refl id),
            refl,
          ),
        )
  ]
]

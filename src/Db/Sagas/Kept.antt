-- ===== src/Db/Sagas/Kept.antt =====
-- saga_store.go: what the saga's writes leave alone, whatever becomes of them.
use orders_go.Common.{◌≡◌, String, arith, Option-cases, inl, inr}
use orders_go.Db.Sql.{Db}
use orders_go.Db.Sql.Runs.{exec-Ran}
use orders_go.Db.Sagas.{find_order, insert_step, add_step, update_saga, update_status}

-- The same payments and assignments.
abbrev pub IsKept : Db → Db → Type 0
IsKept db db' = (db'.payments ≡ db.payments) × (db'.assignments ≡ db.assignments)

pub add_step-IsKept :
    (id step status detail : String) (db : Db) → IsKept db (add_step id step status detail db).1
unfolding add_step insert_step
add_step-IsKept id step status detail db = elim (exec-Ran (insert_step id step status detail) db) [
  | inl (e, r) ↦ ground (arith, r)
  | inr (n, d', x, y, _) ↦ elim (Option-cases (find_order id db.sagas)) [
    | inl free ↦ absurd (ground (arith, x))
    | inr (row, there) ↦ ground (arith, x, y, there)
  ]
]

pub update_status-IsKept : (id status : String) (db : Db) → IsKept db (update_status id status db).1
unfolding update_status update_saga
update_status-IsKept id status db = elim (exec-Ran (update_saga id status) db) [
  | inl (e, r) ↦ ground (arith, r)
  | inr (n, d', x, y, _) ↦ ground (arith, x, y)
]

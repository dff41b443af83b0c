-- ===== src/Orders/Interleaved/Effects/Sagas.antt =====
-- The statements of saga_store.go on the sagas, whatever becomes of them.
use text.Mathlib.TextEquality.{eq_iff}
use orders_go.Common.{
  ℕ, ◌≡◌, ◌⊎◌, refl, String, none, some, List, [], ◌∷◌, arith, Option-cases, inl, inr,
}
use orders_go.Go.Int64.{Time}
use orders_go.Go.Float64.{Float64}
use mathlib.Core.Option
use orders_go.Orders.Saga.{SagaStatus}
use orders_go.Db.Sql.{SagaRow, Db, rows, exec}
use orders_go.Db.Sql.Runs.{exec-Ran}
use orders_go.Db.Sagas.{find_order, find_key, insert_saga, status_rows, update_saga, new_row}
use orders_go.Db.Sagas.Reread.{updated}
use orders_go.Orders.Interleaved.Effects.{Quiet}

pub find_order-id :
    (j : String) (rs : List SagaRow) (r : SagaRow) → find_order j rs ≡ some r → r.order_id ≡ j
unfolding find_order
find_order-id j [] r h = ground (arith, h)
find_order-id j (s ∷ rs) r h = ground (arith, h, find_order-id j rs r, eq_iff s.order_id j)

-- An update of a saga's status changes its row, or nothing.
pub find_order-status_rows :
    (j id : String) (status : SagaStatus) (now : Time) (rs : List SagaRow)
    → find_order j (status_rows id status now rs).1
      ≡ Option.map (updated id status now) (find_order j rs)
unfolding find_order status_rows
find_order-status_rows j id status now [] = refl
find_order-status_rows j id status now (r ∷ rs) =
    ground (arith, find_order-status_rows j id status now rs)

pub update_saga_rows :
    (j id : String) (status : SagaStatus) (db : Db)
    → let db' = (exec (update_saga id status) db).1 in
      (db'.payments ≡ db.payments)
      × (db'.assignments ≡ db.assignments)
      × ((find_order j db'.sagas ≡ find_order j db.sagas)
          ⊎ (find_order j db'.sagas
              ≡ Option.map (updated id status db.now) (find_order j db.sagas)))
unfolding update_saga
update_saga_rows j id status db = elim (exec-Ran (update_saga id status) db) [
  | inl (e, r) ↦ (ground (arith, r), ground (arith, r), inl (ground (arith, r)))
  | inr (n, d', x, y, _) ↦ (
    ground (arith, x, y),
    ground (arith, x, y),
    inr (ground (arith, x, y, find_order-status_rows j id status db.now db.sagas)),
  )
]

-- What an insert of a saga has done: nothing, and no row is counted; or the row is the first one, the
-- key and the order were free, and it is the one row counted.
pub insert_saga_cases :
    (key id user : String) (a : Float64) (db : Db)
    → let (res, db') = exec (insert_saga key id user a) db in
      (Quiet db db' × ((n : ℕ) → res ≡ rows n → n ≡ 0))
      ⊎ ((find_key key db.sagas ≡ none)
          × (find_order id db.sagas ≡ none)
          × (db'.payments ≡ db.payments)
          × (db'.assignments ≡ db.assignments)
          × (db'.sagas ≡ new_row key id user a db.now ∷ db.sagas)
          × ((n : ℕ) → res ≡ rows n → n ≡ 1))
unfolding insert_saga
insert_saga_cases key id user a db = elim (exec-Ran (insert_saga key id user a) db) [
  | inl (e, r) ↦ inl (ground (arith, r), λ n h. absurd (ground (arith, r, h)))
  | inr (m, d', x, y, count) ↦ elim (Option-cases (find_key key db.sagas)) [
    | inr (r, old) ↦
        inl (ground (arith, x, y, old), λ n h. let k = count n h in ground (arith, x, old, k))
    | inl new ↦ elim (Option-cases (find_order id db.sagas)) [
      | inr (r, taken) ↦ absurd (ground (arith, x, new, taken))
      | inl free ↦ inr (
        new,
        free,
        ground (arith, x, y, new, free),
        ground (arith, x, y, new, free),
        ground (arith, x, y, new, free),
        λ n h. let k = count n h in ground (arith, x, new, free, k),
      )
    ]
  ]
]

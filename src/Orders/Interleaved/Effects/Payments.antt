-- ===== src/Orders/Interleaved/Effects/Payments.antt =====
-- The statements of postgres_payment.go, whatever becomes of them.
use text.Mathlib.TextEquality.{eq_iff}
use text.Mathlib.TextPositions.{eq_refl}
use orders_go.Common.{ℕ, ◌≡◌, ◌≢◌, refl, String, List, arith, Option-cases, inl, inr}
use orders_go.Go.Int64.{Time}
use orders_go.Go.Float64.{Float64}
use orders_go.Orders.Paid.{IsPaid}
use orders_go.Db.Sql.{Payment, Db, rows, exec}
use orders_go.Db.Sql.Runs.{exec-Ran}
use orders_go.Db.Payments.{find_payment, insert_payment, refund_rows, update_refund}
use orders_go.Db.Payments.Laws.{inserted, find-refund_rows, find_payment-id}
use orders_go.Orders.Interleaved.Effects.{OnlyOf}

pub insert_payment-OnlyOf :
    (id : String) (a : Float64) (db : Db) → OnlyOf id db (exec (insert_payment id a) db).1
unfolding insert_payment find_payment
insert_payment-OnlyOf id a db j other = elim (exec-Ran (insert_payment id a) db) [
  | inl (e, r) ↦ ground (arith, r)
  | inr (n, d', x, y, _) ↦ ground (arith, x, y, other, eq_iff id j)
]

pub insert_payment-saga :
    (id : String) (a : Float64) (db : Db) → (exec (insert_payment id a) db).1.sagas ≡ db.sagas
unfolding insert_payment
insert_payment-saga id a db = elim (exec-Ran (insert_payment id a) db) [
  | inl (e, r) ↦ ground (arith, r)
  | inr (n, d', x, y, _) ↦ ground (arith, x, y)
]

mark_other :
    (j id : String) (a : Float64) (now : Time) (ps : List Payment)
    → j ≢ id
    → find_payment j (refund_rows id a now ps).1 ≡ find_payment j ps
mark_other j id a now ps other = elim (Option-cases (find_payment j ps)) [
  | inl gone ↦ ground (arith, gone, find-refund_rows j id a now ps)
  | inr (p, there) ↦ ground (
    arith,
    there,
    other,
    find-refund_rows j id a now ps,
    find_payment-id j ps p there,
    eq_iff p.order_id id,
  )
]

pub update_refund-OnlyOf :
    (id : String) (a : Float64) (db : Db) → OnlyOf id db (exec (update_refund id a) db).1
unfolding update_refund
update_refund-OnlyOf id a db j other = elim (exec-Ran (update_refund id a) db) [
  | inl (e, r) ↦ ground (arith, r)
  | inr (n, d', x, y, _) ↦ ground (arith, x, y, mark_other j id a db.now db.payments other)
]

pub update_refund-saga :
    (id : String) (a : Float64) (db : Db) → (exec (update_refund id a) db).1.sagas ≡ db.sagas
unfolding update_refund
update_refund-saga id a db = elim (exec-Ran (update_refund id a) db) [
  | inl (e, r) ↦ ground (arith, r)
  | inr (n, d', x, y, _) ↦ ground (arith, x, y)
]

pub insert_payment-IsPaid :
    (id : String) (a : Float64) (db : Db) (n : ℕ)
    → (exec (insert_payment id a) db).0 ≡ rows n
    → n ≢ 0
    → IsPaid id a (exec (insert_payment id a) db).1
unfolding insert_payment find_payment
insert_payment-IsPaid id a db n counted some_row = elim (exec-Ran (insert_payment id a) db) [
  | inl (e, r) ↦ absurd (ground (arith, r, counted))
  | inr (m, d', x, y, count) ↦
      let k = count n counted in
      elim (Option-cases (find_payment id db.payments)) [
        | inr (p, old) ↦ absurd (ground (arith, x, old, k, some_row))
        | inl new ↦ record {
          payment = inserted id a db;
          charged = ground (arith, x, y, new, eq_refl id);
          charged_amount = refl;
          not_refunded = refl;
        }
      ]
]

-- ===== src/Db/Payments/Faults.antt =====
-- postgres_payment.go, `Charge` and `Refund`, whatever becomes of its statements.
use text.Mathlib.TextPositions.{eq_refl}
use orders_go.Common.{
  List, ◌∷◌, ◌≡◌, ◌⊎◌, ◌≢◌, refl, String, none, some, is_some, arith, ap, ◌∙◌, false, str_eq,
  Option-cases, Bool-cases, inl, inr,
}
use orders_go.Go.Float64.{Float64}
use orders_go.Go.Errors.{GoError}
use orders_go.Db.Sql.{exec, Fate, lost, Payment, Db, query_row}
use orders_go.Db.Sql.Runs.{exec-Ran}
use orders_go.Db.Payments.{
  insert_payment, charge, find_payment, refund_rows, update_refund, select_refunded, explain_refund,
  refund,
}
use orders_go.Db.Payments.Laws.{
  inserted, IsKeyed, due, Keeps, mark, find-refund_rows, count-refund_rows, find_payment-id,
}

mark-Keeps :
    (id : String) (a : Float64) (db : Db)
    → Keeps db.payments (refund_rows id a db.now db.payments).1
mark-Keeps id a db j p h = (
  mark id a db.now p,
  ground (arith, find-refund_rows j id a db.now db.payments, h),
  ground arith,
  λ r. ground (arith, r),
)

-- What a refund has done to the database, whatever became of its statements.
refund_cases :
    (id : String) (a : Float64) (db : Db)
    → (((refund id a db).0 ≢ none) × ((refund id a db).1.payments ≡ db.payments))
      ⊎ (((refund id a db).1.payments ≡ (refund_rows id a db.now db.payments).1)
          × ((refund id a db).0 ≡ none → (refund_rows id a db.now db.payments).0 ≢ 0))
unfolding refund explain_refund query_row select_refunded update_refund
refund_cases id a db = elim (exec-Ran (update_refund id a) db) [
  | inl (e, r) ↦ inl (ground (arith, r), ground (arith, r))
  | inr (n, d', x, y, count) ↦ elim (Bool-cases (str_eq id "")) [
    | inl blank ↦ inl (ground arith, ground arith)
    | inr named ↦ inr (ground (arith, x, y, named), λ h. grind (arith, x, y, named, count, h))
  ]
]

-- Whatever becomes of its statements, a refund keeps the amount of every payment and every refund
-- that was made; with one payment for each order it returns nil only if the order's payment was not
-- refunded before and is now.
pub refund_under_faults :
    (id : String) (a : Float64) (db : Db)
    → IsKeyed db.payments
    → let (err, db') = refund id a db in
      Keeps db.payments db'.payments
      × (err ≡ none
          → (p : Payment) × (find_payment id db.payments ≡ some p)
            × (is_some p.refunded_at ≡ false)
            × (find_payment id db'.payments
                ≡ some (record p { refund_amount = some a; refunded_at = some db.now })))
refund_under_faults id a db keyed = elim (refund_cases id a db) [
  | inl (refused, same) ↦ (λ j p h. (p, rw same h, refl, λ _. refl), λ h. absurd (refused h))
  | inr (marked, some_row) ↦
      let counted = count-refund_rows id a db.now db.payments keyed in
      let f = find-refund_rows id id a db.now db.payments in
      (
        rw marked (mark-Keeps id a db),
        λ h. elim (Option-cases (find_payment id db.payments)) [
          | inl free ↦ absurd (some_row h (counted ∙ ap due free))
          | inr (p, there) ↦ (
            p,
            there,
            ground (arith, some_row h, counted, there),
            ground (
              arith,
              some_row h,
              counted,
              there,
              marked,
              f,
              find_payment-id id db.payments p there,
              eq_refl id,
            ),
          )
        ],
      )
]

-- A charge whose insert is made while its answer is lost.
pub charge-lost :
    (id : String) (a : Float64) (db : Db) (e : GoError) (fates : List Fate)
    → str_eq id "" ≡ false
    → db.fates ≡ lost e ∷ fates
    → find_payment id db.payments ≡ none
    → charge id a db
      ≡ (some e, record db { payments = inserted id a db ∷ db.payments; fates = fates })
unfolding charge exec insert_payment
charge-lost id a db e fates named next unpaid = ground (arith, named, next, unpaid)

pub find_payment-head :
    (id : String) (a : Float64) (db : Db)
    → find_payment id (inserted id a db ∷ db.payments) ≡ some (inserted id a db)
unfolding find_payment
find_payment-head id a db = ground (arith, eq_refl id)

-- ===== src/Db/Payments.antt =====
-- internal/db/orders/postgres_payment.go, `PostgresPaymentClient`.
pub mod Laws
pub mod Faults
use orders_go.Common.{
  ℕ, suc, ◌+◌, String, Bool, Option, none, some, List, [], ◌∷◌, str_eq, ◌==◌, is_some, ◌&&◌, not,
  if◌then◌else◌,
}
use orders_go.Go.Int64.{Time}
use orders_go.Go.Float64.{Float64}
use orders_go.Go.Errors.{GoError, sentinel, message, Sentinel}
use orders_go.Go.Effects.{M, Action}
use orders_go.Db.Sql.{
  Payment, Db, Effect, affected, Executed, failed, rows, no_count, Scanned, found, no_row,
  scan_failed, exec, query_row,
}

-- The row of an order, which is unique by the primary key.
unfoldable pub find_payment : String → List Payment → Option Payment
find_payment id [] = none
find_payment id (p ∷ ps) = if str_eq p.order_id id then some p else find_payment id ps

-- INSERT INTO payments … ON CONFLICT (order_id) DO NOTHING
unfoldable pub insert_payment : String → Float64 → Db → Effect
insert_payment id amount db = elim (find_payment id db.payments) [
  | some _ ↦ affected 0 db
  | none ↦
      let p : Payment = record {
        order_id = id;
        amount = amount;
        charged_at = db.now;
        refunded_at = none;
        refund_amount = none;
      } in
      affected 1 (record db { payments = p ∷ db.payments })
]

-- WHERE order_id = $1 AND refunded_at IS NULL
abbrev pub is_refundable : String → Payment → Bool
is_refundable id p = str_eq p.order_id id && not (is_some p.refunded_at)

unfoldable pub refund_rows : String → Float64 → Time → List Payment → ℕ × List Payment
refund_rows id amount now [] = (0, [])
refund_rows id amount now (p ∷ ps) =
    let (n, ps') = refund_rows id amount now ps in
    if is_refundable id p
    then (suc n, record p { refund_amount = some amount; refunded_at = some now } ∷ ps')
    else (n, p ∷ ps')

-- UPDATE payments SET refund_amount = $2, refunded_at = NOW() WHERE …
unfoldable pub update_refund : String → Float64 → Db → Effect
update_refund id amount db =
    let (n, ps) = refund_rows id amount db.now db.payments in
    affected n (record db { payments = ps })

-- SELECT refunded_at IS NOT NULL FROM payments WHERE order_id = $1
unfoldable pub select_refunded : String → Db → Option Bool
select_refunded id db = elim (find_payment id db.payments) [
  | none ↦ none
  | some p ↦ some (is_some p.refunded_at)
]

unfoldable pub charge : String → Float64 → Action Db
charge id amount db =
    if str_eq id ""
    then (some (message "order id required"), db)
    else let (res, db') = exec (insert_payment id amount) db in
      elim res [
        | failed e ↦ (some e, db')
        | no_count e ↦ (some e, db')
        | rows n ↦ (if n == 0 then some (sentinel Sentinel.already_charged) else none, db')
      ]

-- The rest of `Refund` where the update affected no row.
unfoldable pub explain_refund : String → Action Db
explain_refund id db =
    let (scanned, db') = query_row (select_refunded id) db in
    elim scanned [
      | found refunded ↦ (
        some (sentinel (if refunded then Sentinel.already_refunded else Sentinel.not_charged)),
        db',
      )
      | no_row ↦ (some (sentinel Sentinel.not_charged), db')
      | scan_failed e ↦ (some e, db')
    ]

unfoldable pub refund : String → Float64 → Action Db
refund id amount db =
    if str_eq id ""
    then (some (message "order id required"), db)
    else let (res, db') = exec (update_refund id amount) db in
      elim res [
        | failed e ↦ (some e, db')
        | no_count e ↦ (some e, db')
        | rows n ↦ if n == 0 then explain_refund id db' else (none, db')
      ]

-- ===== src/Db/Payments/Laws.antt =====
-- postgres_payment.go: `Charge` and `Refund`, with and without faults of the database.
use mathlib.Core.Option
use text.Mathlib.TextEquality.{eq_iff}
use text.Mathlib.TextPositions.{eq_refl}
use orders_go.Common.{
  ◌⊎◌, ℕ, ◌≡◌, ◌≢◌, refl, String, true, false, Option, none, some, List, [], ◌∷◌, str_eq, is_some,
  if◌then◌else◌, arith, Option-cases, Bool-cases, inl, inr,
}
use orders_go.Go.Int64.{Time}
use orders_go.Go.Float64.{Float64}
use orders_go.Go.Errors.{sentinel, Sentinel}
use orders_go.Db.Sql.{Payment, Db, affected, exec, query_row}
use orders_go.Db.Sql.Runs.{at_turn, exec-Ran}
use orders_go.Db.Payments.{
  find_payment, insert_payment, is_refundable, refund_rows, update_refund, select_refunded, charge,
  explain_refund, refund,
}

-- The primary key.
abbrev pub IsKeyed : List Payment → Type 0
IsKeyed [] = Unit
IsKeyed (p ∷ ps) = (find_payment p.order_id ps ≡ none) × IsKeyed ps

-- What an update of `refund` does to one row.
abbrev pub mark : String → Float64 → Time → Payment → Payment
mark id amount now p =
    if is_refundable id p
    then record p { refund_amount = some amount; refunded_at = some now }
    else p

pub find-refund_rows :
    (j id : String) (a : Float64) (now : Time) (ps : List Payment)
    → find_payment j (refund_rows id a now ps).1 ≡ Option.map (mark id a now) (find_payment j ps)
unfolding find_payment refund_rows
find-refund_rows j id a now [] = refl
find-refund_rows j id a now (p ∷ ps) = ground (arith, find-refund_rows j id a now ps)

pub refund_rows-IsKeyed :
    (id : String) (a : Float64) (now : Time) (ps : List Payment)
    → IsKeyed ps
    → IsKeyed (refund_rows id a now ps).1
unfolding refund_rows
refund_rows-IsKeyed id a now [] h = h
refund_rows-IsKeyed id a now (p ∷ ps) h =
    ground (arith, refund_rows-IsKeyed id a now ps h.1, find-refund_rows p.order_id id a now ps)

-- How many rows an update of `refund` counts, by what the primary key finds.
abbrev pub due : Option Payment → ℕ
due none = 0
due (some p) = if is_some p.refunded_at then 0 else 1

pub count-refund_rows :
    (id : String) (a : Float64) (now : Time) (ps : List Payment)
    → IsKeyed ps
    → (refund_rows id a now ps).0 ≡ due (find_payment id ps)
unfolding refund_rows find_payment
count-refund_rows id a now [] h = refl
count-refund_rows id a now (p ∷ ps) h =
    ground (arith, count-refund_rows id a now ps h.1, eq_iff p.order_id id)

-- The row of a new charge.
abbrev pub inserted : String → Float64 → Db → Payment
inserted id a db = record {
  order_id = id;
  amount = a;
  charged_at = db.now;
  refunded_at = none;
  refund_amount = none;
}

-- Without faults a charge of a named order inserts its payment, and an order that has one is told
-- so and keeps it.
pub charge_outcome :
    (id : String) (a : Float64) (db : Db)
    → id ≢ ""
    → db.fates ≡ []
    → (find_payment id db.payments ≡ none
        → charge id a db ≡ (none, record db { payments = inserted id a db ∷ db.payments }))
      × (find_payment id db.payments ≢ none
          → charge id a db ≡ (some (sentinel Sentinel.already_charged), db))
unfolding charge exec insert_payment
charge_outcome id a db ne ok =
    let differs = eq_iff id "" in (ground (arith, differs, ok), ground (arith, differs, ok))

pub find_payment-id :
    (j : String) (ps : List Payment) (p : Payment) → find_payment j ps ≡ some p → p.order_id ≡ j
unfolding find_payment
find_payment-id j [] p h = cc
find_payment-id j (q ∷ ps) p h = ground (arith, find_payment-id j ps p, eq_iff q.order_id j)

refund_rows-none_due :
    (id : String) (a : Float64) (now : Time) (ps : List Payment)
    → (refund_rows id a now ps).0 ≡ 0
    → (refund_rows id a now ps).1 ≡ ps
unfolding refund_rows
refund_rows-none_due id a now [] h = refl
refund_rows-none_due id a now (p ∷ ps) h = ground (arith, refund_rows-none_due id a now ps)

-- Without faults, and with one payment for each order, a refund of a named order marks a payment
-- that stands; without a payment, or after a refund, it changes nothing and says which.
refund_outcome :
    (id : String) (a : Float64) (db : Db)
    → id ≢ ""
    → db.fates ≡ []
    → IsKeyed db.payments
    → (find_payment id db.payments ≡ none
        → refund id a db ≡ (some (sentinel Sentinel.not_charged), db))
      × ((p : Payment)
          → find_payment id db.payments ≡ some p
          → is_some p.refunded_at ≡ true
          → refund id a db ≡ (some (sentinel Sentinel.already_refunded), db))
      × ((p : Payment)
          → find_payment id db.payments ≡ some p
          → is_some p.refunded_at ≡ false
          → ((refund id a db).0 ≡ none)
            × (find_payment id (refund id a db).1.payments
                ≡ some (record p { refund_amount = some a; refunded_at = some db.now })))
unfolding refund exec update_refund explain_refund query_row select_refunded
refund_outcome id a db ne ok keyed =
    let differs = eq_iff id "" in
    let n = count-refund_rows id a db.now db.payments keyed in
    let same = refund_rows-none_due id a db.now db.payments in
    let f = find-refund_rows id id a db.now db.payments in
    (
      ground (arith, differs, ok, n, same),
      λ p e r. ground (arith, differs, ok, n, same, e, r),
      λ p e r. ground (
        arith,
        differs,
        ok,
        n,
        f,
        e,
        r,
        find_payment-id id db.payments p e,
        eq_iff p.order_id id,
      ),
    )

-- What statements may do to the payments that are there: each keeps its amount, and one that is
-- refunded stays as it is.
abbrev pub Keeps : List Payment → List Payment → Type 0
Keeps ps qs =
    (j : String) (p : Payment)
    → find_payment j ps ≡ some p
    → (q : Payment) × (find_payment j qs ≡ some q)
      × (q.amount ≡ p.amount)
      × (is_some p.refunded_at ≡ true → q ≡ p)

insert_payment_cases :
    (id : String) (a : Float64) (db : Db)
    → ((p : Payment) × (find_payment id db.payments ≡ some p)
        × (insert_payment id a db ≡ affected 0 db))
      ⊎ ((find_payment id db.payments ≡ none)
          × (insert_payment id a db
              ≡ affected 1 (record db { payments = inserted id a db ∷ db.payments })))
unfolding insert_payment
insert_payment_cases id a db = elim (Option-cases (find_payment id db.payments)) [
  | inl new ↦ inr (new, rw (new, insert_payment))
  | inr (p, old) ↦ inl (p, old, rw (old, insert_payment))
]

-- What a charge has done to the database, whatever became of its statement.
pub charge_cases :
    (id : String) (a : Float64) (db : Db)
    → (((charge id a db).0 ≢ none) × ((charge id a db).1.payments ≡ db.payments))
      ⊎ ((find_payment id db.payments ≡ none)
          × ((charge id a db).1.payments ≡ inserted id a db ∷ db.payments))
unfolding charge
charge_cases id a db = elim (exec-Ran (insert_payment id a) db) [
  | inl (e, r) ↦ inl (ground (arith, r), ground (arith, r))
  | inr (n, d', x, y, count) ↦ elim (insert_payment_cases id a (at_turn db)) [
    | inl (p, old, z) ↦ inl (grind (arith, x, y, z, count), ground (arith, x, y, z))
    | inr (new, z) ↦ elim (Bool-cases (str_eq id "")) [
      | inl blank ↦ inl (ground arith, ground arith)
      | inr named ↦ inr (new, ground (arith, x, y, z))
    ]
  ]
]

-- Whatever becomes of its statements, a charge keeps the payments that are there, and returns nil
-- only if it has inserted one for the order.
pub charge_under_faults :
    (id : String) (a : Float64) (db : Db)
    → let (err, db') = charge id a db in
      Keeps db.payments db'.payments
      × (IsKeyed db.payments → IsKeyed db'.payments)
      × (err ≡ none
          → (find_payment id db.payments ≡ none)
            × (find_payment id db'.payments ≡ some (inserted id a db)))
unfolding find_payment
charge_under_faults id a db = elim (charge_cases id a db) [
  | inl (refused, same) ↦
      (λ j p h. (p, rw same h, refl, λ _. refl), λ h. rw same h, λ h. absurd (refused h))
  | inr (new, grown) ↦ (
    λ j p h. (p, rw grown (ground (arith, eq_iff id j, new)), refl, λ _. refl),
    λ h. rw grown (new, h),
    λ h. (new, rw grown (ground (arith, eq_refl id))),
  )
]

-- ===== src/Orders/Interleaved/Bound.antt =====
-- How many statements a call of `CreateOrder` runs, whatever the others do between them.
use orders_go.Common.{
  ℕ, zero, suc, String, Bool, true, false, Option, none, some, str_eq, ◌==◌, ◌||◌, not, Bool-cases,
  inl, inr,
}
use orders_go.Go.Float64.{Float64, float_eq}
use orders_go.Go.Errors.{GoError}
use orders_go.Orders.Saga.{SagaRecord}
use orders_go.Orders.Service.{Reply}
use orders_go.Orders.Interleaved.{
  Prog, done, atomic, Attempt, charge_steps, explain_refund_steps, refund_steps,
  check_existing_steps, assign_steps, add_step_steps, update_status_steps, read_back_steps,
  start_steps, compensate_steps, assign_driver_steps, charge_payment_steps, proceed_steps,
  order_steps,
}
use orders_go.Db.Sql.{Db, exec, query_row}
use orders_go.Db.Payments.{insert_payment, update_refund, select_refunded}
use orders_go.Db.Sagas.{insert_saga, select_saga}
use orders_go.Db.Drivers.{insert_assignment, select_driver}
use orders_go.Db.Sql.Runs.{Executed-cases, Scanned-cases}

-- At most so many statements are left, whatever database each of them meets.
abbrev pub IsWithin : {A : Type 0} → ℕ → Prog A → Type 0
IsWithin n (done _) = Unit
IsWithin zero (atomic f k) = ⊥
IsWithin (suc n) (atomic f k) = (db : Db) → IsWithin n (k db)

pub IsWithin-suc : {A : Type 0} (n : ℕ) (p : Prog A) → IsWithin n p → IsWithin (suc n) p
IsWithin-suc n (done _) h = tt
IsWithin-suc zero (atomic f k) h = absurd h
IsWithin-suc (suc n) (atomic f k) h = λ db. IsWithin-suc n (k db) (h db)

-- What follows an operation, where it has failed and where it has not.
IsWithin-either :
    (n : ℕ) (k : Option GoError → Prog Reply)
    → ((e : GoError) → IsWithin n (k (some e)))
    → IsWithin n (k none)
    → (e : Option GoError) → IsWithin n (k e)
IsWithin-either n k bad ok none = ok
IsWithin-either n k bad ok (some e) = bad e

charge_steps-IsWithin :
    (n : ℕ) (id : String) (a : Float64) (k : Option GoError → Prog Reply)
    → ((e : Option GoError) → IsWithin n (k e))
    → IsWithin (suc n) (charge_steps id a k)
unfolding charge_steps
charge_steps-IsWithin n id a k ok = elim (Bool-cases (str_eq id "")) [
  | inl blank ↦ rw blank (IsWithin-suc n (k _) (ok _))
  | inr named ↦ rw named (λ db. elim (Executed-cases (exec (insert_payment id a) db).0) [
    | inl (inl (e, r)) ↦ rw r (ok _)
    | inl (inr (e, r)) ↦ rw r (ok _)
    | inr (m, r) ↦ rw r (ok _)
  ])
]

explain_refund_steps-IsWithin :
    (n : ℕ) (id : String) (k : Option GoError → Prog Reply)
    → ((e : Option GoError) → IsWithin n (k e))
    → IsWithin (suc n) (explain_refund_steps id k)
unfolding explain_refund_steps
explain_refund_steps-IsWithin n id k ok db =
    elim (Scanned-cases (query_row (select_refunded id) db).0) [
      | inl (a, r) ↦ rw r (ok _)
      | inr (inl r) ↦ rw r (ok _)
      | inr (inr (e, r)) ↦ rw r (ok _)
    ]

refund_steps-IsWithin :
    (n : ℕ) (id : String) (a : Float64) (k : Option GoError → Prog Reply)
    → ((e : Option GoError) → IsWithin n (k e))
    → IsWithin (suc (suc n)) (refund_steps id a k)
unfolding refund_steps
refund_steps-IsWithin n id a k ok =
    let more : (e : Option GoError) → IsWithin (suc n) (k e) = λ e. IsWithin-suc n (k e) (ok e) in
    elim (Bool-cases (str_eq id "")) [
      | inl blank ↦ rw blank (IsWithin-suc (suc n) (k _) (more _))
      | inr named ↦ rw named (λ db. elim (Executed-cases (exec (update_refund id a) db).0) [
        | inl (inl (e, r)) ↦ rw r (more _)
        | inl (inr (e, r)) ↦ rw r (more _)
        | inr (m, r) ↦ rw r (elim (Bool-cases (m == 0)) [
          | inl untouched ↦ rw untouched (explain_refund_steps-IsWithin n id k ok)
          | inr refunded ↦ rw refunded (more _)
        ])
      ])
    ]

check_existing_steps-IsWithin :
    (n : ℕ) (id driver : String) (k : Option GoError → Prog Reply)
    → ((e : Option GoError) → IsWithin n (k e))
    → IsWithin (suc n) (check_existing_steps id driver k)
unfolding check_existing_steps
check_existing_steps-IsWithin n id driver k ok db =
    elim (Scanned-cases (query_row (select_driver id) db).0) [
      | inl (a, r) ↦ rw r (ok _)
      | inr (inl r) ↦ rw r (ok _)
      | inr (inr (e, r)) ↦ rw r (ok _)
    ]

assign_steps-IsWithin :
    (n : ℕ) (id driver : String) (k : Option GoError → Prog Reply)
    → ((e : Option GoError) → IsWithin n (k e))
    → IsWithin (suc (suc n)) (assign_steps id driver k)
unfolding assign_steps
assign_steps-IsWithin n id driver k ok =
    let more : (e : Option GoError) → IsWithin (suc n) (k e) = λ e. IsWithin-suc n (k e) (ok e) in
    elim (Bool-cases (str_eq id "" || str_eq driver "")) [
      | inl blank ↦ rw blank (IsWithin-suc (suc n) (k _) (more _))
      | inr named ↦ rw named (λ db.
          elim (Executed-cases (exec (insert_assignment id driver) db).0) [
            | inl (inl (e, r)) ↦ rw r (more _)
            | inl (inr (e, r)) ↦ rw r (more _)
            | inr (m, r) ↦ rw r (elim (Bool-cases (m == 0)) [
              | inl known ↦ rw known (check_existing_steps-IsWithin n id driver k ok)
              | inr new ↦ rw new (more _)
            ])
          ])
    ]

read_back_steps-IsWithin :
    (n m : ℕ) (key user : String) (a : Float64)
    (k : SagaRecord × Bool × Option GoError → Prog Reply)
    → ((r : SagaRecord × Bool × Option GoError) → IsWithin n (k r))
    → IsWithin (suc n) (read_back_steps key user a m k)
unfolding read_back_steps
read_back_steps-IsWithin n m key user a k ok db =
    elim (Scanned-cases (query_row (select_saga key) db).0) [
      | inr (inl r) ↦ rw r (ok _)
      | inr (inr (e, r)) ↦ rw r (ok _)
      | inl (read, r) ↦
          rw r (elim (Bool-cases (not (str_eq read.user_id user) || not (float_eq read.amount a))) [
            | inl conflict ↦ rw conflict (ok _)
            | inr agree ↦ rw agree (ok _)
          ])
    ]

start_steps-IsWithin :
    (n : ℕ) (key id user : String) (a : Float64)
    (k : SagaRecord × Bool × Option GoError → Prog Reply)
    → ((r : SagaRecord × Bool × Option GoError) → IsWithin n (k r))
    → IsWithin (suc (suc n)) (start_steps key id user a k)
unfolding start_steps
start_steps-IsWithin n key id user a k ok db =
    elim (Executed-cases (exec (insert_saga key id user a) db).0) [
      | inl (inl (e, r)) ↦ rw r (IsWithin-suc n (k _) (ok _))
      | inl (inr (e, r)) ↦ rw r (IsWithin-suc n (k _) (ok _))
      | inr (m, r) ↦ rw r (read_back_steps-IsWithin n m key user a k ok)
    ]

module _ (c : Attempt) where
  compensate_steps-IsWithin : (err : GoError) → IsWithin 5 (compensate_steps c err)
  unfolding compensate_steps add_step_steps update_status_steps
  compensate_steps-IsWithin err db =
      refund_steps-IsWithin 2 c.order_id c.amount _
        (IsWithin-either _ _ (λ e d d'. tt) (λ d d'. tt))

  assign_driver_steps-IsWithin : IsWithin 9 (assign_driver_steps c)
  unfolding assign_driver_steps add_step_steps update_status_steps
  assign_driver_steps-IsWithin db =
      assign_steps-IsWithin 6 c.order_id c.driver_id _
        (IsWithin-either _ _ (λ e d. compensate_steps-IsWithin e) (λ d d'. tt))

  charge_payment_steps-IsWithin : IsWithin 12 (charge_payment_steps c)
  unfolding charge_payment_steps add_step_steps update_status_steps
  charge_payment_steps-IsWithin db =
      charge_steps-IsWithin 10 c.order_id c.amount _
        (IsWithin-either _ _ (λ e d d'. tt) (λ d. assign_driver_steps-IsWithin))

  proceed_steps-IsWithin :
      (started : SagaRecord × Bool × Option GoError) → IsWithin 12 (proceed_steps c started)
  unfolding proceed_steps
  proceed_steps-IsWithin (r, created, some e) = tt
  proceed_steps-IsWithin (r, false, none) = tt
  proceed_steps-IsWithin (r, true, none) = charge_payment_steps-IsWithin

  -- A call answers after at most fourteen statements of its own, whatever becomes of them and
  -- whatever other calls do to the database between them.
  pub order_steps-IsWithin : IsWithin 14 (order_steps c)
  unfolding order_steps
  order_steps-IsWithin = elim (Bool-cases (str_eq c.key "")) [
    | inl blank ↦ rw blank tt
    | inr named ↦
        rw named
          (start_steps-IsWithin 12 c.key c.order_id c.user_id c.amount _ proceed_steps-IsWithin)
  ]

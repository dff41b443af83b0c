-- ===== src/Db/Integrity/Statements.antt =====
-- What each statement of the stores does to the tables' constraints, whatever becomes of it.
use mathlib.Core.Path.{subst}
use orders_go.Common.{ℕ, ◌≡◌, ◌≢◌, String, none, ◌∷◌, arith, Option-cases, inl, inr}
use orders_go.Go.Float64.{Float64}
use orders_go.Db.Sql.{Payment, StepRow, Assignment, Db, Effect, affected, exec}
use orders_go.Db.Sql.Runs.{at_turn, exec-Ran}
use orders_go.Db.Payments.{find_payment, insert_payment, refund_rows, update_refund}
use orders_go.Db.Payments.Laws.{refund_rows-IsKeyed}
use orders_go.Db.Sagas.{
  find_key, find_order, new_row, insert_saga, status_rows, update_saga, insert_step,
}
use orders_go.Db.Drivers.{find_assignment, insert_assignment}
use orders_go.Db.Integrity.{IsIntact, IsOpen}
use orders_go.Db.Integrity.Rows.{
  HaveOrders-kept, refund_rows-HaveOrders, HaveSagas-kept, AreAssigned-kept, find_order-cons,
  is_some-find_order-status_rows, status_rows-AreUnique,
}

-- What a statement makes of tables that keep the constraints keeps them.
abbrev pub KeepsIntact : (Db → Effect) → Db → Type 0
KeepsIntact statement d = (n : ℕ) (d' : Db) → statement d ≡ affected n d' → IsIntact d → IsIntact d'

pub exec-IsIntact :
    (statement : Db → Effect) (db : Db)
    → KeepsIntact statement (at_turn db)
    → IsIntact db
    → IsIntact (exec statement db).1
exec-IsIntact statement db keeps h = elim (exec-Ran statement db) [
  | inl (e, r) ↦ rw r h
  | inr (n, d', x, y, _) ↦ rw y (keeps n d' x h)
]

pub insert_payment-KeepsIntact :
    (id : String) (a : Float64) (d : Db) → IsOpen id d → KeepsIntact (insert_payment id a) d
unfolding insert_payment
insert_payment-KeepsIntact id a d there n d' x h =
    elim (Option-cases (find_payment id d.payments)) [
      | inr (p, old) ↦ let same : d ≡ d' = ground (arith, old) in subst IsIntact same h
      | inl new ↦
          let p : Payment = record {
            order_id = id;
            amount = a;
            charged_at = d.now;
            refunded_at = none;
            refund_amount = none;
          } in
          let same : record d { payments = p ∷ d.payments } ≡ d' = ground (arith, new) in
          subst IsIntact same (record {
            payments_keyed = (new, h.payments_keyed);
            payments_refer = (there, h.payments_refer);
            sagas_unique = h.sagas_unique;
            steps_refer = h.steps_refer;
            assignments_refer = h.assignments_refer;
          })
    ]

pub update_refund-KeepsIntact :
    (id : String) (a : Float64) (d : Db) → KeepsIntact (update_refund id a) d
unfolding update_refund
update_refund-KeepsIntact id a d n d' x h =
    let same : record d { payments = (refund_rows id a d.now d.payments).1 } ≡ d' = ground arith in
    subst IsIntact same (record {
      payments_keyed = refund_rows-IsKeyed id a d.now d.payments h.payments_keyed;
      payments_refer = refund_rows-HaveOrders d.sagas id a d.now d.payments h.payments_refer;
      sagas_unique = h.sagas_unique;
      steps_refer = h.steps_refer;
      assignments_refer = h.assignments_refer;
    })

pub insert_saga-KeepsIntact :
    (key id user : String) (a : Float64) (d : Db) → KeepsIntact (insert_saga key id user a) d
unfolding insert_saga
insert_saga-KeepsIntact key id user a d n d' x h = elim (Option-cases (find_key key d.sagas)) [
  | inr (r, old) ↦ let same : d ≡ d' = ground (arith, old) in subst IsIntact same h
  | inl new ↦ elim (Option-cases (find_order id d.sagas)) [
    | inr (r, taken) ↦ absurd (ground (arith, new, taken))
    | inl free ↦
        let r = new_row key id user a d.now in
        let same : record d { sagas = r ∷ d.sagas } ≡ d' = ground (arith, new, free) in
        subst IsIntact same (record {
          payments_keyed = h.payments_keyed;
          payments_refer =
              HaveOrders-kept d.sagas (r ∷ d.sagas) (find_order-cons r d.sagas) d.payments
                h.payments_refer;
          sagas_unique = (new, free, h.sagas_unique);
          steps_refer =
              HaveSagas-kept d.sagas (r ∷ d.sagas) (find_order-cons r d.sagas) d.steps
                h.steps_refer;
          assignments_refer =
              AreAssigned-kept d.sagas (r ∷ d.sagas) (find_order-cons r d.sagas) d.assignments
                h.assignments_refer;
        })
  ]
]

pub update_saga-KeepsIntact : (id status : String) (d : Db) → KeepsIntact (update_saga id status) d
unfolding update_saga
update_saga-KeepsIntact id status d n d' x h =
    let rs = (status_rows id status d.now d.sagas).1 in
    let same : record d { sagas = rs } ≡ d' = ground arith in
    let kept : (j : String) → find_order j d.sagas ≢ none → find_order j rs ≢ none =
      λ j there. ground (arith, there, is_some-find_order-status_rows id status d.now j d.sagas) in
    subst IsIntact same (record {
      payments_keyed = h.payments_keyed;
      payments_refer = HaveOrders-kept d.sagas rs kept d.payments h.payments_refer;
      sagas_unique = status_rows-AreUnique id status d.now d.sagas h.sagas_unique;
      steps_refer = HaveSagas-kept d.sagas rs kept d.steps h.steps_refer;
      assignments_refer = AreAssigned-kept d.sagas rs kept d.assignments h.assignments_refer;
    })

pub insert_step-KeepsIntact :
    (id step t detail : String) (d : Db) → KeepsIntact (insert_step id step t detail) d
unfolding insert_step
insert_step-KeepsIntact id step t detail d n d' x h = elim (Option-cases (find_order id d.sagas)) [
  | inl free ↦ absurd (ground (arith, free))
  | inr (r, there) ↦
      let row : StepRow = record {
        order_id = id;
        step = step;
        status = t;
        detail = detail;
        created_at = d.now;
      } in
      let same : record d { steps = row ∷ d.steps } ≡ d' = ground (arith, there) in
      let refers : find_order id d.sagas ≢ none = ground (arith, there) in
      subst IsIntact same (record {
        payments_keyed = h.payments_keyed;
        payments_refer = h.payments_refer;
        sagas_unique = h.sagas_unique;
        steps_refer = (refers, h.steps_refer);
        assignments_refer = h.assignments_refer;
      })
]

pub insert_assignment-KeepsIntact :
    (id driver : String) (d : Db) → KeepsIntact (insert_assignment id driver) d
unfolding insert_assignment
insert_assignment-KeepsIntact id driver d n d' x h =
    elim (Option-cases (find_assignment id d.assignments)) [
      | inr (a, old) ↦ let same : d ≡ d' = ground (arith, old) in subst IsIntact same h
      | inl new ↦ elim (Option-cases (find_order id d.sagas)) [
        | inl free ↦ absurd (ground (arith, new, free))
        | inr (r, there) ↦
            let a : Assignment = record {
              order_id = id;
              driver_id = driver;
              assigned_at = d.now;
            } in
            let same : record d { assignments = a ∷ d.assignments } ≡ d' =
              ground (arith, new, there) in
            let refers : find_order id d.sagas ≢ none = ground (arith, there) in
            subst IsIntact same (record {
              payments_keyed = h.payments_keyed;
              payments_refer = h.payments_refer;
              sagas_unique = h.sagas_unique;
              steps_refer = h.steps_refer;
              assignments_refer = (new, refers, h.assignments_refer);
            })
      ]
    ]

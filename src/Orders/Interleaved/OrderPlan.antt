-- ===== src/Orders/Interleaved/OrderPlan.antt =====
-- A call of `CreateOrder` is as it should be, statement by statement, before it has a saga and on.
use mathlib.Core.Path.{subst}
use text.Mathlib.TextEquality.{eq_iff}
use orders_go.Common.{
  ◌≡◌, refl, ap, String, true, some, str_eq, ◌||◌, not, arith, Option-cases, Bool-cases, inl, inr,
}
use orders_go.Go.Float64.{float_eq}
use orders_go.Go.Errors.{GoError}
use orders_go.Orders.Saga.{failed_pending, refunded_pending, status_succeeded}
use orders_go.Orders.Service.{replayed}
use orders_go.Orders.Interleaved.{
  done, Attempt, compensate_steps, assign_driver_steps, charge_payment_steps, read_back_steps,
  start_steps, proceed_steps, order_steps,
}
use orders_go.Orders.Interleaved.Effects.{query_row-Quiet}
use orders_go.Orders.Interleaved.Stages.{Stage, outside, opened, paid, assigned, finished, owns, Ok}
use orders_go.Orders.Interleaved.Moves.{find_order-find_key, Quiet-Moves}
use orders_go.Orders.Interleaved.StartMoves.{outside-Moves, replay-Moves, insert-Moves}
use orders_go.Orders.Interleaved.Plans.{
  query_row-IsIntact, add_step_steps-Ok, update_status_steps-Ok, success_steps-Ok,
}
use orders_go.Orders.Interleaved.Plans.Payments.{charge_steps-Ok, refund_steps-Ok}
use orders_go.Orders.Interleaved.Plans.Assignment.{assign_steps-Ok}
use orders_go.Db.Sql.{exec, query_row}
use orders_go.Db.Sql.Runs.{Executed-cases, Scanned-cases, query_row-found}
use orders_go.Db.Sagas.{find_key, select_saga, insert_saga}

module _ (c : Attempt) where
  -- A call that has failed returns its error.
  returns_error : (o : String) (e : GoError) (st : Stage) → Ok c (done (o, some e)) st
  returns_error o e st h = absurd (ground (arith, h))

  compensate_steps-Ok :
      (st : Stage) (err : GoError) → owns st ≡ true → Ok c (compensate_steps c err) st
  unfolding compensate_steps
  compensate_steps-Ok st err o = add_step_steps-Ok c st _ _ _ _ o (
      refund_steps-Ok c st _ o
        (λ st' r o'.
          add_step_steps-Ok c st' _ _ _ _ o'
            (update_status_steps-Ok c st' _ _ failed_pending o' (returns_error _ _ opened)))
        (add_step_steps-Ok c opened _ _ _ _ refl
          (update_status_steps-Ok c opened _ _ refunded_pending refl (returns_error _ _ opened))))

  module _ (num : float_eq c.amount c.amount ≡ true) where
    assign_driver_steps-Ok : Ok c (assign_driver_steps c) paid
    unfolding assign_driver_steps
    assign_driver_steps-Ok = add_step_steps-Ok c paid _ _ _ _ refl (
        assign_steps-Ok c _
          (λ err. add_step_steps-Ok c paid _ _ _ _ refl (compensate_steps-Ok paid err refl))
          (add_step_steps-Ok c assigned _ _ _ _ refl (success_steps-Ok c num)))

    charge_payment_steps-Ok : Ok c (charge_payment_steps c) opened
    unfolding charge_payment_steps
    charge_payment_steps-Ok = add_step_steps-Ok c opened _ _ _ _ refl (
        charge_steps-Ok c _
          (λ err.
            add_step_steps-Ok c opened _ _ _ _ refl
              (update_status_steps-Ok c opened _ _ failed_pending refl (returns_error _ _ opened)))
          (add_step_steps-Ok c paid _ _ _ _ refl assign_driver_steps-Ok))

  -- The reading of the call's own saga, which the insert has counted.
  read_own-Ok : Ok c (read_back_steps c.key c.user_id c.amount 1 (proceed_steps c)) opened
  unfolding read_back_steps proceed_steps select_saga
  read_own-Ok db intact settled mine =
      let select = select_saga c.key in
      let known : find_key c.key db.sagas ≡ some mine.row =
        subst (λ key. find_key key db.sagas ≡ some mine.row) mine.same_key
          (find_order-find_key c.order_id db.sagas mine.row intact.sagas_unique mine.there) in
      (
        opened,
        Quiet-Moves c opened db _ refl (query_row-Quiet select db)
            (query_row-IsIntact select db intact) settled mine,
        elim (Scanned-cases (query_row select db).0) [
          | inr (inl r) ↦ rw r (returns_error _ _ opened)
          | inr (inr (e, r)) ↦ rw r (returns_error _ _ opened)
          | inl (read, r) ↦
              rw r
                (elim (Bool-cases
                  (not (str_eq read.user_id c.user_id) || not (float_eq read.amount c.amount))) [
                    | inl conflict ↦ rw conflict (returns_error _ _ opened)
                    | inr agree ↦
                        let there = query_row-found select db read r in
                        let num : float_eq c.amount c.amount ≡ true =
                          ground (arith, there, known, agree, mine.same_amount) in
                        rw agree (charge_payment_steps-Ok num)
                  ])
        ],
      )

  -- The reading of another's saga.
  read_other-Ok : Ok c (read_back_steps c.key c.user_id c.amount 0 (proceed_steps c)) outside
  unfolding read_back_steps proceed_steps select_saga replayed
  read_other-Ok db intact settled h =
      let select = select_saga c.key in
      let quiet = query_row-Quiet select db in
      let intact' = query_row-IsIntact select db intact in
      let stays = outside-Moves c db (query_row select db).1 quiet intact' settled in
      elim (Scanned-cases (query_row select db).0) [
        | inr (inl r) ↦ rw r (outside, stays, returns_error _ _ outside)
        | inr (inr (e, r)) ↦ rw r (outside, stays, returns_error _ _ outside)
        | inl (read, r) ↦
            rw r
              (elim (Bool-cases
                (not (str_eq read.user_id c.user_id) || not (float_eq read.amount c.amount))) [
                  | inl conflict ↦ rw conflict (outside, stays, returns_error _ _ outside)
                  | inr agree ↦ rw agree (elim (Bool-cases (str_eq read.status status_succeeded)) [
                    | inr other ↦ rw other (outside, stays, returns_error _ _ outside)
                    | inl won ↦ rw won (elim (Option-cases (find_key c.key db.sagas)) [
                      | inl gone ↦ absurd (ground (arith, gone, query_row-found select db read r))
                      | inr (row, known) ↦
                          let there = query_row-found select db read r in
                          let (d, moves) =
                            replay-Moves c db (query_row select db).1 row quiet intact intact'
                              settled known
                              (ground
                                (arith, known, there, won, eq_iff read.status status_succeeded))
                              (ground (arith, known, there, agree)) in
                          let same : row.order_id ≡ read.order_id = ground (arith, known, there) in
                          (
                            finished row.order_id d row.amount,
                            moves,
                            λ _. (d, row.amount, ap (λ o. finished o d row.amount) same),
                          )
                    ])
                  ])
                ])
      ]

  -- A call with no statement run has no saga yet, and is as it should be.
  pub order_steps-Ok : Ok c (order_steps c) outside
  unfolding order_steps start_steps proceed_steps
  order_steps-Ok = elim (Bool-cases (str_eq c.key "")) [
    | inl blank ↦ rw blank (returns_error _ _ outside)
    | inr named ↦ rw named (λ db intact settled h. elim (insert-Moves c db intact settled) [
      | inl (moves, count) ↦
          elim (Executed-cases (exec (insert_saga c.key c.order_id c.user_id c.amount) db).0) [
            | inl (inl (e, r)) ↦ rw r (outside, moves, returns_error _ _ outside)
            | inl (inr (e, r)) ↦ rw r (outside, moves, returns_error _ _ outside)
            | inr (n, r) ↦ rw r (rw (count n r) (outside, moves, read_other-Ok))
          ]
      | inr (moves, count) ↦
          elim (Executed-cases (exec (insert_saga c.key c.order_id c.user_id c.amount) db).0) [
            | inl (inl (e, r)) ↦ rw r (opened, moves, returns_error _ _ opened)
            | inl (inr (e, r)) ↦ rw r (opened, moves, returns_error _ _ opened)
            | inr (n, r) ↦ rw r (rw (count n r) (opened, moves, read_own-Ok))
          ]
    ])
  ]

-- ===== src/Orders/Interleaved/Plans/Payments.antt =====
-- The same for the charge and the refund.
use orders_go.Common.{
  ◌≡◌, refl, true, Option, none, some, str_eq, ◌==◌, arith, Bool-cases, inl, inr,
}
use orders_go.Go.Errors.{GoError}
use orders_go.Orders.Service.{Reply}
use orders_go.Orders.Interleaved.{Prog, Attempt, charge_steps, explain_refund_steps, refund_steps}
use orders_go.Orders.Interleaved.Effects.{query_row-Quiet}
use orders_go.Orders.Interleaved.Effects.Payments.{
  insert_payment-OnlyOf, insert_payment-saga, update_refund-OnlyOf, update_refund-saga,
  insert_payment-IsPaid,
}
use orders_go.Orders.Interleaved.Stages.{Stage, opened, paid, owns, Ok}
use orders_go.Orders.Interleaved.Moves.{Holds-IsMine, owner-Moves, Quiet-Moves}
use orders_go.Db.Sql.{exec, query_row}
use orders_go.Db.Sql.Runs.{at_turn, Executed-cases, Scanned-cases}
use orders_go.Db.Payments.{insert_payment, update_refund, select_refunded}
use orders_go.Db.Integrity.Statements.{
  exec-IsIntact, insert_payment-KeepsIntact, update_refund-KeepsIntact,
}
use orders_go.Orders.Interleaved.Plans.{query_row-IsIntact, IsMine-sagas, IsMine-IsOpen}

module _ (c : Attempt) where
  pub charge_steps-Ok :
      (k : Option GoError → Prog Reply)
      → ((e : GoError) → Ok c (k (some e)) opened)
      → Ok c (k none) paid
      → Ok c (charge_steps c.order_id c.amount k) opened
  unfolding charge_steps
  charge_steps-Ok k bad ok = elim (Bool-cases (str_eq c.order_id "")) [
    | inl blank ↦ rw blank (bad _)
    | inr named ↦ rw named (λ db intact settled mine.
        let db' = (exec (insert_payment c.order_id c.amount) db).1 in
        let only = insert_payment-OnlyOf c.order_id c.amount db in
        let mine' = IsMine-sagas c db db' (insert_payment-saga c.order_id c.amount db) mine in
        let intact' =
          exec-IsIntact (insert_payment c.order_id c.amount) db
            (insert_payment-KeepsIntact c.order_id c.amount (at_turn db) (IsMine-IsOpen c db mine))
            intact in
        let moves = owner-Moves c opened opened db db' refl refl intact' only settled mine' in
        elim (Executed-cases (exec (insert_payment c.order_id c.amount) db).0) [
          | inl (inl (e, r)) ↦ rw r (opened, moves, bad e)
          | inl (inr (e, r)) ↦ rw r (opened, moves, bad e)
          | inr (n, r) ↦ rw r (elim (Bool-cases (n == 0)) [
            | inl none_new ↦ rw none_new (opened, moves, bad _)
            | inr some_new ↦
                let paid_ =
                  insert_payment-IsPaid c.order_id c.amount db n r (ground (arith, some_new)) in
                rw some_new (
                  paid,
                  owner-Moves c opened paid db db' refl refl intact' only settled (mine', paid_),
                  ok,
                )
          ])
        ])
  ]

  explain_refund_steps-Ok :
      (st : Stage) (k : Option GoError → Prog Reply)
      → owns st ≡ true
      → ((e : GoError) → Ok c (k (some e)) st)
      → Ok c (explain_refund_steps c.order_id k) st
  unfolding explain_refund_steps
  explain_refund_steps-Ok st k o ok db intact settled h = (
    st,
    Quiet-Moves c st db _ o (query_row-Quiet (select_refunded c.order_id) db)
        (query_row-IsIntact (select_refunded c.order_id) db intact) settled h,
    elim (Scanned-cases (query_row (select_refunded c.order_id) db).0) [
      | inl (refunded, r) ↦ rw r (ok _)
      | inr (inl r) ↦ rw r (ok _)
      | inr (inr (e, r)) ↦ rw r (ok _)
    ],
  )

  -- A refund ends the payment, and the call goes on with its saga alone, or stays where it is.
  pub refund_steps-Ok :
      (st : Stage) (k : Option GoError → Prog Reply)
      → owns st ≡ true
      → ((st' : Stage) (e : GoError) → owns st' ≡ true → Ok c (k (some e)) st')
      → Ok c (k none) opened
      → Ok c (refund_steps c.order_id c.amount k) st
  unfolding refund_steps
  refund_steps-Ok st k o bad ok = elim (Bool-cases (str_eq c.order_id "")) [
    | inl blank ↦ rw blank (bad st _ o)
    | inr named ↦ rw named (λ db intact settled h.
        let db' = (exec (update_refund c.order_id c.amount) db).1 in
        let mine' =
          IsMine-sagas c db db' (update_refund-saga c.order_id c.amount db)
            (Holds-IsMine c st db o h) in
        let intact' =
          exec-IsIntact (update_refund c.order_id c.amount) db
            (update_refund-KeepsIntact c.order_id c.amount (at_turn db)) intact in
        let moves =
          owner-Moves c st opened db db' o refl intact'
            (update_refund-OnlyOf c.order_id c.amount db) settled mine' in
        elim (Executed-cases (exec (update_refund c.order_id c.amount) db).0) [
          | inl (inl (e, r)) ↦ rw r (opened, moves, bad opened _ refl)
          | inl (inr (e, r)) ↦ rw r (opened, moves, bad opened _ refl)
          | inr (n, r) ↦ rw r (elim (Bool-cases (n == 0)) [
            | inl untouched ↦
                rw untouched
                  (opened, moves, explain_refund_steps-Ok opened k refl (λ e. bad opened e refl))
            | inr refunded ↦ rw refunded (opened, moves, ok)
          ])
        ])
  ]

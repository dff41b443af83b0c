-- ===== src/Orders/Interleaved/Plans/Assignment.antt =====
-- The same for the assignment of a driver.
use text.Mathlib.TextEquality.{eq_iff}
use orders_go.Common.{
  refl, Option, none, some, str_eq, ◌==◌, ◌||◌, arith, Option-cases, Bool-cases, inl, inr,
}
use orders_go.Go.Errors.{GoError}
use orders_go.Orders.Paid.{IsAssigned, IsPaid-IsAssigned}
use orders_go.Orders.Service.{Reply}
use orders_go.Orders.Interleaved.{Prog, Attempt, check_existing_steps, assign_steps}
use orders_go.Orders.Interleaved.Effects.{Quiet-SameRows, query_row-Quiet}
use orders_go.Orders.Interleaved.Effects.Drivers.{
  insert_assignment-OnlyOf, insert_assignment-saga, insert_assignment-IsAssigned,
}
use orders_go.Orders.Interleaved.Stages.{paid, assigned, Ok, IsMine-same, IsDone-same}
use orders_go.Orders.Interleaved.Moves.{owner-Moves, Quiet-Moves}
use orders_go.Db.Sql.{exec, query_row}
use orders_go.Db.Sql.Runs.{at_turn, Executed-cases, Scanned-cases, query_row-found}
use orders_go.Db.Drivers.{insert_assignment, select_driver, find_assignment}
use orders_go.Db.Integrity.Statements.{exec-IsIntact, insert_assignment-KeepsIntact}
use orders_go.Orders.Interleaved.Plans.{query_row-IsIntact, IsMine-sagas, IsPaid-payments}

module _ (c : Attempt) where
  check_existing_steps-Ok :
      (k : Option GoError → Prog Reply)
      → ((e : GoError) → Ok c (k (some e)) paid)
      → Ok c (k none) assigned
      → Ok c (check_existing_steps c.order_id c.driver_id k) paid
  unfolding check_existing_steps select_driver
  check_existing_steps-Ok k bad ok db intact settled (mine, paid_) =
      let select = select_driver c.order_id in
      let quiet = query_row-Quiet select db in
      let intact' = query_row-IsIntact select db intact in
      let db' = (query_row select db).1 in
      let moves = Quiet-Moves c paid db db' refl quiet intact' settled (mine, paid_) in
      let same = Quiet-SameRows c.order_id db db' quiet in
      elim (Scanned-cases (query_row select db).0) [
        | inr (inl r) ↦ rw r (paid, moves, bad _)
        | inr (inr (e, r)) ↦ rw r (paid, moves, bad _)
        | inl (driver, r) ↦ rw r (elim (Bool-cases (str_eq driver c.driver_id)) [
          | inr other ↦ rw other (paid, moves, bad _)
          | inl mine_too ↦
              let there = query_row-found select db driver r in
              elim (Option-cases (find_assignment c.order_id db.assignments)) [
                | inl gone ↦ absurd (ground (arith, gone, there))
                | inr (a, at) ↦
                    let assigned_ : IsAssigned c.order_id c.driver_id db = record {
                      assignment = a;
                      assigned = at;
                      assigned_driver =
                          ground (arith, at, there, mine_too, eq_iff driver c.driver_id);
                    } in
                    let done_ =
                      IsPaid-IsAssigned c.order_id c.driver_id c.amount db paid_ assigned_ in
                    rw mine_too (
                      assigned,
                      owner-Moves c paid assigned db db' refl refl intact'
                          (λ j _. Quiet-SameRows j db db' quiet) settled
                          (
                            IsMine-same c db db' same mine,
                            IsDone-same c.order_id c.driver_id c.amount db db' same done_,
                          ),
                      ok,
                    )
              ]
        ])
      ]

  pub assign_steps-Ok :
      (k : Option GoError → Prog Reply)
      → ((e : GoError) → Ok c (k (some e)) paid)
      → Ok c (k none) assigned
      → Ok c (assign_steps c.order_id c.driver_id k) paid
  unfolding assign_steps
  assign_steps-Ok k bad ok = elim (Bool-cases (str_eq c.order_id "" || str_eq c.driver_id "")) [
    | inl blank ↦ rw blank (bad _)
    | inr named ↦ rw named (λ db intact settled h.
        let db' = (exec (insert_assignment c.order_id c.driver_id) db).1 in
        let (sagas_same, payments_same) = insert_assignment-saga c.order_id c.driver_id db in
        let only = insert_assignment-OnlyOf c.order_id c.driver_id db in
        let mine' = IsMine-sagas c db db' sagas_same h.0 in
        let paid' = IsPaid-payments c db db' payments_same h.1 in
        let intact' =
          exec-IsIntact (insert_assignment c.order_id c.driver_id) db
            (insert_assignment-KeepsIntact c.order_id c.driver_id (at_turn db)) intact in
        let moves = owner-Moves c paid paid db db' refl refl intact' only settled (mine', paid') in
        elim (Executed-cases (exec (insert_assignment c.order_id c.driver_id) db).0) [
          | inl (inl (e, r)) ↦ rw r (paid, moves, bad e)
          | inl (inr (e, r)) ↦ rw r (paid, moves, bad e)
          | inr (n, r) ↦ rw r (elim (Bool-cases (n == 0)) [
            | inl none_new ↦ rw none_new (paid, moves, check_existing_steps-Ok k bad ok)
            | inr some_new ↦
                let assigned_ =
                  insert_assignment-IsAssigned c.order_id c.driver_id db n r
                    (ground (arith, some_new)) in
                let done_ = IsPaid-IsAssigned c.order_id c.driver_id c.amount db' paid' assigned_ in
                rw some_new (
                  assigned,
                  owner-Moves c paid assigned db db' refl refl intact' only settled (mine', done_),
                  ok,
                )
          ])
        ])
  ]

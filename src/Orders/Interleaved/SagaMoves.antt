-- ===== src/Orders/Interleaved/SagaMoves.antt =====
-- What the statements on the saga do at their stages: the insert, the reading and the status.
use mathlib.Core.Option
use mathlib.Core.Path.{subst}
use text.Mathlib.TextEquality.{eq_iff}
use text.Mathlib.TextPositions.{eq_refl}
use orders_go.Common.{◌≡◌, ◌≢◌, ◌⊎◌, refl, ap, sym, ◌∙◌, true, some, arith, Option-cases, inl, inr}
use orders_go.Go.Float64.{float_eq}
use orders_go.Orders.Saga.{SagaStatus, status_succeeded}
use orders_go.Orders.Paid.{IsDone, IsDone-kept}
use orders_go.Orders.Interleaved.{Attempt}
use orders_go.Orders.Interleaved.Effects.{OnlyOf}
use orders_go.Orders.Interleaved.Effects.Sagas.{find_order-id, update_saga_rows}
use orders_go.Orders.Interleaved.Stages.{
  Stage, opened, assigned, finished, owns, IsMine, Holds, AreSettled, Moves,
}
use orders_go.Orders.Interleaved.Moves.{OnlyOf-AreSettled, Holds-IsMine, owner-Moves}
use orders_go.Db.Sql.{SagaRow, Db, exec}
use orders_go.Db.Sql.Runs.{at_turn}
use orders_go.Db.Sagas.{find_order, update_saga}
use orders_go.Db.Sagas.Reread.{updated}
use orders_go.Db.Payments.{find_payment}
use orders_go.Db.Drivers.{find_assignment}
use orders_go.Db.Integrity.{IsIntact}
use orders_go.Db.Integrity.Statements.{exec-IsIntact, update_saga-KeepsIntact}

module _ (c : Attempt) (status : SagaStatus) (db : Db) where
  abbrev after : Db
  after = (exec (update_saga c.order_id status) db).1

  update_saga-OnlyOf : OnlyOf c.order_id db after
  update_saga-OnlyOf j other =
      let (payments_same, assignments_same, sagas_same) = update_saga_rows j c.order_id status db in
      record {
        payment_same = ap (find_payment j) payments_same;
        assignment_same = ap (find_assignment j) assignments_same;
        saga_same = elim sagas_same [
          | inl same ↦ same
          | inr changed ↦ elim (Option-cases (find_order j db.sagas)) [
            | inl gone ↦ ground (arith, gone, changed)
            | inr (r, there) ↦ ground (
              arith,
              there,
              changed,
              other,
              find_order-id j db.sagas r there,
              eq_iff r.order_id c.order_id,
            )
          ]
        ];
      }

  -- The call's saga after it: the same but for the status.
  update_saga-mine :
      (h : IsMine c db)
      → (r : SagaRow) × (find_order c.order_id after.sagas ≡ some r)
        × (r.idempotency_key ≡ c.key)
        × (r.amount ≡ c.amount)
        × ((r.status ≡ h.row.status) ⊎ (r.status ≡ status))
  update_saga-mine h = elim (update_saga_rows c.order_id c.order_id status db).2 [
    | inl same ↦ (h.row, same ∙ h.there, h.same_key, h.same_amount, inl refl)
    | inr changed ↦
        let own = find_order-id c.order_id db.sagas h.row h.there in
        (
          updated c.order_id status db.now h.row,
          changed ∙ ap (Option.map (updated c.order_id status db.now)) h.there,
          ground (arith, h.same_key),
          ground (arith, h.same_amount),
          inr (ground (arith, own, eq_refl c.order_id)),
        )
  ]

  update_saga-IsIntact : IsIntact db → IsIntact after
  update_saga-IsIntact h =
      exec-IsIntact (update_saga c.order_id status) db
        (update_saga-KeepsIntact c.order_id status (at_turn db)) h

  -- A status other than success leaves the saga pending.
  pub status-Moves :
      (st : Stage)
      → status ≢ status_succeeded
      → owns st ≡ true
      → IsIntact db
      → AreSettled db
      → Holds c st db
      → Moves c st db opened after
  status-Moves st other o intact settled h =
      let mine = Holds-IsMine c st db o h in
      let (r, there, same_key, same_amount, status_of) = update_saga-mine mine in
      let mine' : IsMine c after = record {
        row = r;
        there = there;
        same_key = same_key;
        same_amount = same_amount;
        pending = elim status_of [
          | inl same ↦ λ won. mine.pending (sym same ∙ won)
          | inr new ↦ λ won. other (sym new ∙ won)
        ];
      } in
      owner-Moves c st opened db after o refl (update_saga-IsIntact intact) update_saga-OnlyOf
        settled mine'

  -- Once the driver is assigned, the call goes on to its reply.
  pub success-Moves :
      float_eq c.amount c.amount ≡ true
      → IsIntact db
      → AreSettled db
      → Holds c assigned db
      → Moves c assigned db (finished c.order_id c.driver_id c.amount) after
  success-Moves num intact settled (mine, done_) =
      let (r, there, same_key, same_amount, _) = update_saga-mine mine in
      let (payments_same, assignments_same, _) = update_saga_rows c.order_id c.order_id status db in
      let done' : IsDone c.order_id c.driver_id c.amount after =
        IsDone-kept c.order_id c.driver_id c.amount db after (payments_same, assignments_same)
          done_ in
      record {
        intact = update_saga-IsIntact intact;
        settled =
            OnlyOf-AreSettled c.order_id db after update_saga-OnlyOf
              (λ r' there' won. (
                c.driver_id,
                subst (λ a. IsDone c.order_id c.driver_id a after)
                    (ground (arith, there, there', same_amount)) done',
              ))
              settled;
        holds = (num, record { row = r; there = there; same_key = same_key }, done');
        apart = λ j other _. update_saga-OnlyOf j (other refl);
        claims = λ j e. inl (ground (arith, e), refl);
      }

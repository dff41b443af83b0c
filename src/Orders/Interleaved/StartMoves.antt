-- ===== src/Orders/Interleaved/StartMoves.antt =====
-- What the statements of `Start` do at their stages: the insert of the saga, and the reading of one
-- that is there already.
use text.Mathlib.TextEquality.{eq_iff}
use text.Mathlib.TextPositions.{eq_refl}
use orders_go.Common.{ℕ, ◌≡◌, ◌⊎◌, refl, ap, sym, ◌∙◌, String, true, some, arith, inl, inr}
use orders_go.Go.Float64.{float_eq}
use orders_go.Orders.Saga.{started_pending, status_succeeded}
use orders_go.Orders.Interleaved.{Attempt}
use orders_go.Orders.Interleaved.Effects.{OnlyOf, Quiet, Quiet-SameRows}
use orders_go.Orders.Interleaved.Effects.Sagas.{insert_saga_cases}
use orders_go.Orders.Interleaved.Stages.{outside, opened, finished, AreSettled, Moves, IsDone-same}
use orders_go.Orders.Interleaved.Moves.{find_key-find_order, find_key-key, OnlyOf-AreSettled}
use orders_go.Db.Sql.{SagaRow, Db, rows, exec}
use orders_go.Db.Sql.Runs.{at_turn}
use orders_go.Db.Payments.{find_payment}
use orders_go.Db.Drivers.{find_assignment}
use orders_go.Db.Sagas.{find_key, find_order, insert_saga, new_row}
use orders_go.Db.Integrity.{IsIntact}
use orders_go.Db.Integrity.Statements.{exec-IsIntact, insert_saga-KeepsIntact}

Quiet-AreSettled : (db db' : Db) → Quiet db db' → AreSettled db → AreSettled db'
Quiet-AreSettled db db' quiet settled j r there won =
    let same = Quiet-SameRows j db db' quiet in
    let (d, done_) = settled j r (sym same.saga_same ∙ there) won in
    (d, IsDone-same j d r.amount db db' same done_)

-- A statement that leaves the tables but for the steps, before the call has a saga.
pub outside-Moves :
    (c : Attempt) (db db' : Db)
    → Quiet db db'
    → IsIntact db'
    → AreSettled db
    → Moves c outside db outside db'
outside-Moves c db db' quiet intact settled = record {
  intact = intact;
  settled = Quiet-AreSettled db db' quiet settled;
  holds = tt;
  apart = λ j _ _. Quiet-SameRows j db db' quiet;
  claims = λ j e. absurd (ground (arith, e));
}

-- The reading of a saga of the call's key and amount that has succeeded.
pub replay-Moves :
    (c : Attempt) (db db' : Db) (r : SagaRow)
    → Quiet db db'
    → IsIntact db
    → IsIntact db'
    → AreSettled db
    → find_key c.key db.sagas ≡ some r
    → r.status ≡ status_succeeded
    → float_eq r.amount c.amount ≡ true
    → (d : String) × Moves c outside db (finished r.order_id d r.amount) db'
replay-Moves c db db' r quiet intact intact' settled known won same_amount =
    let there = find_key-find_order c.key db.sagas r intact.sagas_unique known in
    let (d, done_) = settled r.order_id r there won in
    let same = Quiet-SameRows r.order_id db db' quiet in
    (
      d,
      record {
        intact = intact';
        settled = Quiet-AreSettled db db' quiet settled;
        holds = (
          same_amount,
          record {
            row = r;
            there = same.saga_same ∙ there;
            same_key = find_key-key c.key db.sagas r known;
          },
          IsDone-same r.order_id d r.amount db db' same done_,
        );
        apart = λ j _ _. Quiet-SameRows j db db' quiet;
        claims = λ j e.
            let at : r.order_id ≡ j = ground (arith, e) in
            inr (inr (refl, (r, ap (λ o. find_order o db.sagas) (sym at) ∙ there, won)));
      },
    )

module _ (c : Attempt) (db : Db) where
  abbrev after : Db
  after = (exec (insert_saga c.key c.order_id c.user_id c.amount) db).1

  -- The insert of the saga opens one, and counts it if it counts; or it does not, and counts none.
  pub insert-Moves :
      IsIntact db
      → AreSettled db
      → (Moves c outside db outside after
          × ((n : ℕ)
              → (exec (insert_saga c.key c.order_id c.user_id c.amount) db).0 ≡ rows n
              → n ≡ 0))
        ⊎ (Moves c outside db opened after
            × ((n : ℕ)
                → (exec (insert_saga c.key c.order_id c.user_id c.amount) db).0 ≡ rows n
                → n ≡ 1))
  unfolding find_order
  insert-Moves intact settled =
      let intact' : IsIntact after =
        exec-IsIntact (insert_saga c.key c.order_id c.user_id c.amount) db
          (insert_saga-KeepsIntact c.key c.order_id c.user_id c.amount (at_turn db)) intact in
      elim (insert_saga_cases c.key c.order_id c.user_id c.amount db) [
        | inl (quiet, count) ↦ inl (outside-Moves c db after quiet intact' settled, count)
        | inr (new, free, payments_same, assignments_same, grown, count) ↦
            let r = new_row c.key c.order_id c.user_id c.amount db.now in
            let there : find_order c.order_id after.sagas ≡ some r =
              rw grown (ground (arith, eq_refl c.order_id)) in
            let only : OnlyOf c.order_id db after = λ j other. record {
              payment_same = ap (find_payment j) payments_same;
              assignment_same = ap (find_assignment j) assignments_same;
              saga_same = rw grown (ground (arith, other, eq_iff c.order_id j));
            } in
            inr (
              record {
                intact = intact';
                settled =
                    OnlyOf-AreSettled c.order_id db after only
                      (λ r' there' won.
                        absurd (started_pending (ground (arith, there, there', won))))
                      settled;
                holds = record {
                  row = r;
                  there = there;
                  same_key = refl;
                  same_amount = refl;
                  pending = started_pending;
                };
                apart = λ j _ known. only j (λ e. known (ap (λ o. find_order o db.sagas) e ∙ free));
                claims = λ j e.
                    let at : c.order_id ≡ j = ground (arith, e) in
                    inr (inl (sym at, ap (λ o. find_order o db.sagas) (sym at) ∙ free));
              },
              count,
            )
      ]

-- ===== src/Orders/Postgres/Lost.antt =====
-- order.go and postgres_payment.go: a charge that is recorded while its answer is lost.
use text.Mathlib.TextEquality.{eq_iff}
use orders_go.Common.{◌≡◌, ◌≢◌, refl, String, none, some, [], ◌∷◌, arith}
use orders_go.Go.Float64.{Float64}
use orders_go.Go.Errors.{GoError, sentinel, Sentinel, error_text}
use orders_go.Go.Partial.{◌>>=◌}
use orders_go.Orders.Saga.{status_failed}
use orders_go.Orders.Service.{charge_payment}
use orders_go.Orders.Postgres.{postgres_service}
use orders_go.Db.Sql.{Db, fine, lost, exec}
use orders_go.Db.Payments.{find_payment, charge}
use orders_go.Db.Payments.Faults.{charge-lost, find_payment-head}
use orders_go.Db.Payments.Laws.{inserted, charge_outcome}
use orders_go.Db.Sagas.{find_order, add_step, insert_step, status_rows}
use orders_go.Db.Sagas.Writes.{step_row, add_step_lem, update_status_lem}

add_step-fine :
    (id step status detail : String) (db : Db) {e : GoError}
    → db.fates ≡ fine ∷ lost e ∷ []
    → find_order id db.sagas ≢ none
    → add_step id step status detail db ≡ (
      none,
      record db { steps = step_row id step status detail db.now ∷ db.steps; fates = lost e ∷ [] },
    )
unfolding add_step exec insert_step
add_step-fine id step status detail db next there = ground (arith, next)

-- For an order with a saga and no payment, where the answer to the charge's insert is lost and
-- nothing else fails, the order fails with that error and its saga is
-- marked failed, while the payment is recorded, is not refunded, and refuses to be charged again.
pub charge_payment-lost :
    (id driver : String) (amount : Float64) (db : Db) {e : GoError}
    → id ≢ ""
    → db.fates ≡ fine ∷ lost e ∷ []
    → find_order id db.sagas ≢ none
    → find_payment id db.payments ≡ none
    → (db' : Db) × (charge_payment (postgres_service id driver) id driver amount db
        ≡ some (("", some e), db'))
      × (db'.sagas ≡ (status_rows id status_failed db.now db.sagas).1)
      × (find_payment id db'.payments ≡ some (inserted id amount db))
      × (charge id amount db' ≡ (some (sentinel Sentinel.already_charged), db'))
unfolding charge_payment
charge_payment-lost id driver amount db {e} named next there unpaid =
    let db₁ : Db = record db {
      steps = step_row id "charge" "started" "" db.now ∷ db.steps;
      fates = lost e ∷ [];
    } in
    let e₁ = add_step-fine id "charge" "started" "" db next there in
    let e₂ = charge-lost id amount db₁ e [] (ground (arith, eq_iff id "")) refl unpaid in
    let db₂ : Db = record db₁ { payments = inserted id amount db ∷ db.payments; fates = [] } in
    let e₃ = add_step_lem id "charge" "failed" (error_text e) db₂ refl there in
    let db₃ : Db = record db₂ {
      steps = step_row id "charge" "failed" (error_text e) db.now ∷ db₁.steps;
    } in
    let e₄ = update_status_lem id status_failed db₃ refl in
    let found = find_payment-head id amount db in
    let db' : Db = record db₃ { sagas = (status_rows id status_failed db.now db.sagas).1 } in
    (
      db',
      rw e₁ (rw (e₂, ◌>>=◌) (rw e₃ (rw e₄))),
      refl,
      found,
      (charge_outcome id amount db' named refl).1 (ground (arith, found)),
    )

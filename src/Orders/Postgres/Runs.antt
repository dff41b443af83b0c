-- ===== src/Orders/Postgres/Runs.antt =====
-- order.go, `CreateOrder` over Postgres: a first call, and a call with a key that is known.
use text.Mathlib.TextEquality.{eq_iff}
use text.Mathlib.TextPositions.{eq_refl}
use orders_go.Common.{
  ◌≡◌, ◌≢◌, ◌∙◌, ap, refl, String, true, false, none, some, [], ◌∷◌, str_eq, arith,
}
use Prim.Native.String.{◌++◌}
use orders_go.Go.Errors.{message}
use orders_go.Go.Float64.{Float64, float_eq}
use orders_go.Go.Partial.{◌>>=◌}
use orders_go.Orders.Saga.{status_succeeded}
use orders_go.Orders.Service.{Reply, replayed, assign_driver, charge_payment, proceed, create_order}
use orders_go.Orders.Postgres.{postgres_service}
use orders_go.Db.Sql.{SagaRow, Db}
use orders_go.Db.Payments.{find_payment}
use orders_go.Db.Payments.Laws.{inserted, charge_outcome}
use orders_go.Db.Sagas.{find_key, find_order, new_row, record_of, status_rows}
use orders_go.Db.Sagas.Idempotency.{matches, start_outcome}
use orders_go.Db.Sagas.Writes.{
  step_row, add_step_lem, update_status_lem, with_status, status_rows_other,
}
use orders_go.Db.Drivers.{find_assignment}
use orders_go.Db.Drivers.Laws.{assign_outcome}

pub named_key : (key : String) → key ≢ "" → str_eq key "" ≡ false
named_key key named = ground (arith, eq_iff key "")

-- Without faults, a call with a known key and the same payload is answered from the saga: nothing is
-- charged or assigned, and no table changes. The answer is the first call's order, with an error
-- that names the status unless the saga has succeeded.
pub create_order-replayed :
    (id driver user key : String) (amount : Float64) (db : Db) (r : SagaRow)
    → db.fates ≡ []
    → key ≢ ""
    → find_key key db.sagas ≡ some r
    → matches r user amount ≡ true
    → let answer = create_order (postgres_service id driver) user amount key db in
      (r.status ≡ status_succeeded → answer ≡ some ((r.order_id, none), db))
      × (r.status ≢ status_succeeded
          → answer
            ≡ some (
              (r.order_id, some (message ("order already processed with status " ++ r.status))),
              db,
            ))
unfolding create_order proceed replayed
create_order-replayed id driver user key amount db r ok named old same =
    let e = (start_outcome key id user amount db ok).1 r old same in
    let first : create_order (postgres_service id driver) user amount key db
        ≡ some (replayed (record_of r), db) =
      rw (named_key key named) (rw e) in
    let tells = eq_iff r.status status_succeeded in
    (
      λ done. first ∙ ap (λ (x : Reply). some (x, db)) (ground (arith, tells)),
      λ other. first ∙ ap (λ (x : Reply). some (x, db)) (ground (arith, tells, other)),
    )

-- What an order that has gone through leaves in the database.
abbrev pub completed : String → String → String → String → Float64 → Db → Db
completed id driver user key amount db = record db {
  payments = inserted id amount db ∷ db.payments;
  assignments = record { order_id = id; driver_id = driver; assigned_at = db.now } ∷ db.assignments;
  sagas = with_status status_succeeded db.now (new_row key id user amount db.now) ∷ db.sagas;
  steps =
      step_row id "assign" "succeeded" "" db.now
      ∷ step_row id "assign" "started" "" db.now
      ∷ step_row id "charge" "succeeded" "" db.now
      ∷ step_row id "charge" "started" "" db.now
      ∷ db.steps;
}

find_order-head :
    (key id user : String) (amount : Float64) (db : Db)
    → find_order id (new_row key id user amount db.now ∷ db.sagas) ≢ none
unfolding find_order
find_order-head key id user amount db = ground (arith, eq_refl id)

status_rows-head :
    (key id user : String) (amount : Float64) (db : Db)
    → find_order id db.sagas ≡ none
    → (status_rows id status_succeeded db.now (new_row key id user amount db.now ∷ db.sagas)).1
      ≡ with_status status_succeeded db.now (new_row key id user amount db.now) ∷ db.sagas
unfolding status_rows
status_rows-head key id user amount db free =
    ground (arith, eq_refl id, status_rows_other id status_succeeded db.now db.sagas free)

-- Without faults, a call with a new key, an order that no table knows, a number as its amount and a
-- driver's id charges once, assigns the driver, records the four steps and the success, and returns
-- the order's id.
pub create_order_new :
    (id driver user key : String) (amount : Float64) (db : Db)
    → db.fates ≡ []
    → key ≢ ""
    → id ≢ ""
    → driver ≢ ""
    → float_eq amount amount ≡ true
    → find_key key db.sagas ≡ none
    → find_order id db.sagas ≡ none
    → find_payment id db.payments ≡ none
    → find_assignment id db.assignments ≡ none
    → create_order (postgres_service id driver) user amount key db
      ≡ some ((id, none), completed id driver user key amount db)
unfolding create_order proceed charge_payment assign_driver
create_order_new id driver user key amount db ok named has_id has_driver num new free unpaid
      unassigned =
    let r = new_row key id user amount db.now in
    let db₁ : Db = record db { sagas = r ∷ db.sagas } in
    let there : find_order id db₁.sagas ≢ none = find_order-head key id user amount db in
    let e₁ = (start_outcome key id user amount db ok).0 new free num in
    let e₂ = add_step_lem id "charge" "started" "" db₁ ok there in
    let db₂ : Db = record db₁ { steps = step_row id "charge" "started" "" db.now ∷ db.steps } in
    let e₃ = (charge_outcome id amount db₂ has_id ok).0 unpaid in
    let db₃ : Db = record db₂ { payments = inserted id amount db ∷ db.payments } in
    let e₄ = add_step_lem id "charge" "succeeded" "" db₃ ok there in
    let db₄ : Db = record db₃ { steps = step_row id "charge" "succeeded" "" db.now ∷ db₂.steps } in
    let e₅ = add_step_lem id "assign" "started" "" db₄ ok there in
    let db₅ : Db = record db₄ { steps = step_row id "assign" "started" "" db.now ∷ db₄.steps } in
    let e₆ = (assign_outcome id driver db₅ has_id has_driver ok).0 unassigned there in
    let db₆ : Db = record db₅ {
      assignments =
          record { order_id = id; driver_id = driver; assigned_at = db.now } ∷ db.assignments;
    } in
    let e₇ = add_step_lem id "assign" "succeeded" "" db₆ ok there in
    let db₇ : Db = record db₆ { steps = step_row id "assign" "succeeded" "" db.now ∷ db₅.steps } in
    let e₈ = update_status_lem id status_succeeded db₇ ok in
    let e₉ = status_rows-head key id user amount db free in
    rw (named_key key named)
      (rw e₁ (rw e₂ (rw (e₃, ◌>>=◌) (rw e₄ (rw e₅ (rw (e₆, ◌>>=◌) (rw e₇ (rw e₈ (rw e₉)))))))))

find_key-completed :
    (id driver user key : String) (amount : Float64) (db : Db)
    → find_key key (completed id driver user key amount db).sagas
      ≡ some (with_status status_succeeded db.now (new_row key id user amount db.now))
unfolding find_key
find_key-completed id driver user key amount db = ground (arith, eq_refl key)

-- Without faults, and with a new key, an order that no table knows and a number as its amount, a
-- client that sends the same order again under its key, whatever ids are generated the second time,
-- gets the first order's id, and the database is as after the first call.
pub create_order_twice :
    (id id' driver driver' user key : String) (amount : Float64) (db : Db)
    → db.fates ≡ []
    → key ≢ ""
    → id ≢ ""
    → driver ≢ ""
    → float_eq amount amount ≡ true
    → find_key key db.sagas ≡ none
    → find_order id db.sagas ≡ none
    → find_payment id db.payments ≡ none
    → find_assignment id db.assignments ≡ none
    → (db₁ : Db) × (create_order (postgres_service id driver) user amount key db
        ≡ some ((id, none), db₁))
      × (create_order (postgres_service id' driver') user amount key db₁ ≡ some ((id, none), db₁))
create_order_twice id id' driver driver' user key amount db ok named has_id has_driver num new free
      unpaid unassigned =
    let db₁ = completed id driver user key amount db in
    (
      db₁,
      create_order_new id driver user key amount db ok named has_id has_driver num new free unpaid
          unassigned,
      (create_order-replayed id' driver' user key amount db₁
            (with_status status_succeeded db.now (new_row key id user amount db.now)) ok named
            (find_key-completed id driver user key amount db) (ground (arith, eq_refl user, num))).0
          refl,
    )

-- ===== src/Examples/OrderRuns.antt =====
-- An order "o1" of the user "u1" for a driver "d1", under the key "k1".
use orders_go.Common.{◌≡◌, str_eq-distinct, refl, none, some, [], ◌∷◌}
use orders_go.Common.Int.{pos}
use orders_go.Go.Float64.{Float64, float_90, float_eq, is_nan, rank}
use orders_go.Go.Errors.{message, sentinel, Sentinel}
use orders_go.Orders.Saga.{status_failed}
use orders_go.Orders.Service.{create_order, charge_payment}
use orders_go.Orders.Protocol.{recorder, script, answer, charge_payment-script}
use orders_go.Orders.Postgres.{postgres_service}
use orders_go.Orders.Postgres.Runs.{completed, create_order_twice}
use orders_go.Orders.Postgres.Lost.{charge_payment-lost}
use orders_go.Grpc.OrderServer.{response, handle_create_order}
use orders_go.Grpc.OrderServer.Requests.{handle_create_order_outcome}
use orders_go.Db.Sql.{Db, SagaRow, fine, lost}
use orders_go.Db.Payments.{find_payment, charge}
use orders_go.Db.Payments.Laws.{inserted}
use orders_go.Db.Sagas.{find_key, find_order, new_row, status_rows}
use orders_go.Db.Sagas.Writes.{with_status}
use orders_go.Db.Drivers.{find_assignment}

abbrev empty_db : Db
empty_db = record {
  payments = [];
  sagas = [];
  steps = [];
  assignments = [];
  now = pos 1000;
  constraint_error = message "constraint";
  fates = [];
}

-- Ninety, in whatever unit the amounts are.
abbrev amount : Float64
amount = float_90

handle_create_order_outcome_example :
    handle_create_order
      (create_order (postgres_service "o1" "d1"))
      (record { user_id = "u1"; amount = amount; idempotency_key = "k1" })
      empty_db
    ≡ some (
      response (record { order_id = "o1"; status = "ok"; message = "order created" }),
      completed "o1" "d1" "u1" "k1" amount empty_db,
    )
unfolding float_eq is_nan rank find_key find_order find_payment find_assignment
handle_create_order_outcome_example =
    (handle_create_order_outcome "o1" "d1"
        (record { user_id = "u1"; amount = amount; idempotency_key = "k1" }) empty_db refl).2
      (str_eq-distinct "k1" "" refl) (str_eq-distinct "o1" "" refl) (str_eq-distinct "d1" "" refl)
      refl refl refl refl refl

create_order_twice_example :
    (db₁ : Db) × (create_order (postgres_service "o1" "d1") "u1" amount "k1" empty_db
      ≡ some (("o1", none), db₁))
    × (create_order (postgres_service "o2" "d2") "u1" amount "k1" db₁ ≡ some (("o1", none), db₁))
unfolding float_eq is_nan rank find_key find_order find_payment find_assignment
create_order_twice_example =
    create_order_twice "o1" "o2" "d1" "d2" "u1" "k1" amount empty_db refl
      (str_eq-distinct "k1" "" refl) (str_eq-distinct "o1" "" refl) (str_eq-distinct "d1" "" refl)
      refl refl refl refl refl

abbrev failed_row : SagaRow
failed_row = with_status status_failed (pos 900) (new_row "k1" "o1" "u1" amount (pos 900))

abbrev failed_db : Db
failed_db = record empty_db { sagas = failed_row ∷ [] }

charge_payment-script_example :
    charge_payment (recorder none (some (message "no driver")) none (λ _. none)) "o1" "d1" amount []
    ≡ some (
      answer "o1" "d1" amount none (some (message "no driver")) none,
      script "o1" "d1" amount none (some (message "no driver")) none,
    )
charge_payment-script_example =
    charge_payment-script "o1" "d1" amount none (some (message "no driver")) none (λ _. none)

abbrev started_db : Db
started_db = record empty_db {
  sagas = new_row "k1" "o1" "u1" amount (pos 900) ∷ [];
  fates = fine ∷ lost (message "connection reset") ∷ [];
}

charge_payment-lost_example :
    (db' : Db) × (charge_payment (postgres_service "o1" "d1") "o1" "d1" amount started_db
      ≡ some (("", some (message "connection reset")), db'))
    × (db'.sagas ≡ (status_rows "o1" status_failed (pos 1000) started_db.sagas).1)
    × (find_payment "o1" db'.payments ≡ some (inserted "o1" amount started_db))
    × (charge "o1" amount db' ≡ (some (sentinel Sentinel.already_charged), db'))
unfolding find_order find_payment
charge_payment-lost_example =
    charge_payment-lost "o1" "d1" amount started_db (str_eq-distinct "o1" "" refl) refl (λ e. cc)
      refl

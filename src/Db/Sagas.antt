-- ===== src/Db/Sagas.antt =====
-- internal/db/orders/saga_store.go, `SagaStore`.
pub mod Idempotency
pub mod Writes
pub mod Reread
pub mod Kept
use orders_go.Common.{
  ℕ, suc, ◌+◌, String, Bool, true, false, Option, none, some, List, [], ◌∷◌, str_eq, ◌==◌, ◌||◌,
  not, if◌then◌else◌,
}
use orders_go.Go.Int64.{Time}
use orders_go.Go.Float64.{Float64, float_eq, float_zero}
use orders_go.Go.Errors.{GoError, sentinel, message, Sentinel}
use orders_go.Go.Effects.{M, Action}
use orders_go.Orders.Saga.{SagaRecord, SagaStatus, status_started}
use orders_go.Db.Sql.{
  SagaRow, StepRow, Db, Effect, affected, violated, Executed, failed, rows, no_count, Scanned,
  found, no_row, scan_failed, exec, query_row,
}

-- The row of an idempotency key, and of an order; each column is unique.
unfoldable pub find_key : String → List SagaRow → Option SagaRow
find_key key [] = none
find_key key (r ∷ rs) = if str_eq r.idempotency_key key then some r else find_key key rs

unfoldable pub find_order : String → List SagaRow → Option SagaRow
find_order id [] = none
find_order id (r ∷ rs) = if str_eq r.order_id id then some r else find_order id rs

-- The row of a new saga.
abbrev pub new_row : String → String → String → Float64 → Time → SagaRow
new_row key id user amount now = record {
  order_id = id;
  idempotency_key = key;
  user_id = user;
  amount = amount;
  status = status_started;
  created_at = now;
  updated_at = now;
}

-- INSERT INTO order_sagas … ON CONFLICT (idempotency_key) DO NOTHING
unfoldable pub insert_saga : String → String → String → Float64 → Db → Effect
insert_saga key id user amount db = elim (find_key key db.sagas) [
  | some _ ↦ affected 0 db
  | none ↦ elim (find_order id db.sagas) [
    | some _ ↦ violated
    | none ↦ affected 1 (record db { sagas = new_row key id user amount db.now ∷ db.sagas })
  ]
]

abbrev pub record_of : SagaRow → SagaRecord
record_of r = record {
  order_id = r.order_id;
  user_id = r.user_id;
  amount = r.amount;
  status = r.status;
}

-- SELECT order_id, user_id, amount, status FROM order_sagas WHERE idempotency_key = $1
unfoldable pub select_saga : String → Db → Option SagaRecord
select_saga key db = elim (find_key key db.sagas) [ none ↦ none | some r ↦ some (record_of r) ]

-- `saga.SagaRecord{}`
abbrev pub empty_record : SagaRecord
empty_record = record { order_id = ""; user_id = ""; amount = float_zero; status = "" }

-- The rest of `Start`, once the insert has affected `n` rows.
unfoldable pub read_back : String → String → Float64 → ℕ → M Db (SagaRecord × Bool × Option GoError)
read_back key user amount n db =
    let (scanned, db') = query_row (select_saga key) db in
    elim scanned [
      | no_row ↦ ((empty_record, false, some (message "saga not found after insert")), db')
      | scan_failed e ↦ ((empty_record, false, some e), db')
      | found r ↦
          if not (str_eq r.user_id user) || not (float_eq r.amount amount)
          then ((empty_record, false, some (sentinel Sentinel.idempotency_conflict)), db')
          else ((r, n == 1, none), db')
    ]

unfoldable pub start :
    String → String → String → Float64 → M Db (SagaRecord × Bool × Option GoError)
start key id user amount db =
    let (res, db') = exec (insert_saga key id user amount) db in
    elim res [
      | failed e ↦ ((empty_record, false, some e), db')
      | no_count e ↦ ((empty_record, false, some e), db')
      | rows n ↦ read_back key user amount n db'
    ]

unfoldable pub status_rows : String → SagaStatus → Time → List SagaRow → ℕ × List SagaRow
status_rows id status now [] = (0, [])
status_rows id status now (r ∷ rs) =
    let (n, rs') = status_rows id status now rs in
    if str_eq r.order_id id
    then (suc n, record r { status = status; updated_at = now } ∷ rs')
    else (n, r ∷ rs')

-- UPDATE order_sagas SET status = $2, updated_at = NOW() WHERE order_id = $1
unfoldable pub update_saga : String → SagaStatus → Db → Effect
update_saga id status db =
    let (n, rs) = status_rows id status db.now db.sagas in affected n (record db { sagas = rs })

-- The error of a statement whose count is not asked for.
abbrev pub exec_error : Executed → Option GoError
exec_error (failed e) = some e
exec_error (rows n) = none
exec_error (no_count e) = none

unfoldable pub update_status : String → SagaStatus → Action Db
update_status id status db =
    let (res, db') = exec (update_saga id status) db in (exec_error res, db')

-- INSERT INTO order_saga_steps …, whose order must have a saga.
unfoldable pub insert_step : String → String → String → String → Db → Effect
insert_step id step status detail db = elim (find_order id db.sagas) [
  | none ↦ violated
  | some _ ↦
      let r : StepRow = record {
        order_id = id;
        step = step;
        status = status;
        detail = detail;
        created_at = db.now;
      } in
      affected 1 (record db { steps = r ∷ db.steps })
]

unfoldable pub add_step : String → String → String → String → Action Db
add_step id step status detail db =
    let (res, db') = exec (insert_step id step status detail) db in (exec_error res, db')

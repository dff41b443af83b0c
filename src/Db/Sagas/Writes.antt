-- ===== src/Db/Sagas/Writes.antt =====
-- saga_store.go, `AddStep` and `UpdateStatus` where nothing fails.
use orders_go.Common.{◌≡◌, ◌≢◌, refl, String, none, List, [], ◌∷◌, arith}
use orders_go.Go.Int64.{Time}
use orders_go.Db.Sql.{SagaRow, StepRow, Db, exec}
use orders_go.Db.Sagas.{find_order, insert_step, add_step, status_rows, update_saga, update_status}

abbrev pub step_row : String → String → String → String → Time → StepRow
step_row id step status detail now = record {
  order_id = id;
  step = step;
  status = status;
  detail = detail;
  created_at = now;
}

-- A step of an order that has a saga is appended, and nothing else changes.
pub add_step_lem :
    (id step status detail : String) (db : Db)
    → db.fates ≡ []
    → find_order id db.sagas ≢ none
    → add_step id step status detail db
      ≡ (none, record db { steps = step_row id step status detail db.now ∷ db.steps })
unfolding add_step exec insert_step
add_step_lem id step status detail db ok there = ground (arith, ok)

pub update_status_lem :
    (id status : String) (db : Db)
    → db.fates ≡ []
    → update_status id status db
      ≡ (none, record db { sagas = (status_rows id status db.now db.sagas).1 })
unfolding update_status exec update_saga
update_status_lem id status db ok = ground (arith, ok)

abbrev pub with_status : String → Time → SagaRow → SagaRow
with_status status now r = record r { status = status; updated_at = now }

-- Rows of other orders are left alone.
pub status_rows_other :
    (id status : String) (now : Time) (rs : List SagaRow)
    → find_order id rs ≡ none
    → (status_rows id status now rs).1 ≡ rs
unfolding status_rows find_order
status_rows_other id status now [] h = refl
status_rows_other id status now (r ∷ rs) h = ground (arith, status_rows_other id status now rs)

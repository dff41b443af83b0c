-- ===== src/Db/Sagas/Reread.antt =====
-- saga_store.go: `Start` reads back what an earlier `Start` and an `UpdateStatus` wrote.
use orders_go.Common.{
  ◌≡◌, refl, ap, ◌∙◌, String, true, false, none, some, List, [], ◌∷◌, str_eq, arith, if◌then◌else◌,
}
use orders_go.Go.Int64.{Time}
use orders_go.Go.Float64.{Float64}
use orders_go.Orders.Saga.{SagaStatus, SagaRecord}
use orders_go.Db.Sql.{SagaRow, Db}
use orders_go.Db.Sagas.{find_key, record_of, start, status_rows, update_status}
use orders_go.Db.Sagas.Idempotency.{matches, start_outcome}
use orders_go.Db.Sagas.Writes.{with_status, update_status_lem}

-- What an update of the status of an order makes of a row.
abbrev pub updated : String → SagaStatus → Time → SagaRow → SagaRow
updated id status now r = if str_eq r.order_id id then with_status status now r else r

find_key-status_rows :
    (key id : String) (status : SagaStatus) (now : Time) (rs : List SagaRow) (r : SagaRow)
    → find_key key rs ≡ some r
    → find_key key (status_rows id status now rs).1 ≡ some (updated id status now r)
unfolding find_key status_rows
find_key-status_rows key id status now [] r h = ground (arith, h)
find_key-status_rows key id status now (s ∷ rs) r h =
    ground (arith, h, find_key-status_rows key id status now rs r)

-- Without faults: for a saga that is there, `UpdateStatus` of some order succeeds, and `Start` with the
-- saga's key and payload, whatever the new id, then returns its record, with the new status if the
-- order is the saga's own and with the old one if not, as one that was not created, and changes no table.
pub start-update_status :
    (key id new_id user : String) (amount : Float64) (status : SagaStatus) (db : Db) (r : SagaRow)
    → db.fates ≡ []
    → find_key key db.sagas ≡ some r
    → matches r user amount ≡ true
    → let (err, db') = update_status id status db in
      (err ≡ none)
      × (start key new_id user amount db' ≡ (
        (
          record (record_of r) { status = if str_eq r.order_id id then status else r.status },
          false,
          none,
        ),
        db',
      ))
start-update_status key id new_id user amount status db r ok there same =
    let db' = record db { sagas = (status_rows id status db.now db.sagas).1 } in
    let r' = updated id status db.now r in
    let (_, known, _) = start_outcome key new_id user amount db' ok in
    let back = find_key-status_rows key id status db.now db.sagas r there in
    let still : matches r' user amount ≡ true = ground (arith, same) in
    let read = known r' back still in
    let shown : record_of r'
        ≡ record (record_of r) { status = if str_eq r.order_id id then status else r.status } =
      ground arith in
    rw (update_status_lem id status db ok)
      (refl, read ∙ ap (λ (x : SagaRecord). ((x, false, none), db')) shown)

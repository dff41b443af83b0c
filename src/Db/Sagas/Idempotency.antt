-- ===== src/Db/Sagas/Idempotency.antt =====
-- saga_store.go, `Start`.
use text.Mathlib.TextPositions.{eq_refl}
use orders_go.Common.{◌≡◌, String, Bool, true, false, none, some, [], ◌∷◌, str_eq, ◌&&◌, arith}
use orders_go.Go.Float64.{Float64, float_eq, is_nan}
use orders_go.Go.Errors.{sentinel, Sentinel}
use orders_go.Db.Sql.{SagaRow, Db, exec, query_row}
use orders_go.Db.Sagas.{
  find_key, find_order, new_row, insert_saga, record_of, empty_record, select_saga, read_back,
  start,
}

-- Whether a saga is for this payload.
abbrev pub matches : SagaRow → String → Float64 → Bool
matches r user amount = str_eq r.user_id user && float_eq r.amount amount

-- Without faults: a new key, with a new order and an amount that is a number, gets a saga in the
-- state `started`; a known key gets its own record back for the same payload, and a conflict for
-- another; for a known key no table changes.
pub start_outcome :
    (key id user : String) (amount : Float64) (db : Db)
    → db.fates ≡ []
    → (find_key key db.sagas ≡ none
        → find_order id db.sagas ≡ none
        → float_eq amount amount ≡ true
        → let r = new_row key id user amount db.now in
          start key id user amount db
          ≡ ((record_of r, true, none), record db { sagas = r ∷ db.sagas }))
      × ((r : SagaRow)
          → find_key key db.sagas ≡ some r
          → matches r user amount ≡ true
          → start key id user amount db ≡ ((record_of r, false, none), db))
      × ((r : SagaRow)
          → find_key key db.sagas ≡ some r
          → matches r user amount ≡ false
          → start key id user amount db
            ≡ ((empty_record, false, some (sentinel Sentinel.idempotency_conflict)), db))
unfolding start exec insert_saga read_back query_row select_saga find_key
start_outcome key id user amount db ok = (
  λ new free num. ground (arith, ok, new, free, num, eq_refl key, eq_refl user),
  λ r old same. ground (arith, ok, old, same),
  λ r old other. ground (arith, ok, old, other),
)

-- Without faults, and with a new key and a new order, a NaN amount has its saga inserted, and the
-- caller is told that the key was used with another payload.
pub start-nan :
    (key id user : String) (amount : Float64) (db : Db)
    → db.fates ≡ []
    → find_key key db.sagas ≡ none
    → find_order id db.sagas ≡ none
    → is_nan amount ≡ true
    → start key id user amount db ≡ (
      (empty_record, false, some (sentinel Sentinel.idempotency_conflict)),
      record db { sagas = new_row key id user amount db.now ∷ db.sagas },
    )
unfolding start exec insert_saga read_back query_row select_saga find_key float_eq
start-nan key id user amount db ok new free odd =
    ground (arith, ok, new, free, odd, eq_refl key, eq_refl user)

-- ===== src/Examples/StoreRuns.antt =====
-- The Postgres stores on small tables.
use orders_go.Common.{◌≡◌, refl, false, none, some, [], ◌∷◌}
use orders_go.Common.Int.{pos}
use orders_go.Go.Float64.{float_90, nan, float_eq, is_nan, rank}
use orders_go.Go.Errors.{message, sentinel, Sentinel}
use orders_go.Db.Sql.{Db, lost}
use orders_go.Db.Payments.{find_payment}
use orders_go.Db.Payments.Laws.{IsKeyed, inserted}
use orders_go.Db.Sagas.{find_key, find_order, new_row, empty_record, start, update_status}
use orders_go.Db.Sagas.Reread.{start-update_status}
use orders_go.Db.Sagas.Idempotency.{start-nan}

abbrev stores : Db
stores = record {
  payments = [];
  sagas = new_row "k1" "o1" "u1" float_90 (pos 900) ∷ [];
  steps = [];
  assignments = record { order_id = "o1"; driver_id = "d1"; assigned_at = pos 900 } ∷ [];
  now = pos 1000;
  constraint_error = message "constraint";
  fates = [];
}

abbrev paid : Db
paid = record stores { payments = inserted "o1" float_90 stores ∷ [] }

paid-IsKeyed : IsKeyed paid.payments
unfolding find_payment
paid-IsKeyed = (refl, tt)

abbrev flaky : Db
flaky = record stores { fates = lost (message "connection reset") ∷ [] }

start-nan_example : start "k2" "o2" "u1" nan stores ≡ (
  (empty_record, false, some (sentinel Sentinel.idempotency_conflict)),
  record stores { sagas = new_row "k2" "o2" "u1" nan (pos 1000) ∷ stores.sagas },
)
unfolding find_key find_order is_nan
start-nan_example = start-nan "k2" "o2" "u1" nan stores refl refl refl refl

start-update_status_example :
    let (err, db') = update_status "o1" "failed" stores in
    (err ≡ none)
    × (start "k1" "o2" "u1" float_90 db' ≡ (
      (
        record { order_id = "o1"; user_id = "u1"; amount = float_90; status = "failed" },
        false,
        none,
      ),
      db',
    ))
unfolding find_key float_eq is_nan rank
start-update_status_example =
    start-update_status "k1" "o1" "o2" "u1" float_90 "failed" stores
      (new_row "k1" "o1" "u1" float_90 (pos 900)) refl refl refl

-- ===== src/Examples/FaultRuns.antt =====
-- An order that goes through behind `Start`, a database whose answers are lost, and the interceptor.
use orders_go.Common.{
  ℕ, suc, ◌≡◌, ◌≢◌, refl, String, Option, none, some, false, [], ◌∷◌, arith, is_some,
}
use orders_go.Common.Int.{pos}
use orders_go.Go.Int64.{Time}
use orders_go.Go.Float64.{float_90}
use orders_go.Go.Errors.{GoError, message}
use orders_go.Go.Effects.{M}
use orders_go.Db.Sql.{Db, Payment, lost}
use orders_go.Db.Payments.{find_payment, refund}
use orders_go.Db.Payments.Laws.{IsKeyed, Keeps}
use orders_go.Db.Payments.Faults.{refund_under_faults}
use orders_go.Db.Sagas.{new_row}
use orders_go.Grpc.OrderServer.{begins}
use orders_go.Grpc.Interceptors.{
  Server, Waiting, should_track_method, wait_limiter, unary_interceptor,
}
use orders_go.Grpc.Interceptors.Laws.{IsCounted, unary_interceptor-IsCounted}
use orders_go.Observability.Metrics.{Metrics, lookup, new_metrics}

abbrev empty_db : Db
empty_db = record {
  payments = [];
  sagas = [];
  steps = [];
  assignments = [];
  now = pos 1000;
  constraint_error = message "constraint";
  fates = [];
}

abbrev started_db : Db
started_db = record empty_db { sagas = new_row "k1" "o1" "u1" float_90 (pos 1000) ∷ [] }

abbrev flaky_db : Db
flaky_db = record started_db { fates = lost (message "connection reset") ∷ [] }

-- The world counts the readings of its clock.
abbrev ticking : M ℕ Time
ticking w = (pos w, suc w)

abbrev refusing : Waiting ℕ
refusing w = ((some (message "context canceled"), pos 3 ∷ []), w)

abbrev answering : M ℕ (String × Option GoError)
answering w = (("ok", none), suc w)

unary_interceptor-IsCounted_example :
    let (r, s) =
      unary_interceptor
        (pos 0)
        ticking
        (some refusing)
        ""
        "/b"
        answering
        (some (new_metrics (pos 0)), 0) in
    ((m' : Metrics) × (s.0 ≡ some m') × IsCounted "/b" r.1 0 0 0 (new_metrics (pos 0)) m')
    × (((v : Server ℕ) → (wait_limiter (pos 0) ticking (some refusing) v).0 ≢ none)
        → (handler' : M ℕ (String × Option GoError))
        → unary_interceptor
            (pos 0)
            ticking
            (some refusing)
            ""
            "/b"
            handler'
            (some (new_metrics (pos 0)), 0)
          ≡ (r, s))
unfolding should_track_method begins new_metrics lookup
unary_interceptor-IsCounted_example =
    unary_interceptor-IsCounted (pos 0) ticking (some refusing) "/b" (new_metrics (pos 0)) 0 0 0
      refl refl refl refl (omega arith) (omega arith) (omega arith) "" answering 0

abbrev paid_db : Db
paid_db = record flaky_db {
  payments =
      record {
        order_id = "o1";
        amount = float_90;
        charged_at = pos 900;
        refunded_at = none;
        refund_amount = none;
      }
      ∷ [];
}

paid_db-IsKeyed : IsKeyed paid_db.payments
unfolding find_payment
paid_db-IsKeyed = (refl, tt)

refund_under_faults_example :
    let (err, db') = refund "o1" float_90 paid_db in
    Keeps paid_db.payments db'.payments
    × (err ≡ none
        → (p : Payment) × (find_payment "o1" paid_db.payments ≡ some p)
          × (is_some p.refunded_at ≡ false)
          × (find_payment "o1" db'.payments
              ≡ some (record p { refund_amount = some float_90; refunded_at = some (pos 1000) })))
refund_under_faults_example = refund_under_faults "o1" float_90 paid_db paid_db-IsKeyed

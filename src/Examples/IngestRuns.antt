-- ===== src/Examples/IngestRuns.antt =====
-- Locations at the edge of the ranges, a stream of two updates, and a span of a call.
use Prim.Native.String.{◌++◌}
use orders_go.Common.{
  ℕ, suc, ◌+◌, ◌≡◌, ◌≢◌, str_eq-distinct, ◌↔◌, refl, String, Bool, true, false, Option, none, some,
  List, [], ◌∷◌, ◌++◌ as append, arith, is_some, if◌then◌else◌,
}
use orders_go.Common.Int.{ℤ, pos}
use orders_go.Go.Float64.{nan, float_zero, float_90, float_lt, is_nan, rank}
use orders_go.Go.Errors.{GoError, message, error_text}
use orders_go.Ingest.Location.{Location, new_location, new_location-nan}
use orders_go.Go.Effects.{Action}
use orders_go.Ingest.Stores.{LocationStore, LocationRow}
use orders_go.Ingest.Redis.{RedisPipeliner, new_redis_location_store}
use orders_go.Server.LocationStore.{location_store}
use orders_go.Server.LocationStore.Writes.{location_store_outcome}
use orders_go.Grpc.Status.{Status, Code}
use orders_go.Grpc.LocationServer.{
  LocationUpdate, absent, eof, broken, status_of, read_update, update_location,
  update_location_outcome,
}
use orders_go.Observability.Metrics.{Metrics, no_stats}

new_location-nan_example : (new_location (pos 0) "d1" nan nan (pos 5)).1 ≡ none
unfolding is_nan
new_location-nan_example =
    new_location-nan (pos 0) "d1" nan nan (pos 5) (str_eq-distinct "d1" "" refl) refl refl

-- The world counts the writes.
abbrev working : LocationStore ℕ
working _ w = (none, suc w)

abbrev here : Location
here = record { driver_id = "d1"; lat = float_zero; long = float_zero; timestamp = pos 5 }

-- The insert fails; a pipeline counts its commands, and to run it takes as long.
abbrev failing_insert : LocationRow → Action ℕ
failing_insert _ w = (some (message "down"), suc w)

abbrev counting : RedisPipeliner ℕ ℕ
counting = record {
  queue_hset = λ _ _ q. suc q;
  queue_expire = λ _ _ q. suc q;
  queue_xadd = λ _ _ _ q. suc q;
  exec = λ q w. (none, w + q);
}

abbrev stored : Option GoError × ℕ
stored =
    location_store failing_insert (λ w. (none, w)) (λ t. "now") (0, counting)
      (new_redis_location_store "" (pos 60) (pos 0)) here 0

location_store_outcome_example :
    (stored.1 ≡ 4)
    × (stored.0 ≡ none
        ↔ (◌≡◌ {A = Option GoError} (some (message "down")) none)
          × (◌≡◌ {A = Option GoError} none none))
location_store_outcome_example =
    (location_store_outcome failing_insert (λ w. (none, w)) (λ t. "now") 0 counting "" (pos 60)
        (pos 0) here 0).0
      refl

abbrev good_update : LocationUpdate
good_update = record {
  driver_id = "d1";
  latitude = float_zero;
  longitude = float_90;
  timestamp = absent;
}

abbrev bad_update : LocationUpdate
bad_update = record good_update { driver_id = "" }

update_location_outcome_example :
    (update_location (pos 0) working (λ w. (none, w)) (good_update ∷ []) eof 0 ≡ (none, 1))
    × ((e : GoError)
        → update_location (pos 0) working (λ w. (none, w)) (good_update ∷ []) (broken e) 0
          ≡ (status_of Code.internal ("recv: " ++ error_text e), 1))
    × ((s : Status)
        → (read_update (pos 0) working (λ w. (none, w)) bad_update).1 ≡ some s
        → update_location (pos 0) working (λ w. (none, w)) (good_update ∷ bad_update ∷ []) eof 0
          ≡ (some s, 1))
    × ((e : GoError)
        → (read_update (pos 0) working (λ w. (none, w)) bad_update).1 ≡ none
        → ◌≡◌ {A = Option GoError} none (some e)
        → update_location (pos 0) working (λ w. (none, w)) (good_update ∷ bad_update ∷ []) eof 0
          ≡ (status_of Code.internal ("ingest: " ++ error_text e), 2))
unfolding read_update new_location float_lt is_nan rank orders_go.Common.Int.◌-ℤ◌
update_location_outcome_example =
    update_location_outcome (pos 0) working (λ w. (none, w)) (good_update ∷ []) [] bad_update eof 0
      (refl, refl, tt)

abbrev fresh : Metrics
fresh = record {
  started = pos 0;
  methods = ("/a", no_stats) ∷ [];
  rate_limit_waits = pos 0;
  rate_limit_wait = pos 0;
  lifecycle = none;
}

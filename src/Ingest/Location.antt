-- ===== src/Ingest/Location.antt =====
-- internal/ingest/location.go.
use text.Mathlib.TextEquality.{eq_iff}
use orders_go.Common.{
  ◌≡◌, ◌≢◌, ◌↔◌, String, true, false, Option, none, some, str_eq, ◌||◌, arith, if◌then◌else◌,
}
use orders_go.Go.Int64.{Time}
use orders_go.Go.Float64.{
  Float64, float_lt, float_90, float_minus_90, float_180, float_minus_180, float_zero, is_nan,
}
use orders_go.Go.Errors.{GoError, sentinel, Sentinel}

pub record Location : Type 0 where
  pub driver_id : String
  pub lat : Float64
  pub long : Float64
  pub timestamp : Time

-- `Location{}`, for the zero time `zero`.
abbrev pub empty_location : Time → Location
empty_location zero = record {
  driver_id = "";
  lat = float_zero;
  long = float_zero;
  timestamp = zero;
}

unfoldable pub new_location : Time → String → Float64 → Float64 → Time → Location × Option GoError
new_location zero driver_id lat long timestamp =
    if str_eq driver_id ""
    then (empty_location zero, some (sentinel Sentinel.invalid_driver_id))
    else if float_lt lat float_minus_90 || float_lt float_90 lat
    then (empty_location zero, some (sentinel Sentinel.invalid_latitude))
    else if float_lt long float_minus_180 || float_lt float_180 long
    then (empty_location zero, some (sentinel Sentinel.invalid_longitude))
    else (record { driver_id = driver_id; lat = lat; long = long; timestamp = timestamp }, none)

-- Not below `lo`, and not above `hi`.
abbrev pub IsWithin : Float64 → Float64 → Float64 → Type 0
IsWithin lo hi x = (float_lt x lo ≡ false) × (float_lt hi x ≡ false)

-- `NewLocation` returns no error exactly for a driver that is named and coordinates neither below
-- nor above their bounds, and the location is then made of its arguments.
new_location_outcome :
    (zero : Time) (driver_id : String) (lat long : Float64) (timestamp : Time)
    → let (loc, err) = new_location zero driver_id lat long timestamp in
      ((err ≡ none) ↔ (
        (driver_id ≢ "")
        × IsWithin float_minus_90 float_90 lat
        × IsWithin float_minus_180 float_180 long))
      × (err ≡ none
          → loc ≡ record { driver_id = driver_id; lat = lat; long = long; timestamp = timestamp })
unfolding new_location
new_location_outcome zero driver_id lat long timestamp =
    let e = eq_iff driver_id "" in
    ((λ h. ground (arith, e), λ h. ground (arith, e)), λ h. ground (arith, e))

-- For a named driver, NaN coordinates give no error.
pub new_location-nan :
    (zero : Time) (driver_id : String) (lat long : Float64) (timestamp : Time)
    → driver_id ≢ ""
    → is_nan lat ≡ true
    → is_nan long ≡ true
    → (new_location zero driver_id lat long timestamp).1 ≡ none
unfolding new_location float_lt
new_location-nan zero driver_id lat long timestamp named x y = ground (arith, eq_iff driver_id "")

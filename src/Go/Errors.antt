-- ===== src/Go/Errors.antt =====
-- Go's `error` values: the sentinels the program compares with, errors that carry a text,
-- `fmt.Errorf` with one `%w`, and `errors.Join`. A nil error is `none` of `Option GoError`.
use Prim.Native.String.{◌++◌}
use orders_go.Common.{ℕ, String, Bool, false, ◌||◌, ◌==◌}

pub data Sentinel : Type 0 where
  canceled deadline_exceeded no_rows : Sentinel
  circuit_open idempotency_key_required idempotency_conflict : Sentinel
  already_charged not_charged already_refunded : Sentinel
  invalid_driver_id invalid_latitude invalid_longitude : Sentinel

mutual
  pub data GoError : Type 0 where
    sentinel : Sentinel → GoError
    message : String → GoError
    wrapped : String → GoError → String → GoError
    joined : GoErrors → GoError

  pub data GoErrors : Type 0 where
    nil : GoErrors
    cons : GoError → GoErrors → GoErrors

abbrev tag : Sentinel → ℕ
tag canceled = 0
tag deadline_exceeded = 1
tag no_rows = 2
tag circuit_open = 3
tag idempotency_key_required = 4
tag idempotency_conflict = 5
tag already_charged = 6
tag not_charged = 7
tag already_refunded = 8
tag invalid_driver_id = 9
tag invalid_latitude = 10
tag invalid_longitude = 11

abbrev pub same : Sentinel → Sentinel → Bool
same a b = tag a == tag b

-- `errors.Is(err, target)`
unfoldable mutual
  pub error_is : GoError → Sentinel → Bool
  error_is (sentinel s) t = same s t
  error_is (message m) t = false
  error_is (wrapped m e r) t = error_is e t
  error_is (joined es) t = errors_is es t

  pub errors_is : GoErrors → Sentinel → Bool
  errors_is nil t = false
  errors_is (cons e es) t = error_is e t || errors_is es t

-- The texts of the sentinels.
abbrev pub sentinel_text : Sentinel → String
sentinel_text canceled = "context canceled"
sentinel_text deadline_exceeded = "context deadline exceeded"
sentinel_text no_rows = "sql: no rows in result set"
sentinel_text circuit_open = "circuit breaker open"
sentinel_text idempotency_key_required = "idempotency key required"
sentinel_text idempotency_conflict = "idempotency key reused with different payload"
sentinel_text already_charged = "order already charged"
sentinel_text not_charged = "order not charged"
sentinel_text already_refunded = "order already refunded"
sentinel_text invalid_driver_id = "driver id is required"
sentinel_text invalid_latitude = "latitude must be between -90 and 90"
sentinel_text invalid_longitude = "longitude must be between -180 and 180"

-- `err.Error()`
unfoldable mutual
  pub error_text : GoError → String
  error_text (sentinel s) = sentinel_text s
  error_text (message m) = m
  error_text (wrapped m e r) = m ++ error_text e ++ r
  error_text (joined es) = errors_text es

  pub errors_text : GoErrors → String
  errors_text nil = ""
  errors_text (cons e es) = joined_text (error_text e) es

  joined_text : String → GoErrors → String
  joined_text s nil = s
  joined_text s (cons e es) = s ++ "\n" ++ joined_text (error_text e) es

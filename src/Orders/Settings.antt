-- ===== src/Orders/Settings.antt =====
-- internal/orders/reliability_config.go: the settings of the reliable clients.
pub mod Laws
use Prim.Native.String.{◌++◌}
use orders_go.Common.{String, Option, none, some, List, [], ◌∷◌, str_eq, if◌then◌else◌}
use orders_go.Common.Int.{ℤ, pos, ltb_ℤ}
use orders_go.Go.Int64.{Duration}
use orders_go.Go.Errors.{GoError, message, wrapped}

pub record ReliabilityConfig : Type 0 where
  pub retry_max_attempts : ℤ
  pub retry_base_delay : Duration
  pub retry_max_delay : Duration
  pub breaker_max_failures : ℤ
  pub breaker_reset_timeout : Duration
  pub rate_limit_interval : Duration
  pub rate_limit_burst : ℤ

-- `ReliabilityConfig{}`
abbrev pub no_config : ReliabilityConfig
no_config = record {
  retry_max_attempts = pos 0;
  retry_base_delay = pos 0;
  retry_max_delay = pos 0;
  breaker_max_failures = pos 0;
  breaker_reset_timeout = pos 0;
  rate_limit_interval = pos 0;
  rate_limit_burst = pos 0;
}

-- What a parser of the standard library returns.
pub data Parsed : Type 0 where
  value : ℤ → Parsed
  malformed : GoError → Parsed

-- Both functions `parseRequired…`, over the parser that they call.
unfoldable pub parse_required :
    (String → String) → (String → String) → (String → Parsed) → String → ℤ × Option GoError
parse_required trim_space getenv parse name =
    let raw = trim_space (getenv name) in
    if str_eq raw "" then (pos 0, some (message (name ++ " is required"))) else elim (parse raw) [
      | malformed e ↦ (pos 0, some (wrapped (name ++ ": ") e ""))
      | value n ↦
          if ltb_ℤ n (pos 0) then (pos 0, some (message (name ++ " must be >= 0"))) else (n, none)
    ]

-- A field that is read: what is assigned to it, and the error of the read.
pub record Field (C : Type 0) : Type 0 where
  pub set : C → C
  pub err : Option GoError

-- `cfg.Field, err = parse…`
abbrev pub field : {A C : Type 0} → A × Option GoError → (A → C → C) → Field C
field (a, err) set = record { set = set a; err = err }

-- `if cfg.Field, err = parse…; err != nil { return cfg, err }`, for one field after the other.
unfoldable pub read_all : {C : Type 0} → List (Field C) → C → C × Option GoError
read_all [] c = (c, none)
read_all (f ∷ fs) c =
    let rest = read_all fs (f.set c) in elim f.err [ some e ↦ (f.set c, some e) | none ↦ rest ]

module _ (trim_space getenv : String → String) (parse_duration atoi : String → Parsed) where
  abbrev pub reliability_fields : List (Field ReliabilityConfig)
  reliability_fields =
      let int = parse_required trim_space getenv atoi in
      let duration = parse_required trim_space getenv parse_duration in
      field (int "ORDER_RETRY_MAX_ATTEMPTS") (λ n c. record c { retry_max_attempts = n })
      ∷ field (duration "ORDER_RETRY_BASE_DELAY") (λ n c. record c { retry_base_delay = n })
      ∷ field (duration "ORDER_RETRY_MAX_DELAY") (λ n c. record c { retry_max_delay = n })
      ∷ field (int "ORDER_BREAKER_MAX_FAILURES") (λ n c. record c { breaker_max_failures = n })
      ∷ field (duration "ORDER_BREAKER_RESET_TIMEOUT")
          (λ n c. record c { breaker_reset_timeout = n })
      ∷ field (duration "ORDER_RATE_LIMIT_INTERVAL") (λ n c. record c { rate_limit_interval = n })
      ∷ field (int "ORDER_RATE_LIMIT_BURST") (λ n c. record c { rate_limit_burst = n })
      ∷ []

  unfoldable pub load_reliability_config : ReliabilityConfig × Option GoError
  load_reliability_config = read_all reliability_fields no_config

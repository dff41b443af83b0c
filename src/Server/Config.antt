-- ===== src/Server/Config.antt =====
-- cmd/server/config/config.go: the readers of variables, and the small configurations.
pub mod Redis
use Prim.Native.String.{◌++◌}
use orders_go.Common.{String, Bool, true, false, ◌⊎◌, Option, none, some, str_eq, if◌then◌else◌}
use orders_go.Common.Int.{ℤ, pos, ltb_ℤ}
use orders_go.Go.Int64.{Duration}
use orders_go.Go.Errors.{GoError, message, wrapped}
use orders_go.Orders.Settings.{Parsed, value, malformed, parse_required}

-- What the functions call: `strings.TrimSpace`, `os.Getenv`, `time.ParseDuration`, `strconv.Atoi`,
-- `strconv.ParseInt` and `strconv.ParseBool`, `os.ReadFile`, the pool that `AppendCertsFromPEM` makes
-- of a file when it finds certificates, and `tls.LoadX509KeyPair`.
pub record Host (Pool Certificate : Type 0) : Type 0 where
  pub trim_space : String → String
  pub getenv : String → String
  pub parse_duration : String → Parsed
  pub atoi : String → Parsed
  pub parse_int : String → Parsed
  pub parse_bool : String → Bool × Option GoError
  pub read_file : String → String × Option GoError
  pub pool_of : String → Option Pool
  pub load_key_pair : String → String → GoError ⊎ Certificate

pub record GrpcConfig : Type 0 where
  pub rate_limit_interval : Duration
  pub rate_limit_burst : ℤ

-- `GRPCConfig{}`
abbrev pub no_grpc : GrpcConfig
no_grpc = record { rate_limit_interval = pos 0; rate_limit_burst = pos 0 }

pub record ObservabilityConfig : Type 0 where
  pub addr : String

module _ {Pool Certificate : Type 0} (h : Host Pool Certificate) where
  abbrev pub variable : String → String
  variable name = h.trim_space (h.getenv name)

  unfoldable pub required_string : String → String × Option GoError
  required_string name =
      let raw = variable name in
      if str_eq raw "" then ("", some (message (name ++ " is required"))) else (raw, none)

  -- The three readers of a required number have the body of those of the order settings.
  abbrev pub required_int : String → ℤ × Option GoError
  required_int = parse_required h.trim_space h.getenv h.atoi

  abbrev pub required_duration : String → ℤ × Option GoError
  required_duration = parse_required h.trim_space h.getenv h.parse_duration

  abbrev pub required_int64 : String → ℤ × Option GoError
  required_int64 = parse_required h.trim_space h.getenv h.parse_int

  -- `optionalDuration` and `optionalInt`, over the parser that they call. A nil pointer is none.
  unfoldable pub optional_number : (String → Parsed) → String → Option ℤ × Option GoError
  optional_number parse name =
      let raw = variable name in
      if str_eq raw "" then (none, none) else elim (parse raw) [
        | malformed e ↦ (none, some (wrapped (name ++ ": ") e ""))
        | value n ↦
            if ltb_ℤ n (pos 0)
            then (none, some (message (name ++ " must be >= 0")))
            else (some n, none)
      ]

  unfoldable pub optional_bool : String → Bool × Option GoError
  optional_bool name =
      let raw = variable name in
      if str_eq raw ""
      then (false, none)
      else let (val, err) = h.parse_bool raw in
        elim err [ some e ↦ (false, some (wrapped (name ++ ": ") e "")) | none ↦ (val, none) ]

  -- `GetRedisURL`
  abbrev pub get_redis_url : String × Option GoError
  get_redis_url = required_string "REDIS_URL"

  unfoldable pub load_grpc : GrpcConfig × Option GoError
  load_grpc =
      let (interval, err) = required_duration "GRPC_RATE_LIMIT_INTERVAL" in
      elim err [
        | some e ↦ (no_grpc, some e)
        | none ↦
            let (burst, err) = required_int "GRPC_RATE_LIMIT_BURST" in
            elim err [
              | some e ↦ (no_grpc, some e)
              | none ↦ (record { rate_limit_interval = interval; rate_limit_burst = burst }, none)
            ]
      ]

  unfoldable pub load_observability : ObservabilityConfig × Option GoError
  load_observability =
      let (addr, err) = required_string "OBS_ADDR" in
      elim err [ some e ↦ (record { addr = "" }, some e) | none ↦ (record { addr = addr }, none) ]

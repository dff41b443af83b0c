-- ===== src/Server/Config/Redis.antt =====
-- cmd/server/config/config.go: the Redis configuration, with its TLS part.
pub mod Laws
pub mod Tls
use Prim.Native.String.{◌++◌}
use orders_go.Common.{
  String, Bool, true, false, ◌&&◌, not, ◌⊎◌, inl, inr, Option, none, some, List, [], ◌∷◌, str_eq,
  if◌then◌else◌,
}
use orders_go.Common.Int.{ℤ, pos}
use orders_go.Go.Int64.{Duration}
use orders_go.Go.Errors.{GoError, message, wrapped}
use orders_go.Orders.Settings.{Field, field, read_all}
use orders_go.Server.Config.{
  Host, variable, required_string, required_duration, required_int64, optional_number,
  optional_bool,
}

-- `tls.Config`, as far as it is set: MinVersion, which is TLS 1.2 in every one, is left out.
pub record TlsConfig (Pool Certificate : Type 0) : Type 0 where
  pub server_name : String
  pub insecure_skip_verify : Bool
  pub root_cas : Option Pool
  pub certificates : List Certificate

pub record RedisConfig (Pool Certificate : Type 0) : Type 0 where
  pub url : String
  pub stream : String
  pub dial_timeout : Option Duration
  pub read_timeout : Option Duration
  pub write_timeout : Option Duration
  pub pool_size : Option ℤ
  pub min_idle_conns : Option ℤ
  pub max_retries : Option ℤ
  pub healthcheck_timeout : Duration
  pub location_ttl : Duration
  pub stream_max_len : ℤ
  pub enable_otel : Bool
  pub tls_config : Option (TlsConfig Pool Certificate)

module _ {Pool Certificate : Type 0} (h : Host Pool Certificate) where
  -- What a step of `loadRedisTLSFromEnv` returns: an error, or the configuration so far.
  abbrev pub Loaded : Type 0
  Loaded = GoError ⊎ TlsConfig Pool Certificate

  -- `if insecureStr != "" { … }`
  unfoldable pub load_insecure : String → TlsConfig Pool Certificate → Loaded
  load_insecure raw tls =
      if str_eq raw ""
      then inr tls
      else let (insecure, err) = h.parse_bool raw in
        elim err [
          | some e ↦ inl (wrapped "REDIS_TLS_INSECURE_SKIP_VERIFY: " e "")
          | none ↦ inr (record tls { insecure_skip_verify = insecure })
        ]

  -- `if caFile != "" { … }`
  unfoldable pub load_roots : String → TlsConfig Pool Certificate → Loaded
  load_roots file tls =
      if str_eq file ""
      then inr tls
      else let (pem, err) = h.read_file file in
        elim err [
          | some e ↦ inl (wrapped "read REDIS_TLS_CA_FILE: " e "")
          | none ↦ elim (h.pool_of pem) [
            | none ↦ inl (message "REDIS_TLS_CA_FILE contains no valid certificates")
            | some pool ↦ inr (record tls { root_cas = some pool })
          ]
        ]

  -- `if certFile != "" { … }`
  unfoldable pub load_certificate : String → String → TlsConfig Pool Certificate → Loaded
  load_certificate cert_file key_file tls =
      if str_eq cert_file "" then inr tls else elim (h.load_key_pair cert_file key_file) [
        | inl e ↦ inl (wrapped "load redis TLS keypair: " e "")
        | inr cert ↦ inr (record tls { certificates = cert ∷ [] })
      ]

  abbrev pub and_then : Loaded → (TlsConfig Pool Certificate → Loaded) → Loaded
  and_then (inl e) rest = inl e
  and_then (inr tls) rest = rest tls

  abbrev pub returned : Loaded → Option (TlsConfig Pool Certificate) × Option GoError
  returned (inl e) = (none, some e)
  returned (inr tls) = (some tls, none)

  -- The three of them, one after the other.
  unfoldable pub read_files : Loaded
  read_files =
      let start : TlsConfig Pool Certificate = record {
        server_name = variable h "REDIS_TLS_SERVER_NAME";
        insecure_skip_verify = false;
        root_cas = none;
        certificates = [];
      } in
      and_then
        (and_then (load_insecure (variable h "REDIS_TLS_INSECURE_SKIP_VERIFY") start)
          (load_roots (variable h "REDIS_TLS_CA_FILE")))
        (load_certificate (variable h "REDIS_TLS_CERT_FILE") (variable h "REDIS_TLS_KEY_FILE"))

  unfoldable pub load_tls : Option (TlsConfig Pool Certificate) × Option GoError
  load_tls =
      let ca_file = variable h "REDIS_TLS_CA_FILE" in
      let cert_file = variable h "REDIS_TLS_CERT_FILE" in
      let key_file = variable h "REDIS_TLS_KEY_FILE" in
      let server_name = variable h "REDIS_TLS_SERVER_NAME" in
      let insecure = variable h "REDIS_TLS_INSECURE_SKIP_VERIFY" in
      if str_eq ca_file ""
        && str_eq cert_file ""
        && str_eq key_file ""
        && str_eq server_name ""
        && str_eq insecure ""
      then (none, none)
      else if (if str_eq cert_file "" then not (str_eq key_file "") else str_eq key_file "")
      then (none, some (message "REDIS_TLS_CERT_FILE and REDIS_TLS_KEY_FILE must be set together"))
      else returned read_files

  -- `RedisConfig{Stream: …}`
  abbrev pub no_redis : RedisConfig Pool Certificate
  no_redis = record {
    url = "";
    stream = variable h "REDIS_STREAM";
    dial_timeout = none;
    read_timeout = none;
    write_timeout = none;
    pool_size = none;
    min_idle_conns = none;
    max_retries = none;
    healthcheck_timeout = pos 0;
    location_ttl = pos 0;
    stream_max_len = pos 0;
    enable_otel = false;
    tls_config = none;
  }

  abbrev pub redis_fields : List (Field (RedisConfig Pool Certificate))
  redis_fields =
      let duration = optional_number h h.parse_duration in
      let int = optional_number h h.atoi in
      field (duration "REDIS_DIAL_TIMEOUT") (λ x c. record c { dial_timeout = x })
      ∷ field (duration "REDIS_READ_TIMEOUT") (λ x c. record c { read_timeout = x })
      ∷ field (duration "REDIS_WRITE_TIMEOUT") (λ x c. record c { write_timeout = x })
      ∷ field (int "REDIS_POOL_SIZE") (λ x c. record c { pool_size = x })
      ∷ field (int "REDIS_MIN_IDLE_CONNS") (λ x c. record c { min_idle_conns = x })
      ∷ field (int "REDIS_MAX_RETRIES") (λ x c. record c { max_retries = x })
      ∷ field (required_duration h "REDIS_HEALTHCHECK_TIMEOUT")
          (λ x c. record c { healthcheck_timeout = x })
      ∷ field (required_duration h "REDIS_LOCATION_TTL") (λ x c. record c { location_ttl = x })
      ∷ field (required_int64 h "REDIS_STREAM_MAXLEN") (λ x c. record c { stream_max_len = x })
      ∷ field (optional_bool h "REDIS_OTEL") (λ x c. record c { enable_otel = x })
      ∷ field load_tls (λ x c. record c { tls_config = x })
      ∷ []

  unfoldable pub load_redis : RedisConfig Pool Certificate × Option GoError
  load_redis =
      let (url, err) = required_string h "REDIS_URL" in
      elim err [
        | some e ↦ (no_redis, some e)
        | none ↦ read_all redis_fields (record no_redis { url = url })
      ]

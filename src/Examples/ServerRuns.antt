-- ===== src/Examples/ServerRuns.antt =====
-- The spans of two calls, and the settings of a host with the variables that it needs.
use orders_go.Common.{
  ◌≡◌, ◌↔◌, true, String, none, some, [], ◌∷◌, arith, str_eq, if◌then◌else◌, inr,
}
use orders_go.Common.Int.{pos}
use orders_go.Go.Float64.{float_zero}
use orders_go.Orders.Settings.{ReliabilityConfig, value, load_reliability_config}
use orders_go.Orders.Settings.Laws.{IsConfigured, load_reliability_config-nil}
use orders_go.Observability.Metrics.{CallSpan, start, end_span, new_metrics}
use orders_go.Observability.Metrics.Laws.{stats_of}
use orders_go.Observability.Metrics.Snapshot.{snapshot}
use orders_go.Observability.Metrics.Spans.{
  Calls, starts, ends, Run, stay, step, no_calls, spans_of, snapshot_counts,
}
use orders_go.Server.Config.{Host}
use orders_go.Server.Config.Redis.{TlsConfig, RedisConfig, load_redis, load_tls}
use orders_go.Server.Config.Redis.Laws.{IsRead, load_redis-nil}
use orders_go.Server.Config.Redis.Tls.{AreBlank, IsConfigured as IsTlsConfigured, load_tls_outcome}

abbrev first : CallSpan
first = record { tracked = true; method = "/a"; started = pos 1 }

abbrev second : CallSpan
second = record { tracked = true; method = "/a"; started = pos 2 }

-- Two calls of "/a" start, and the first of them ends.
abbrev calls : Calls
calls =
    let m₀ = new_metrics (pos 0) in
    let (_, m₁) = start (pos 1) "/a" m₀ in
    let (_, m₂) = start (pos 2) "/a" m₁ in
    record { metrics = end_span (pos 3) none first m₂; live = second ∷ []; ended = 1 }

two_calls : Run (no_calls (pos 0)) calls
unfolding start
two_calls =
    step (step (step stay (starts (pos 1) "/a" (omega arith))) (starts (pos 2) "/a" (omega arith)))
      (ends (second ∷ []) [] first (pos 3) none (omega arith))

snapshot_counts_example :
    let s = snapshot (λ _. float_zero) (λ _ _. float_zero) (λ d. d) (pos 4) calls.metrics in
    (s.in_flight ≡ pos 1)
    × (s.total_requests ≡ pos 1)
    × ((m : String) → (stats_of m calls.metrics).in_flight ≡ pos (spans_of m calls.live))
snapshot_counts_example =
    snapshot_counts (λ _. float_zero) (λ _ _. float_zero) (λ d. d) (pos 0) (pos 4) calls two_calls

-- Every variable but those for TLS is "1", and every number parses as 1.
abbrev getenv : String → String
getenv name =
    if str_eq name "REDIS_TLS_CA_FILE"
    then ""
    else if str_eq name "REDIS_TLS_CERT_FILE"
    then ""
    else if str_eq name "REDIS_TLS_KEY_FILE"
    then ""
    else if str_eq name "REDIS_TLS_SERVER_NAME"
    then ""
    else if str_eq name "REDIS_TLS_INSECURE_SKIP_VERIFY"
    then ""
    else "1"

abbrev host : Host Unit Unit
host = record {
  trim_space = λ s. s;
  getenv = getenv;
  parse_duration = λ _. value (pos 1);
  atoi = λ _. value (pos 1);
  parse_int = λ _. value (pos 1);
  parse_bool = λ _. (true, none);
  read_file = λ _. ("", none);
  pool_of = λ _. none;
  load_key_pair = λ _ _. inr tt;
}

abbrev redis : RedisConfig Unit Unit
redis = record {
  url = "1";
  stream = "1";
  dial_timeout = some (pos 1);
  read_timeout = some (pos 1);
  write_timeout = some (pos 1);
  pool_size = some (pos 1);
  min_idle_conns = some (pos 1);
  max_retries = some (pos 1);
  healthcheck_timeout = pos 1;
  location_ttl = pos 1;
  stream_max_len = pos 1;
  enable_otel = true;
  tls_config = none;
}

load_redis-nil_example : load_redis host ≡ (redis, none) ↔ IsRead host redis
load_redis-nil_example = load_redis-nil host redis

load_tls_outcome_example :
    (load_tls host ≡ (none, none) ↔ AreBlank host)
    × ((t : TlsConfig Unit Unit) → load_tls host ≡ (some t, none) → IsTlsConfigured host t)
load_tls_outcome_example = load_tls_outcome host

abbrev settings : ReliabilityConfig
settings = record {
  retry_max_attempts = pos 1;
  retry_base_delay = pos 1;
  retry_max_delay = pos 1;
  breaker_max_failures = pos 1;
  breaker_reset_timeout = pos 1;
  rate_limit_interval = pos 1;
  rate_limit_burst = pos 1;
}

load_reliability_config-nil_example :
    load_reliability_config host.trim_space host.getenv host.parse_duration host.atoi
      ≡ (settings, none)
    ↔ IsConfigured host.trim_space host.getenv host.parse_duration host.atoi settings
load_reliability_config-nil_example =
    load_reliability_config-nil host.trim_space host.getenv host.parse_duration host.atoi settings

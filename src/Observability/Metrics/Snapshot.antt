-- ===== src/Observability/Metrics/Snapshot.antt =====
-- metrics.go, `Metrics.Snapshot`. The conversions to floats, the division of floats, and the uptime in
-- seconds, which goes through a float, are arguments.
use orders_go.Common.{◌^◌, String, Option, List, [], ◌∷◌, if◌then◌else◌}
use orders_go.Common.Int.{ℤ, pos, ltb_ℤ}
use orders_go.Go.Int64.{Time, Duration, div64, time_sub}
use orders_go.Go.Float64.{Float64, float_zero}
use orders_go.Observability.Metrics.{MethodStats, Metrics, total}

pub record MethodSnapshot : Type 0 where
  pub count : ℤ
  pub errors : ℤ
  pub in_flight : ℤ
  pub avg_latency_ms : Float64
  pub max_latency_ms : Float64
  pub last_latency_ms : Float64

pub record Snapshot : Type 0 where
  pub uptime_sec : ℤ
  pub total_requests : ℤ
  pub total_errors : ℤ
  pub in_flight : ℤ
  pub rate_limit_waits : ℤ
  pub rate_limit_wait_ms : ℤ
  pub lifecycle : Option (Time × ℤ)
  pub methods : List (String × MethodSnapshot)

-- `Duration.Milliseconds`
abbrev pub milliseconds : Duration → ℤ
milliseconds d = div64 d (pos (10 ^ 6))

module _ (float_of : ℤ → Float64) (float_div : Float64 → Float64 → Float64)
    (whole_seconds : Duration → ℤ) where
  unfoldable pub method_snapshot : MethodStats → MethodSnapshot
  method_snapshot s = record {
    count = s.count;
    errors = s.errors;
    in_flight = s.in_flight;
    avg_latency_ms =
        if ltb_ℤ (pos 0) s.count
        then float_div (float_of (milliseconds s.total_latency)) (float_of s.count)
        else float_zero;
    max_latency_ms = float_of (milliseconds s.max_latency);
    last_latency_ms = float_of (milliseconds s.last_latency);
  }

  unfoldable pub method_snapshots : List (String × MethodStats) → List (String × MethodSnapshot)
  method_snapshots [] = []
  method_snapshots ((m, s) ∷ rest) = (m, method_snapshot s) ∷ method_snapshots rest

  unfoldable pub snapshot : Time → Metrics → Snapshot
  snapshot now m = record {
    uptime_sec = whole_seconds (time_sub now m.started);
    total_requests = total (λ s. s.count) m.methods;
    total_errors = total (λ s. s.errors) m.methods;
    in_flight = total (λ s. s.in_flight) m.methods;
    rate_limit_waits = m.rate_limit_waits;
    rate_limit_wait_ms = milliseconds m.rate_limit_wait;
    lifecycle = m.lifecycle;
    methods = method_snapshots m.methods;
  }

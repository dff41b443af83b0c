-- ===== src/Observability/Endpoint.antt =====
-- internal/observability/http.go: the answer of the metrics endpoint, over the JSON encoder.
use orders_go.Common.{String, Option, none, some, []}
use orders_go.Common.Int.{ℤ, pos}
use orders_go.Go.Int64.{Time, Duration}
use orders_go.Go.Float64.{Float64}
use orders_go.Go.Errors.{GoError}
use orders_go.Observability.Metrics.{Metrics}
use orders_go.Observability.Metrics.Snapshot.{Snapshot, snapshot}

pub record Response : Type 0 where
  pub content_type : String
  pub body : String

-- `Snapshot{}`, the snapshot of a nil `Metrics`.
abbrev pub no_snapshot : Snapshot
no_snapshot = record {
  uptime_sec = pos 0;
  total_requests = pos 0;
  total_errors = pos 0;
  in_flight = pos 0;
  rate_limit_waits = pos 0;
  rate_limit_wait_ms = pos 0;
  lifecycle = none;
  methods = [];
}

-- `encode` is what the encoder writes, with its error, which is dropped.
unfoldable pub handler :
    (ℤ → Float64)
    → (Float64 → Float64 → Float64)
    → (Duration → ℤ)
    → (Snapshot → String × Option GoError)
    → Option Metrics
    → Time
    → Response
handler float_of float_div whole_seconds encode metrics now =
    let snap : Snapshot = elim metrics [
      | none ↦ no_snapshot
      | some m ↦ snapshot float_of float_div whole_seconds now m
    ] in
    record { content_type = "application/json"; body = (encode snap).0 }

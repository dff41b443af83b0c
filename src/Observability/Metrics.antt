-- ===== src/Observability/Metrics.antt =====
-- internal/observability/metrics.go. `now` is what `time.Now` reads in the call.
pub mod Laws
pub mod Snapshot
pub mod Sums
pub mod Spans
use orders_go.Common.{
  ℕ, ◌*◌, ◌^◌, String, Bool, true, false, Option, none, some, List, [], ◌∷◌, str_eq, is_some,
  if◌then◌else◌,
}
use orders_go.Common.Int.{ℤ, pos, ltb_ℤ, leb_ℤ}
use orders_go.Go.Int64.{Time, Duration, add64, sub64, div64, time_sub}
use orders_go.Go.Errors.{GoError}

pub record MethodStats : Type 0 where
  pub count : ℤ
  pub errors : ℤ
  pub in_flight : ℤ
  pub total_latency : Duration
  pub max_latency : Duration
  pub last_latency : Duration

-- `&methodStats{}`
abbrev pub no_stats : MethodStats
no_stats = record {
  count = pos 0;
  errors = pos 0;
  in_flight = pos 0;
  total_latency = pos 0;
  max_latency = pos 0;
  last_latency = pos 0;
}

-- The map of methods is an association list. `lifecycle` is none until the shutdown is marked.
pub record Metrics : Type 0 where
  pub started : Time
  pub methods : List (String × MethodStats)
  pub rate_limit_waits : ℤ
  pub rate_limit_wait : Duration
  pub lifecycle : Option (Time × ℤ)

-- A span of a nil `Metrics` has none.
pub record CallSpan : Type 0 where
  pub tracked : Bool
  pub method : String
  pub started : Time

unfoldable pub new_metrics : Time → Metrics
new_metrics now = record {
  started = now;
  methods = [];
  rate_limit_waits = pos 0;
  rate_limit_wait = pos 0;
  lifecycle = none;
}

unfoldable pub lookup : String → List (String × MethodStats) → Option MethodStats
lookup m [] = none
lookup m ((k, s) ∷ rest) = if str_eq k m then some s else lookup m rest

-- `ensureMethod`, and then the change of the stats that it returns.
unfoldable pub modify_method :
    (MethodStats → MethodStats) → String → List (String × MethodStats) → List (String × MethodStats)
modify_method f m [] = (m, f no_stats) ∷ []
modify_method f m ((k, s) ∷ rest) =
    if str_eq k m then (k, f s) ∷ rest else (k, s) ∷ modify_method f m rest

abbrev pub entered : MethodStats → MethodStats
entered s = record s { in_flight = add64 s.in_flight (pos 1) }

unfoldable pub start : Time → String → Metrics → CallSpan × Metrics
start now method m = (
  record { tracked = true; method = method; started = now },
  record m { methods = modify_method entered method m.methods },
)

abbrev pub left : Duration → Bool → MethodStats → MethodStats
left dur failed s = record s {
  in_flight = sub64 s.in_flight (pos 1);
  count = add64 s.count (pos 1);
  errors = if failed then add64 s.errors (pos 1) else s.errors;
  total_latency = add64 s.total_latency dur;
  max_latency = if ltb_ℤ s.max_latency dur then dur else s.max_latency;
  last_latency = dur;
}

unfoldable pub finish : String → Duration → Bool → Metrics → Metrics
finish method dur failed m = record m { methods = modify_method (left dur failed) method m.methods }

-- `CallSpan.End`
unfoldable pub end_span : Time → Option GoError → CallSpan → Metrics → Metrics
end_span now err span m =
    if span.tracked then finish span.method (time_sub now span.started) (is_some err) m else m

unfoldable pub add_rate_limit_wait : Duration → Metrics → Metrics
add_rate_limit_wait d m = if leb_ℤ d (pos 0) then m else record m {
  rate_limit_waits = add64 m.rate_limit_waits (pos 1);
  rate_limit_wait = add64 m.rate_limit_wait d;
}

unfoldable pub mark_shutdown : Time → ℤ → Metrics → Metrics
mark_shutdown now in_flight m = record m { lifecycle = some (now, in_flight) }

-- The totals of `Snapshot`.
unfoldable pub total : (MethodStats → ℤ) → List (String × MethodStats) → ℤ
total f [] = pos 0
total f ((k, s) ∷ rest) = add64 (f s) (total f rest)

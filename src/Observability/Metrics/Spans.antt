-- ===== src/Observability/Metrics/Spans.antt =====
-- metrics.go: any interleaving of the calls that start and end spans, and the snapshot after it.
use text.Mathlib.TextEquality.{eq_iff}
use text.Mathlib.TextPositions.{eq_refl}
use orders_go.Common.{
  ℕ, suc, ◌+◌, ◌^◌, ◌<◌, ◌≤◌, ◌≡◌, ◌∙◌, refl, sym, ap, String, Option, List, [], ◌∷◌, ◌++◌, str_eq,
  arith, is_some, true, Bool-cases, inl, inr, if◌then◌else◌,
}
use orders_go.Common.Int.{ℤ, pos}
use orders_go.Common.Lists.{length, length-append}
use orders_go.Go.Int64.{Time, Duration, add64, add64_pos, sub64, sub64_pos, time_sub}
use orders_go.Go.Errors.{GoError}
use orders_go.Go.Float64.{Float64}
use orders_go.Observability.Metrics.{
  MethodStats, Metrics, CallSpan, no_stats, lookup, new_metrics, entered, left, start, end_span,
  finish, add_rate_limit_wait,
}
use orders_go.Observability.Metrics.Laws.{found, found-modify_any, stats_of}
use orders_go.Observability.Metrics.Snapshot.{snapshot}
use orders_go.Observability.Metrics.Sums.{AddUp, total-AddUp, modify_method-AddUp}

-- The metrics, the spans that are open, and how many have ended.
pub record Calls : Type 0 where
  pub metrics : Metrics
  pub live : List CallSpan
  pub ended : ℕ

-- A span starts, one of the open spans ends, or a wait is recorded. No counter reaches 2^63.
pub data Step : Calls → Calls → Type 0 where
  starts :
      {c : Calls} (now : Time) (method : String)
      → length c.live + 1 < 2 ^ 63
      → Step c (record {
        metrics = (start now method c.metrics).1;
        live = (start now method c.metrics).0 ∷ c.live;
        ended = c.ended;
      })
  ends :
      {m : Metrics} {n : ℕ} (before after : List CallSpan) (span : CallSpan) (now : Time)
      (err : Option GoError)
      → n + 1 < 2 ^ 63
      → Step
          (record { metrics = m; live = before ++ span ∷ after; ended = n })
          (record { metrics = end_span now err span m; live = before ++ after; ended = n + 1 })
  waits :
      {c : Calls} (d : Duration) → Step c (record c { metrics = add_rate_limit_wait d c.metrics })

pub data Run : Calls → Calls → Type 0 where
  stay : {c : Calls} → Run c c
  step : {c d e : Calls} → Run c d → Step d e → Run c e

abbrev pub no_calls : Time → Calls
no_calls now = record { metrics = new_metrics now; live = []; ended = 0 }

-- How many of the spans are of the method.
abbrev pub spans_of : String → List CallSpan → ℕ
spans_of m [] = 0
spans_of m (s ∷ rest) = let n = spans_of m rest in if str_eq s.method m then n + 1 else n

abbrev AllTracked : List CallSpan → Type 0
AllTracked [] = Unit
AllTracked (s ∷ rest) = (s.tracked ≡ true) × AllTracked rest

abbrev pub IsCounted : Calls → Type 0
IsCounted c =
    AllTracked c.live
    × ((m : String) → (stats_of m c.metrics).in_flight ≡ pos (spans_of m c.live))
    × AddUp (λ s. s.in_flight) c.metrics.methods (length c.live)
    × AddUp (λ s. s.count) c.metrics.methods c.ended
    × (length c.live < 2 ^ 63)
    × (c.ended < 2 ^ 63)

spans_of-insert :
    (m : String) (before after : List CallSpan) (s : CallSpan)
    → spans_of m (before ++ s ∷ after) ≡ spans_of m (s ∷ (before ++ after))
spans_of-insert m [] after s = refl
spans_of-insert m (t ∷ before) after s = ground (arith, spans_of-insert m before after s)

spans_of-length : (m : String) (l : List CallSpan) → spans_of m l ≤ length l
spans_of-length m [] = omega arith
spans_of-length m (s ∷ l) = ground (arith, spans_of-length m l)

insert-AllTracked :
    (before after : List CallSpan) (s : CallSpan)
    → AllTracked (before ++ s ∷ after)
    → (s.tracked ≡ true) × AllTracked (before ++ after)
insert-AllTracked [] after s h = h
insert-AllTracked (t ∷ before) after s (one, more) =
    let (here, rest) = insert-AllTracked before after s more in (here, (one, rest))

-- The field of a method that the metrics know is at most the sum.
found-AddUp :
    (f : MethodStats → ℤ) (m : String)
    → f no_stats ≡ pos 0
    → (l : List (String × MethodStats)) (n : ℕ) → AddUp f l n
    → (a : ℕ) × (f (found m l) ≡ pos a) × (a ≤ n)
unfolding lookup
found-AddUp f m zero [] n h = (0, zero, omega arith)
found-AddUp f m zero ((k, s) ∷ rest) n (a, b, here, there, sum) = elim (Bool-cases (str_eq k m)) [
  | inl same ↦ (a, rw (found, same) here, omega (arith, sum))
  | inr other ↦
      let (c, at', below) = found-AddUp f m zero rest b there in
      (c, rw (found, other) at', omega (arith, sum, below))
]

starts-IsCounted :
    (c : Calls) (now : Time) (method : String)
    → length c.live + 1 < 2 ^ 63
    → IsCounted c
    → let (span, m) = start now method c.metrics in
      IsCounted (record { metrics = m; live = span ∷ c.live; ended = c.ended })
unfolding start
starts-IsCounted c now method small (tracked, each, flying, counted, _, least) =
    let l = c.metrics.methods in
    let mine = spans_of method c.live in
    let (n, seen, below_n) = found-AddUp (λ s. s.count) method refl l c.ended counted in
    let fits = spans_of-length method c.live in
    let up = add64_pos mine 1 (omega (arith, fits)) in
    let (below, flies) =
      modify_method-AddUp (λ s. s.in_flight) entered method mine (mine + 1) refl
        (λ s at'. ap (λ x. add64 x (pos 1)) at' ∙ up) l (length c.live) (each method) flying in
    let (_, counts) =
      modify_method-AddUp (λ s. s.count) entered method n n refl (λ s at'. at') l c.ended seen
        counted in
    (
      (refl, tracked),
      λ m. ground (arith, found-modify_any entered m method l, each m, eq_iff method m, up),
      flies (suc (length c.live)) (omega arith),
      counts c.ended refl,
      omega (arith, small),
      least,
    )

-- The span at the head ends.
ends-IsCounted :
    (m : Metrics) (n : ℕ) (rest : List CallSpan) (span : CallSpan) (now : Time)
    (err : Option GoError)
    → n + 1 < 2 ^ 63
    → IsCounted (record { metrics = m; live = span ∷ rest; ended = n })
    → IsCounted (record { metrics = end_span now err span m; live = rest; ended = n + 1 })
unfolding end_span finish
ends-IsCounted m n rest span now err small ((one, tracked), each, flying, counted, most, _) =
    let l = m.methods in
    let mine = spans_of span.method rest in
    let own : (stats_of span.method m).in_flight ≡ pos (mine + 1) =
      ground (arith, each span.method, eq_refl span.method) in
    let (c, seen, below_n) = found-AddUp (λ s. s.count) span.method refl l n counted in
    let fits = spans_of-length span.method rest in
    let down = sub64_pos (mine + 1) 1 (omega arith) (omega (arith, fits, most)) in
    let g = left (time_sub now span.started) (is_some err) in
    let (_, flies) =
      modify_method-AddUp (λ s. s.in_flight) g span.method (mine + 1) mine refl
        (λ s at'. ap (λ x. sub64 x (pos 1)) at' ∙ down ∙ ap pos (omega arith)) l (suc (length rest))
        own flying in
    let (_, counts) =
      modify_method-AddUp (λ s. s.count) g span.method c (c + 1) refl
        (λ s at'. ap (λ x. add64 x (pos 1)) at' ∙ add64_pos c 1 (omega (arith, below_n))) l n seen
        counted in
    rw one (
      tracked,
      λ j. ground (arith, found-modify_any g j span.method l, each j, eq_iff span.method j, down),
      flies (length rest) (omega arith),
      counts (n + 1) (omega arith),
      omega (arith, most),
      small,
    )

add_rate_limit_wait-methods :
    (d : Duration) (m : Metrics) → (add_rate_limit_wait d m).methods ≡ m.methods
unfolding add_rate_limit_wait
add_rate_limit_wait-methods d m = ground arith

Step-IsCounted : {c d : Calls} → Step c d → IsCounted c → IsCounted d
Step-IsCounted (starts {c} now method small) h = starts-IsCounted c now method small h
Step-IsCounted (ends {m} {n} before after span now err small)
      (tracked, each, flying, counted, most, least) =
    let same = length-append before (span ∷ after) in
    let shorter = length-append before after in
    let sized : length (before ++ span ∷ after) ≡ length (span ∷ (before ++ after)) =
      omega (arith, same, shorter) in
    ends-IsCounted m n (before ++ after) span now err small (
      insert-AllTracked before after span tracked,
      λ j. each j ∙ ap pos (spans_of-insert j before after span),
      rw (sym sized) flying,
      counted,
      rw (sym sized) most,
      least,
    )
Step-IsCounted (waits {c} d) h = rw (add_rate_limit_wait-methods d c.metrics) h

Run-IsCounted : {c d : Calls} → Run c d → IsCounted c → IsCounted d
Run-IsCounted stay h = h
Run-IsCounted (step run one) h = Step-IsCounted one (Run-IsCounted run h)

none_yet : (began : Time) → IsCounted (no_calls began)
unfolding new_metrics lookup
none_yet began = (tt, (λ m. refl), refl, refl, omega arith, omega arith)

-- After any interleaving of calls in which no counter reaches 2^63, a snapshot shows as many calls in
-- flight as there are spans that have not ended, and as many requests as have ended; for each method,
-- the calls in flight are its open spans.
pub snapshot_counts :
    (float_of : ℤ → Float64) (float_div : Float64 → Float64 → Float64)
    (whole_seconds : Duration → ℤ) (began now : Time) (c : Calls)
    → Run (no_calls began) c
    → let s = snapshot float_of float_div whole_seconds now c.metrics in
      (s.in_flight ≡ pos (length c.live))
      × (s.total_requests ≡ pos c.ended)
      × ((m : String) → (stats_of m c.metrics).in_flight ≡ pos (spans_of m c.live))
unfolding snapshot
snapshot_counts float_of float_div whole_seconds began now c run =
    let (_, each, flying, counted, most, least) = Run-IsCounted run (none_yet began) in
    (
      total-AddUp (λ s. s.in_flight) c.metrics.methods (length c.live) most flying,
      total-AddUp (λ s. s.count) c.metrics.methods c.ended least counted,
      each,
    )

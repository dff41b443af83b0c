-- ===== src/Observability/Metrics/Laws.antt =====
-- metrics.go: the spans of calls and the statistics of methods.
use text.Mathlib.TextEquality.{eq_iff}
use text.Mathlib.TextPositions.{eq_refl}
use orders_go.Common.{
  ℕ, ◌^◌, ◌<◌, ◌+◌, ◌≡◌, ◌≢◌, ◌∙◌, refl, String, Option, none, some, List, [], ◌∷◌, str_eq, arith,
  is_some, if◌then◌else◌,
}
use orders_go.Common.Int.{pos}
use orders_go.Go.Int64.{Time, add64_pos, sub64_pos, time_sub}
use orders_go.Go.Errors.{GoError}
use orders_go.Observability.Metrics.{
  MethodStats, Metrics, no_stats, lookup, modify_method, entered, left, start, finish, end_span,
}

-- The statistics of a method, which are zero before its first call.
abbrev pub stats_of : String → Metrics → MethodStats
stats_of m metrics = elim (lookup m metrics.methods) [ none ↦ no_stats | some s ↦ s ]

lookup-modify :
    (f : MethodStats → MethodStats) (j k : String) (l : List (String × MethodStats))
    → lookup j (modify_method f k l) ≡ (
        if str_eq k j
        then some (f (elim (lookup k l) [ none ↦ no_stats | some s ↦ s ]))
        else lookup j l)
unfolding lookup modify_method
lookup-modify f j k [] = refl
lookup-modify f j k ((i, s) ∷ l) =
    ground (arith, lookup-modify f j k l, eq_iff i k, eq_iff i j, eq_iff k j)

-- The statistics of a method in a map.
abbrev pub found : String → List (String × MethodStats) → MethodStats
found k l = elim (lookup k l) [ none ↦ no_stats | some s ↦ s ]

found-modify :
    (f : MethodStats → MethodStats) (k : String) (l : List (String × MethodStats))
    → found k (modify_method f k l) ≡ f (found k l)
found-modify f k l = ground (arith, lookup-modify f k k l, eq_refl k)

lookup-modify_ne :
    (f : MethodStats → MethodStats) (j k : String) (l : List (String × MethodStats))
    → j ≢ k
    → lookup j (modify_method f k l) ≡ lookup j l
lookup-modify_ne f j k l h = ground (arith, lookup-modify f j k l, eq_iff k j)

-- The statistics of any method after a change to those of `k`.
pub found-modify_any :
    (f : MethodStats → MethodStats) (j k : String) (l : List (String × MethodStats))
    → found j (modify_method f k l) ≡ (if str_eq k j then f (found j l) else found j l)
found-modify_any f j k l = ground (arith, lookup-modify f j k l, eq_iff k j)

-- Where the counters stay below 2^63, a span that is started and ended counts one call of its method, one error if it failed, and
-- leaves the calls in flight and every other method as they were.
pub span_counts_once :
    (m : Metrics) (method : String) (began ended : Time) (err : Option GoError) (n c e : ℕ)
    → (stats_of method m).in_flight ≡ pos n
    → (stats_of method m).count ≡ pos c
    → (stats_of method m).errors ≡ pos e
    → n + 1 < 2 ^ 63
    → c + 1 < 2 ^ 63
    → e + 1 < 2 ^ 63
    → let (span, m₁) = start began method m in
      let m₂ = end_span ended err span m₁ in
      ((stats_of method m₁).in_flight ≡ pos (n + 1))
      × ((stats_of method m₂).in_flight ≡ pos n)
      × ((stats_of method m₂).count ≡ pos (c + 1))
      × ((stats_of method m₂).errors ≡ pos (if is_some err then e + 1 else e))
      × ((stats_of method m₂).last_latency ≡ time_sub ended began)
      × ((j : String) → j ≢ method → lookup j m₂.methods ≡ lookup j m.methods)
unfolding start end_span finish
span_counts_once m method began ended err n c e hn hc he ln lc le =
    let dur = time_sub ended began in
    let l₁ = modify_method entered method m.methods in
    let one = found-modify entered method m.methods in
    let two = found-modify (left dur (is_some err)) method l₁ in
    let up = add64_pos n 1 ln in
    let down = sub64_pos (n + 1) 1 (omega arith) ln in
    let counted = add64_pos c 1 lc in
    let failed = add64_pos e 1 le in
    (
      ground (arith, one, hn, up),
      ground (arith, one, two, hn, up, down),
      ground (arith, one, two, hc, counted),
      ground (arith, one, two, he, failed),
      ground (arith, two),
      λ j other.
          lookup-modify_ne (left dur (is_some err)) j method l₁ other
          ∙ lookup-modify_ne entered j method m.methods other,
    )

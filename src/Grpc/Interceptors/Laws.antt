-- ===== src/Grpc/Interceptors/Laws.antt =====
-- grpc_middleware.go: the interceptors and the metrics.
use orders_go.Common.{
  ℕ, ◌+◌, ◌^◌, ◌<◌, ◌≡◌, ◌≢◌, ◌∙◌, sym, String, true, Option, none, some, is_some, arith,
  Option-cases, List, [], ◌∷◌, refl, inl, inr, if◌then◌else◌,
}
use orders_go.Common.Int.{pos}
use orders_go.Go.Int64.{Time, Duration}
use orders_go.Go.Errors.{GoError}
use orders_go.Go.Effects.{M}
use orders_go.Observability.Metrics.{
  Metrics, CallSpan, lookup, start, end_span, finish, add_rate_limit_wait,
}
use orders_go.Observability.Metrics.Laws.{stats_of, span_counts_once}
use orders_go.Grpc.Interceptors.{
  Server, Waiting, add_waits, should_track_method, open_span, close_span, wait_limiter,
  unary_interceptor,
}

-- The metrics after a call of `method` that began with `m` and ended with `err`: one more call, one
-- more error if it failed, and all else as it was.
pub record IsCounted (method : String) (err : Option GoError) (n c e : ℕ) (m m' : Metrics)
    : Type 0 where
  pub same_in_flight : (stats_of method m').in_flight ≡ pos n
  pub one_call : (stats_of method m').count ≡ pos (c + 1)
  pub one_error : (stats_of method m').errors ≡ pos (if is_some err then e + 1 else e)
  pub others : (j : String) → j ≢ method → lookup j m'.methods ≡ lookup j m.methods

-- The counts are in the methods alone.
IsCounted-methods :
    (method : String) (err : Option GoError) (n c e : ℕ) (m m₁ m₂ : Metrics)
    → m₂.methods ≡ m₁.methods
    → IsCounted method err n c e m m₁
    → IsCounted method err n c e m m₂
IsCounted-methods method err n c e m m₁ m₂ same h = record {
  same_in_flight = rw same h.same_in_flight;
  one_call = rw same h.one_call;
  one_error = rw same h.one_error;
  others = λ j other. rw same (h.others j other);
}

end_span-methods :
    (now : Time) (err : Option GoError) (span : CallSpan) (m m₁ : Metrics)
    → m₁.methods ≡ m.methods
    → (end_span now err span m₁).methods ≡ (end_span now err span m).methods
unfolding end_span finish
end_span-methods now err span m m₁ same = ground (arith, same)

add_waits-methods :
    (waits : List Duration) (m : Metrics)
    → (m₁ : Metrics) × (add_waits waits (some m) ≡ some m₁) × (m₁.methods ≡ m.methods)
unfolding add_waits add_rate_limit_wait
add_waits-methods [] m = (m, refl, refl)
add_waits-methods (d ∷ waits) m =
    let (m₁, done, same) = add_waits-methods waits (add_rate_limit_wait d m) in
    (m₁, done, ground (arith, same))

module _ {W : Type 0} (zero : Time) (clock : M W Time) (limiter : Option (Waiting W)) where
  wait_limiter-methods :
      (m : Metrics) (w : W)
      → let (_, s) = wait_limiter zero clock limiter (some m, w) in
        (m₁ : Metrics) × (s.0 ≡ some m₁) × (m₁.methods ≡ m.methods)
  unfolding wait_limiter
  wait_limiter-methods m w = elim (Option-cases limiter) [
    | inl unlimited ↦ rw unlimited (m, refl, refl)
    | inr (wait, limited) ↦ rw limited (add_waits-methods (wait w).0.1 m)
  ]

  open_span-start :
      (method : String) (m : Metrics) (w : W)
      → should_track_method method ≡ true
      → let (span, opened) = start (clock w).0 method m in
        open_span zero clock limiter method (some m, w) ≡ (span, (some opened, (clock w).1))
  unfolding open_span
  open_span-start method m w tracked = ground (arith, tracked)

  module _ {A : Type 0} (nil : A) (method : String) (handler : M W (A × Option GoError))
      (s s₂ s₃ : Server W) (span : CallSpan)
      (opened : open_span zero clock limiter method (s.0, (clock s.1).1) ≡ (span, s₂)) where
    unary_interceptor-refused :
        (err : GoError)
        → wait_limiter zero clock limiter s₂ ≡ (some err, s₃)
        → unary_interceptor zero clock limiter nil method handler s
          ≡ ((nil, some err), close_span zero clock limiter span (some err) s₃)
    unfolding unary_interceptor
    unary_interceptor-refused err waited = ground (arith, opened, waited)

    unary_interceptor-passed :
        wait_limiter zero clock limiter s₂ ≡ (none, s₃)
        → let (r, w₄) = handler s₃.1 in
          unary_interceptor zero clock limiter nil method handler s
          ≡ (r, close_span zero clock limiter span r.1 (s₃.0, w₄))
    unfolding unary_interceptor
    unary_interceptor-passed waited = ground (arith, opened, waited)

  module _ (method : String) (m : Metrics) (n c e : ℕ) (tracked : should_track_method method ≡ true)
      (hn : (stats_of method m).in_flight ≡ pos n) (hc : (stats_of method m).count ≡ pos c)
      (he : (stats_of method m).errors ≡ pos e) (ln : n + 1 < 2 ^ 63) (lc : c + 1 < 2 ^ 63)
      (le : e + 1 < 2 ^ 63) where
    closed-IsCounted :
        (w v : W) (err : Option GoError) (m₁ : Metrics)
        → let (span, opened) = start (clock w).0 method m in
          m₁.methods ≡ opened.methods
          → (m' : Metrics) × ((close_span zero clock limiter span err (some m₁, v)).0 ≡ some m')
            × IsCounted method err n c e m m'
    unfolding close_span start
    closed-IsCounted w v err m₁ same =
        let (span, opened) = start (clock w).0 method m in
        let (_, down, calls, failed, _, rest) =
          span_counts_once m method (clock w).0 (clock v).0 err n c e hn hc he ln lc le in
        (
          end_span (clock v).0 err span m₁,
          refl,
          IsCounted-methods method err n c e m (end_span (clock v).0 err span opened)
              (end_span (clock v).0 err span m₁)
              (end_span-methods (clock v).0 err span opened m₁ same)
              (record {
                same_in_flight = down;
                one_call = calls;
                one_error = failed;
                others = rest;
              }),
        )

    -- Where the counters stay below 2^63, each call of a tracked method is counted once, as an
    -- error if the interceptor returns one, and is in flight no longer, whatever the limiter and
    -- the handler did; where the limiter always refuses, the handler does not matter.
    pub unary_interceptor-IsCounted :
        {A : Type 0} (nil : A) (handler : M W (A × Option GoError)) (w : W)
        → let (r, s) = unary_interceptor zero clock limiter nil method handler (some m, w) in
          ((m' : Metrics) × (s.0 ≡ some m') × IsCounted method r.1 n c e m m')
          × (((v : Server W) → (wait_limiter zero clock limiter v).0 ≢ none)
              → (handler' : M W (A × Option GoError))
              → unary_interceptor zero clock limiter nil method handler' (some m, w) ≡ (r, s))
    unary_interceptor-IsCounted {A} nil handler w =
        let w₁ = (clock w).1 in
        let (span, opened) = start (clock w₁).0 method m in
        let s₂ : Server W = (some opened, (clock w₁).1) in
        let begun = open_span-start method m w₁ tracked in
        let (refusal, (_, w₃)) = wait_limiter zero clock limiter s₂ in
        let (m₁, left, same) = wait_limiter-methods opened s₂.1 in
        elim (Option-cases refusal) [
          | inl passed ↦
              let s₃ : Server W = (some m₁, w₃) in
              let through =
                unary_interceptor-passed nil method handler (some m, w) s₂ s₃ span begun
                  (λ i. (passed i, (left i, w₃))) in
              let (r, w₄) = handler w₃ in
              (
                rw through (closed-IsCounted w₁ w₄ r.1 m₁ same),
                λ refuses. absurd (refuses s₂ passed),
              )
          | inr (err, stopped) ↦
              let s₃ : Server W = (some m₁, w₃) in
              let stops = λ (handler' : M W (A × Option GoError)).
                unary_interceptor-refused nil method handler' (some m, w) s₂ s₃ span begun err
                  (λ i. (stopped i, (left i, w₃))) in
              (
                rw (stops handler) (closed-IsCounted w₁ w₃ (some err) m₁ same),
                λ refuses handler'. stops handler' ∙ sym (stops handler),
              )
        ]

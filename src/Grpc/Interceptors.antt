-- ===== src/Grpc/Interceptors.antt =====
-- cmd/server/grpc_middleware.go: the interceptors that every call passes. What is logged is left out.
pub mod Laws
use orders_go.Common.{
  String, Bool, true, false, Option, none, some, List, [], ◌∷◌, str_eq, ◌&&◌, not, if◌then◌else◌,
}
use orders_go.Go.Int64.{Time, Duration}
use orders_go.Go.Errors.{GoError}
use orders_go.Go.Effects.{M, Action}
use orders_go.Grpc.OrderServer.{codes, begins}
use orders_go.Observability.Metrics.{Metrics, CallSpan, start, end_span, add_rate_limit_wait}

unfoldable pub should_track_method : String → Bool
unfolding begins
should_track_method method =
    not (str_eq method "") && not (begins (codes "/grpc.reflection.") (codes method))

-- The metrics, which may be nil, and the world that the call runs in.
abbrev pub Server : Type 0 → Type 0
Server W = Option Metrics × W

-- `&observability.CallSpan{}`, for the zero time `zero`.
abbrev pub no_span : Time → CallSpan
no_span zero = record { tracked = false; method = ""; started = zero }

-- What `Wait` of a limiter does: it returns nil or a refusal, and hands each wait that it begins to its
-- hook, in this order.
abbrev pub Waiting : Type 0 → Type 0
Waiting W = M W (Option GoError × List Duration)

-- The hook `metrics.AddRateLimitWait` at each of the waits; without metrics it has no effect.
unfoldable pub add_waits : List Duration → Option Metrics → Option Metrics
add_waits waits none = none
add_waits [] (some m) = some m
add_waits (d ∷ waits) (some m) = add_waits waits (some (add_rate_limit_wait d m))

module _ {W : Type 0} (zero : Time) (clock : M W Time) (limiter : Option (Waiting W)) where
  -- The span of a call: started where there are metrics and the method is tracked.
  unfoldable pub open_span : String → M (Server W) CallSpan
  open_span method (none, w) = (no_span zero, (none, w))
  open_span method (some m, w) =
      if should_track_method method
      then (let (now, w₁) = clock w in let (span, m₁) = start now method m in (span, (some m₁, w₁)))
      else (no_span zero, (some m, w))

  -- `span.End(err)`; a span without metrics ends with no effect.
  unfoldable pub close_span : CallSpan → Option GoError → Server W → Server W
  close_span span err (none, w) = (none, w)
  close_span span err (some m, w) =
      if span.tracked
      then (let (now, w₁) = clock w in (some (end_span now err span m), w₁))
      else (some m, w)

  -- `limiter.Wait(ctx)`, where there is a limiter.
  unfoldable pub wait_limiter : Action (Server W)
  wait_limiter (metrics, w) = elim limiter [
    | none ↦ (none, (metrics, w))
    | some wait ↦ let ((refusal, waits), w₁) = wait w in (refusal, (add_waits waits metrics, w₁))
  ]

  -- `RecvMsg` of `rateLimitedServerStream`.
  unfoldable pub recv_msg : Action W → Action (Server W)
  recv_msg recv s =
      let (refusal, (metrics, w₁)) = wait_limiter s in
      elim refusal [
        | some err ↦ (some err, (metrics, w₁))
        | none ↦ let (err, w₂) = recv w₁ in (err, (metrics, w₂))
      ]

  -- The function that `rateLimitUnaryInterceptor` returns; `nil` is the response of a refused call.
  unfoldable pub unary_interceptor :
      {A : Type 0} → A → String → M W (A × Option GoError) → M (Server W) (A × Option GoError)
  unary_interceptor nil method handler (metrics, w) =
      let (_, w₁) = clock w in
      let (span, (metrics', w₂)) = open_span method (metrics, w₁) in
      let (refusal, (metrics'', w₃)) = wait_limiter (metrics', w₂) in
      elim refusal [
        | some err ↦ ((nil, some err), close_span span (some err) (metrics'', w₃))
        | none ↦
            let ((resp, err), w₄) = handler w₃ in ((resp, err), close_span span err (metrics'', w₄))
      ]

  -- The stream that a handler is given: the limited one where there is a limiter.
  unfoldable pub stream_of : Action W → Action (Server W)
  stream_of recv (metrics, w) = elim limiter [
    | none ↦ let (err, w₁) = recv w in (err, (metrics, w₁))
    | some _ ↦ recv_msg recv (metrics, w)
  ]

  -- The function that `rateLimitStreamInterceptor` returns, over the stream's `RecvMsg`. The handler
  -- reaches the metrics by the limiter of its stream.
  unfoldable pub stream_interceptor :
      String → Action W → (Action (Server W) → Action (Server W)) → Action (Server W)
  stream_interceptor method recv handler (metrics, w) =
      let (_, w₁) = clock w in
      let (span, s₂) = open_span method (metrics, w₁) in
      let (err, s₃) = handler (stream_of recv) s₂ in (err, close_span span err s₃)

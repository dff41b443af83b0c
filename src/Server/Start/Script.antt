-- ===== src/Server/Start/Script.antt =====
-- main.go, `run` on a machine that notes what is called: every call, on every way out.
use orders_go.Common.{
  ◌≡◌, refl, String, Bool, true, false, Option, none, some, List, [], ◌∷◌, Option-cases, ◌⊎◌, inl,
  inr, arith,
}
use orders_go.Common.Int.{pos}
use orders_go.Go.Int64.{Time}
use orders_go.Go.Errors.{GoError}
use orders_go.Go.Effects.{Action}
use orders_go.Reliability.Limiter.{RateLimiter, new_rate_limiter}
use orders_go.Observability.Metrics.{Metrics, new_metrics, mark_shutdown, total}
use orders_go.Server.Config.{Host, GrpcConfig, ObservabilityConfig, load_grpc, load_observability}
use orders_go.Server.Start.{
  Machine, Ending, cancelled, served, start_observability, shut_down, serve_until, run_server, run,
}

pub data Event : Type 0 where
  built_store cleaned_store built_orders cleaned_orders listening : Event
  status : String → Bool → Event
  metrics_up : String → Event
  stopped : Metrics → Event
  metrics_down : Metrics → Event
  serving : RateLimiter → Metrics → Event

-- How the calls come out: the errors of the first three, how the server ends, with its metrics, and what
-- the calls that finish in a graceful stop make of the metrics.
pub record Outcome : Type 0 where
  pub store_err : Option GoError
  pub orders_err : Option GoError
  pub listen_err : Option GoError
  pub ending : Ending
  pub metrics : Metrics
  pub drained : Metrics → Metrics

-- The events, the newest first, on a clock that stands still. A call that fails leaves none.
abbrev note : Event → Option GoError → Action (List Event)
note e err log = (err, elim err [ none ↦ e ∷ log | some _ ↦ log ])

abbrev pub recorder : Time → Outcome → Machine (List Event)
recorder now o = record {
  runtime = record {
    now = λ log. (now, log);
    ctx_err = λ log. (none, log);
    timer = λ _ log. (none, log);
    int63n = λ _ log. (pos 0, log);
  };
  build_store = note built_store o.store_err;
  cleanup_store = λ log. cleaned_store ∷ log;
  build_orders = note built_orders o.orders_err;
  cleanup_orders = λ log. cleaned_orders ∷ log;
  listen = note listening o.listen_err;
  set_status = λ name up log. status name up ∷ log;
  spawn_metrics = λ addr log. metrics_up addr ∷ log;
  serve = λ limiter metrics log. ((o.ending, o.metrics), serving limiter metrics ∷ log);
  graceful_stop = λ m log. (o.drained m, stopped m ∷ log);
  stop_metrics = λ m log. metrics_down m ∷ log;
}

Ending-cases : (x : Ending) → (x ≡ cancelled) ⊎ ((e : Option GoError) × (x ≡ served e))
Ending-cases cancelled = inl refl
Ending-cases (served e) = inr (e, refl)

module _ (driver_service order_service : String) (now : Time) where
  abbrev limiter_of : GrpcConfig → RateLimiter
  limiter_of cfg = record {
    rate = cfg.rate_limit_interval;
    burst = cfg.rate_limit_burst;
    tokens = cfg.rate_limit_burst;
    last = now;
  }

  -- The three statuses, the newest first.
  abbrev statuses : Bool → List Event → List Event
  statuses up log = status "" up ∷ status order_service up ∷ status driver_service up ∷ log

  -- What is to happen once the server has been started.
  abbrev ended : Ending → Outcome → List Event → Option GoError × List Event
  ended (served err) o log = (err, log)
  ended cancelled o log =
      let in_flight = total (λ s. s.in_flight) o.metrics.methods in
      let marked = record o.metrics { lifecycle = some (now, in_flight) } in
      (none, metrics_down (o.drained marked) ∷ stopped marked ∷ statuses false log)

  -- What is to happen behind the listener, over what the two configurations read as.
  abbrev started :
      GrpcConfig × Option GoError
      → ObservabilityConfig × Option GoError
      → Outcome
      → List Event
      → Option GoError × List Event
  started (grpc, some e) obs o log = (some e, log)
  started (grpc, none) (obs, some e) o log = (some e, statuses true log)
  started (grpc, none) (obs, none) o log =
      ended o.ending o
        (serving (limiter_of grpc) (new_metrics now) ∷ metrics_up obs.addr ∷ statuses true log)

  -- What is to happen: the service and the store are cleaned up, in this order, on every way out.
  abbrev pub script :
      GrpcConfig × Option GoError
      → ObservabilityConfig × Option GoError
      → Outcome
      → Option GoError × List Event
  script grpc obs o = elim o.store_err [
    | some e ↦ (some e, [])
    | none ↦ elim o.orders_err [
      | some e ↦ (some e, cleaned_store ∷ built_store ∷ [])
      | none ↦
          let log = built_orders ∷ built_store ∷ [] in
          let behind : Option GoError × List Event = elim o.listen_err [
            | some e ↦ (some e, log)
            | none ↦ started grpc obs o (listening ∷ log)
          ] in
          (behind.0, cleaned_store ∷ cleaned_orders ∷ behind.1)
    ]
  ]

  module _ {Pool Certificate : Type 0} (h : Host Pool Certificate) where
    serve_until_lem :
        (o : Outcome) (limiter : RateLimiter) (metrics : Metrics) (log : List Event)
        → serve_until h (recorder now o) driver_service order_service limiter metrics log
          ≡ ended o.ending o (serving limiter metrics ∷ log)
    unfolding serve_until shut_down mark_shutdown
    serve_until_lem o limiter metrics log = elim (Ending-cases o.ending) [
      | inl done ↦ rw (serve_until, done) refl
      | inr (err, back) ↦ rw (serve_until, back) refl
    ]

    run_server_lem :
        (o : Outcome) (log : List Event)
        → run_server h (recorder now o) driver_service order_service (new_metrics now) log
          ≡ started (load_grpc h) (load_observability h) o log
    unfolding run_server start_observability new_rate_limiter
    run_server_lem o log = elim (Option-cases (load_grpc h).1) [
      | inr (e, bad) ↦ ground (arith, bad)
      | inl ok ↦ elim (Option-cases (load_observability h).1) [
        | inr (e, bad) ↦ ground (arith, ok, bad)
        | inl fine ↦
            let served_log = metrics_up (load_observability h).0.addr ∷ statuses true log in
            let behind =
              serve_until_lem o (limiter_of (load_grpc h).0) (new_metrics now) served_log in
            ground (arith, ok, fine, behind)
      ]
    ]

    -- On a machine that notes its calls, and whatever their outcomes: the store, the service and the
    -- listener are made in this order, the statuses are set before the server runs, the service and
    -- the store are cleaned up in the opposite order on every way out. When the context ends, the
    -- statuses are taken back, the server is stopped with the calls in flight marked in its metrics, and
    -- the metrics server is ended with what the stop made of them; on the other ways out the listener
    -- and the metrics server are left as they are.
    pub run-script :
        (o : Outcome)
        → run h (recorder now o) driver_service order_service []
          ≡ script (load_grpc h) (load_observability h) o
    unfolding run
    run-script o =
        let behind = run_server_lem o (listening ∷ built_orders ∷ built_store ∷ []) in
        elim (Option-cases o.store_err) [
          | inr (e, bad) ↦ ground (arith, bad)
          | inl a ↦ elim (Option-cases o.orders_err) [
            | inr (e, bad) ↦ ground (arith, a, bad)
            | inl b ↦ elim (Option-cases o.listen_err) [
              | inr (e, bad) ↦ ground (arith, a, b, bad)
              | inl c ↦ ground (arith, a, b, c, behind)
            ]
          ]
        ]

-- ===== src/Server/Start.antt =====
-- cmd/server/main.go, `run`: the order in which the server is put together, serves and is stopped.
-- The registration of services and of the reflection service and the log lines are left out.
pub mod Script
use orders_go.Common.{String, Bool, true, false, Option, none, some}
use orders_go.Common.Int.{ℤ}
use orders_go.Go.Int64.{Time}
use orders_go.Go.Errors.{GoError}
use orders_go.Go.Effects.{M, Action, Runtime}
use orders_go.Reliability.Limiter.{RateLimiter, new_rate_limiter}
use orders_go.Observability.Metrics.{Metrics, new_metrics, mark_shutdown, total}
use orders_go.Server.Config.{Host, load_grpc, load_observability}

-- How the `select` of `run` ends: the context is done, or `Serve` returns.
pub data Ending : Type 0 where
  cancelled : Ending
  served : Option GoError → Ending

-- What `run` calls. `serve` is the server under the limiter until the `select` ends, with the metrics as
-- they are then; `graceful_stop` lets the calls in flight finish, which changes the metrics further;
-- `stop_metrics` ends the metrics server, which shows the metrics that it is given.
pub record Machine (W : Type 0) : Type 0 where
  pub runtime : Runtime W
  pub build_store : Action W
  pub cleanup_store : W → W
  pub build_orders : Action W
  pub cleanup_orders : W → W
  pub listen : Action W
  pub set_status : String → Bool → W → W
  pub spawn_metrics : String → W → W
  pub serve : RateLimiter → Metrics → M W (Ending × Metrics)
  pub graceful_stop : Metrics → M W Metrics
  pub stop_metrics : Metrics → W → W

-- The names of the two services, as the generated code declares them, are arguments.
module _ {Pool Certificate W : Type 0} (h : Host Pool Certificate) (m : Machine W)
    (driver_service order_service : String) where
  -- `if err := step; err != nil { return err }`
  abbrev pub or_return : Action W → Action W → Action W
  or_return step rest w =
      let (err, w') = step w in elim err [ some e ↦ (some e, w') | none ↦ rest w' ]

  -- `defer f()`, and then the rest.
  abbrev pub deferred : (W → W) → Action W → Action W
  deferred f rest w = let (err, w') = rest w in (err, f w')

  -- The three calls of `SetServingStatus`.
  abbrev pub set_all : Bool → W → W
  set_all up w =
      m.set_status "" up (m.set_status order_service up (m.set_status driver_service up w))

  unfoldable pub start_observability : Action W
  start_observability w =
      let (cfg, err) = load_observability h in
      elim err [ some e ↦ (some e, w) | none ↦ (none, m.spawn_metrics cfg.addr w) ]

  -- `case <-ctx.Done()`
  unfoldable pub shut_down : Metrics → Action W
  shut_down metrics w =
      let (now, w') = m.runtime.now (set_all false w) in
      let marked = mark_shutdown now (total (λ s. s.in_flight) metrics.methods) metrics in
      let (drained, w'') = m.graceful_stop marked w' in (none, m.stop_metrics drained w'')

  -- The `select`.
  unfoldable pub serve_until : RateLimiter → Metrics → Action W
  serve_until limiter metrics w =
      let ((ending, metrics'), w') = m.serve limiter metrics w in
      elim ending [ cancelled ↦ shut_down metrics' w' | served err ↦ (err, w') ]

  -- From `config.LoadGRPC` on.
  unfoldable pub run_server : Metrics → Action W
  run_server metrics w =
      let (cfg, err) = load_grpc h in
      elim err [
        | some e ↦ (some e, w)
        | none ↦
            let (limiter, w') =
              new_rate_limiter m.runtime cfg.rate_limit_interval cfg.rate_limit_burst w in
            or_return start_observability (serve_until limiter metrics) (set_all true w')
      ]

  unfoldable pub run : Action W
  run = or_return m.build_store (
      deferred m.cleanup_store (λ w.
        let (now, w') = m.runtime.now w in
        or_return m.build_orders
          (deferred m.cleanup_orders (or_return m.listen (run_server (new_metrics now)))) w'))

-- What `main` calls: `godotenv.Load`, `signal.NotifyContext` and the function that it returns, and
-- `log.Fatalf`.
pub record Process (W : Type 0) : Type 0 where
  pub load_env : W → W
  pub notify : W → W
  pub stop : W → W
  pub fatal : GoError → W → W

-- `log.Fatalf` ends the process, and the deferred `stop` with it.
unfoldable pub main : {W : Type 0} → Process W → Action W → W → W
main p run_func w =
    let (err, w') = run_func (p.notify (p.load_env w)) in
    elim err [ some e ↦ p.fatal e w' | none ↦ p.stop w' ]

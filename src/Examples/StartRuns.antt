-- ===== src/Examples/StartRuns.antt =====
-- A server that starts and stops, on backends whose open handles are counted.
use orders_go.Common.{ℕ, suc, ◌-◌, ◌≡◌, refl, true, none, some, [], arith, inr}
use orders_go.Common.Int.{pos}
use orders_go.Go.Errors.{message}
use orders_go.Go.Effects.{Action, Runtime}
use orders_go.Orders.Settings.{value, no_config}
use orders_go.Orders.Builder.{Setup, build_order_service}
use orders_go.Orders.Builder.Handles.{CountsHandles, Holds as HoldsOne, build_order_service-Holds}
use orders_go.Observability.Metrics.{new_metrics}
use orders_go.Server.Config.{Host, load_grpc, load_observability}
use orders_go.Server.LocationStore.{RedisOptions, Backends, build_location_store}
use orders_go.Server.LocationStore.Handles.{
  CountsBackends, Counted, Holds, build_location_store-Holds,
}
use orders_go.Server.Ready.{readiness_check}
use orders_go.Server.Ready.Laws.{IsUp, readiness_check_outcome}
use orders_go.Server.Start.{cancelled, run}
use orders_go.Server.Start.Script.{Outcome, recorder, script, run-script}

-- Every variable is "1", and every number parses as 1.
abbrev host : Host Unit Unit
host = record {
  trim_space = λ s. s;
  getenv = λ _. "1";
  parse_duration = λ _. value (pos 1);
  atoi = λ _. value (pos 1);
  parse_int = λ _. value (pos 1);
  parse_bool = λ _. (true, none);
  read_file = λ _. ("", none);
  pool_of = λ _. some tt;
  load_key_pair = λ _ _. inr tt;
}

-- The world counts the open databases.
abbrev counting : Runtime ℕ
counting = record {
  now = λ w. (pos 7, w);
  ctx_err = λ w. (none, w);
  timer = λ _ w. (none, w);
  int63n = λ _ w. (pos 0, w);
}

abbrev setup : Setup ℕ
setup = record {
  open_db = λ w. (none, suc w);
  create = λ _ w. (none, w);
  settings = λ w. ((no_config, some (message "ORDER_RETRY_MAX_ATTEMPTS is required")), w);
  close_db = λ w. w - 1;
}

setup-CountsHandles : CountsHandles counting setup (λ w. w)
setup-CountsHandles = record {
  opened = λ w _. refl;
  not_opened = λ w e bad. absurd (ground (arith, bad));
  closed = λ w. refl;
  created = λ t w. refl;
  read = λ w. refl;
  timed = λ w. refl;
}

build_order_service-Holds_example :
    HoldsOne (λ w. w) 3 (build_order_service counting setup "postgres://" 3)
build_order_service-Holds_example =
    build_order_service-Holds counting setup (λ w. w) setup-CountsHandles "postgres://" 3

-- The open clients and the open databases.
abbrev Handles : Type 0
Handles = ℕ × ℕ

abbrev options : RedisOptions Unit Unit Unit
options = record {
  dial_timeout = pos 5;
  read_timeout = pos 3;
  write_timeout = pos 3;
  pool_size = pos 10;
  min_idle_conns = pos 0;
  max_retries = pos 3;
  tls_config = none;
  rest = tt;
}

abbrev backends : Backends Unit Unit Unit Handles
backends = record {
  parse_url = λ _. inr options;
  new_client = λ _ w. (suc w.0, w.1);
  instrument_tracing = λ w. (none, w);
  instrument_metrics = λ w. (none, w);
  ping = λ _ w. (none, w);
  close_client = λ w. (w.0 - 1, w.1);
  open_db = λ _ w. (none, (w.0, suc w.1));
  create = λ _ w. (none, w);
  close_db = λ w. (w.0, w.1 - 1);
}

backends-CountsBackends : CountsBackends backends (λ w. w.0) (λ w. w.1)
backends-CountsBackends = record {
  client_opened = λ o w. (refl, refl);
  client_closed = λ w. (refl, refl);
  db_opened = λ url w. (refl, refl);
  db_closed = λ w. (refl, refl);
  traced = λ w. (refl, refl);
  measured = λ w. (refl, refl);
  pinged = λ t w. (refl, refl);
  created = λ t w. (refl, refl);
}

build_location_store-Holds_example :
    Holds backends (λ w. w.0) (λ w. w.1) 2 4 (build_location_store backends host (2, 4))
build_location_store-Holds_example =
    build_location_store-Holds backends (λ w. w.0) (λ w. w.1) backends-CountsBackends host (2, 4)

readiness_check_outcome_example :
    let select_one : Action Handles = λ w. (none, w) in
    let r = readiness_check host backends select_one (2, 4) in
    Counted backends (λ w. w.0) (λ w. w.1) 2 4 r.1
    × (r.0 ≡ none → IsUp host backends select_one (λ w. w.0) (λ w. w.1) (2, 4))
readiness_check_outcome_example =
    readiness_check_outcome host backends (λ w. (none, w)) (λ w. w.0) (λ w. w.1)
      backends-CountsBackends (λ w. (refl, refl)) (2, 4)

-- Everything goes well, until the context ends.
abbrev stopped_run : Outcome
stopped_run = record {
  store_err = none;
  orders_err = none;
  listen_err = none;
  ending = cancelled;
  metrics = new_metrics (pos 7);
  drained = λ m. m;
}

run-script_example :
    run host (recorder (pos 7) stopped_run) "driver" "order" []
    ≡ script "driver" "order" (pos 7) (load_grpc host) (load_observability host) stopped_run
run-script_example = run-script "driver" "order" (pos 7) host stopped_run

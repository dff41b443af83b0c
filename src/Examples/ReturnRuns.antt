-- ===== src/Examples/ReturnRuns.antt =====
-- A request to the service over the reliable clients, whose limiters have one token between them.
use orders_go.Common.{ℕ, ◌+◌, ◌≡◌, refl, String, none, some, [], leb, ltb, arith, if◌then◌else◌}
use orders_go.Common.Int.{pos}
use orders_go.Common.Int.{pos_part}
use orders_go.Go.Float64.{float_90}
use orders_go.Go.Errors.{message, sentinel, Sentinel}
use orders_go.Go.Effects.{M, Runtime}
use orders_go.Reliability.Limiter.Bucket.{limiter}
use orders_go.Reliability.Limiter.Fresh.{IsForward, IsFresh}
use orders_go.Orders.Settings.{ReliabilityConfig}
use orders_go.Orders.Service.{Reply, create_order}
use orders_go.Orders.Reliable.{Shop, reliable_service}
use orders_go.Orders.Reliable.Returns.{AreFresh, create_order_total}
use orders_go.Db.Integrity.{IsIntact}

abbrev clock_time : ℕ → ℕ
clock_time w = if ltb w 1000 then w else 1000

-- The environment is the time, up to a thousand; a longer timer meets the context's end.
abbrev day : Runtime ℕ
day = record {
  now = λ w. (pos (clock_time w), w);
  ctx_err = λ w. (none, w);
  timer = λ d w.
      if leb (w + pos_part d) 1000
      then (none, w + pos_part d)
      else (some (sentinel Sentinel.deadline_exceeded), w);
  int63n = λ _ w. (pos 0, w);
}

day-IsForward : IsForward day clock_time
day-IsForward = record {
  clock = record {
    now_reads = λ w. (clock_time w, refl, omega arith, omega arith);
    ctx_err_forward = λ w. omega arith;
    timer_waits = λ d w h. ground arith;
  };
  timer_forward = λ d w. ground arith;
  int63n_forward = λ k w. omega arith;
}

abbrev uuid : M ℕ String
uuid w = ("o1", w)

abbrev settings : ReliabilityConfig
settings = record {
  retry_max_attempts = pos 3;
  retry_base_delay = pos 5;
  retry_max_delay = pos 20;
  breaker_max_failures = pos 3;
  breaker_reset_timeout = pos 10;
  rate_limit_interval = pos 10;
  rate_limit_burst = pos 2;
}

abbrev shop : Shop ℕ
shop = record {
  guards = record {
    payment_limiter = some (limiter (record { rate = 10; burst = 2; tokens = 0; last = 100 }));
    payment_breaker = none;
    driver_limiter = some (limiter (record { rate = 10; burst = 2; tokens = 1; last = 90 }));
    driver_breaker = none;
  };
  world = record {
    db = record {
      payments = [];
      sagas = [];
      steps = [];
      assignments = [];
      now = pos 1000;
      constraint_error = message "constraint";
      fates = [];
    };
    env = 103;
  };
}

drained : IsFresh 2 103 (limiter (record { rate = 10; burst = 2; tokens = 0; last = 100 }))
drained = record {
  bucket = record { rate = 10; burst = 2; tokens = 0; last = 100 };
  stands = refl;
  rate_pos = omega arith;
  rate_small = omega arith;
  burst_pos = omega arith;
  burst_most = omega arith;
  capped = omega arith;
  past = omega arith;
}

filled : IsFresh 2 103 (limiter (record { rate = 10; burst = 2; tokens = 1; last = 90 }))
filled = record {
  bucket = record { rate = 10; burst = 2; tokens = 1; last = 90 };
  stands = refl;
  rate_pos = omega arith;
  rate_small = omega arith;
  burst_pos = omega arith;
  burst_most = omega arith;
  capped = omega arith;
  past = omega arith;
}

shop-IsIntact : IsIntact shop.world.db
shop-IsIntact = record {
  payments_keyed = tt;
  payments_refer = tt;
  sagas_unique = tt;
  steps_refer = tt;
  assignments_refer = tt;
}

create_order_total_example :
    (r : Reply) × (s' : Shop ℕ) × (create_order
        (reliable_service day 2 settings uuid)
        "u1"
        float_90
        "k1"
        shop
      ≡ some (r, s'))
    × AreFresh clock_time 2 s'
    × IsIntact s'.world.db
create_order_total_example =
    create_order_total day clock_time day-IsForward 2 (λ e. ground arith) settings 0 uuid
      (λ e. omega arith) "u1" float_90 "k1" shop (drained, filled) shop-IsIntact

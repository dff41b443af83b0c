-- ===== src/Server/LocationStore.antt =====
-- cmd/server/location_store.go, `buildLocationStore`: the Redis client, the database, and the store
-- over both.
pub mod Handles
pub mod Writes
use orders_go.Common.{
  String, Bool, Option, none, some, ◌⊎◌, inl, inr, List, [], ◌∷◌, str_eq, if◌then◌else◌,
}
use orders_go.Common.Int.{ℤ, pos, ltb_ℤ}
use orders_go.Go.Int64.{Duration, Time}
use orders_go.Go.Errors.{GoError, message}
use orders_go.Go.Effects.{M, Action}
use orders_go.Server.Config.{Host, variable}
use orders_go.Server.Config.Redis.{TlsConfig, RedisConfig, load_redis}
use orders_go.Ingest.Stores.{LocationStore, LocationRow, update_history, update_all}
use orders_go.Ingest.Redis.{
  RedisLocationStore, Command, RedisPipeliner, queue, new_redis_location_store, update,
}
use orders_go.Db.Schema.{Table, init_locations}

-- `redis.Options`, where the configuration may replace what the URL says; `rest` is what it does not.
pub record RedisOptions (Pool Certificate Rest : Type 0) : Type 0 where
  pub dial_timeout : Duration
  pub read_timeout : Duration
  pub write_timeout : Duration
  pub pool_size : ℤ
  pub min_idle_conns : ℤ
  pub max_retries : ℤ
  pub tls_config : Option (TlsConfig Pool Certificate)
  pub rest : Rest

-- What `buildLocationStore` calls of Redis and of the database. `ping` is given the timeout that the
-- context is given, if any; the errors of the two closing calls are dropped.
pub record Backends (Pool Certificate Rest W : Type 0) : Type 0 where
  pub parse_url : String → GoError ⊎ RedisOptions Pool Certificate Rest
  pub new_client : RedisOptions Pool Certificate Rest → W → W
  pub instrument_tracing : Action W
  pub instrument_metrics : Action W
  pub ping : Option Duration → Action W
  pub close_client : W → W
  pub open_db : String → Action W
  pub create : Table → Action W
  pub close_db : W → W

pub data StoreBuild : Type 0 where
  refused : GoError → StoreBuild
  built : RedisLocationStore → StoreBuild

-- `if p != nil { field = *p }`
abbrev pub or_else : {A : Type 0} → Option A → A → A
or_else none old = old
or_else (some new) old = new

unfoldable pub set_options :
    {Pool Certificate Rest : Type 0}
    → RedisConfig Pool Certificate
    → RedisOptions Pool Certificate Rest
    → RedisOptions Pool Certificate Rest
set_options cfg opts = record opts {
  dial_timeout = or_else cfg.dial_timeout opts.dial_timeout;
  read_timeout = or_else cfg.read_timeout opts.read_timeout;
  write_timeout = or_else cfg.write_timeout opts.write_timeout;
  pool_size = or_else cfg.pool_size opts.pool_size;
  min_idle_conns = or_else cfg.min_idle_conns opts.min_idle_conns;
  max_retries = or_else cfg.max_retries opts.max_retries;
  tls_config = elim cfg.tls_config [ none ↦ opts.tls_config | some tls ↦ some tls ];
}

module _ {W : Type 0} where
  -- `if err := step; err != nil { release; return nil, nil, err }`
  abbrev pub or_release : Action W → (W → W) → M W StoreBuild → M W StoreBuild
  or_release step release rest w =
      let (err, w') = step w in elim err [ some e ↦ (refused e, release w') | none ↦ rest w' ]

  module _ {Q : Type 0} where
    -- `redisPipelineAdapter`, which passes each call on.
    abbrev pub redis_pipeline_adapter : RedisPipeliner Q W → RedisPipeliner Q W
    redis_pipeline_adapter pipe = record {
      queue_hset = λ key fields. pipe.queue_hset key fields;
      queue_expire = λ key ttl. pipe.queue_expire key ttl;
      queue_xadd = λ stream limit fields. pipe.queue_xadd stream limit fields;
      exec = λ q. pipe.exec q;
    }

    -- `Pipeline` of `redisClientAdapter`, over what the client's own returns, and a use of it.
    abbrev pub redis_client_adapter : Q × RedisPipeliner Q W → Q × RedisPipeliner Q W
    redis_client_adapter (empty, pipe) = (empty, redis_pipeline_adapter pipe)

    -- The store that is returned: the history first, and then the latest locations.
    unfoldable pub location_store :
        (LocationRow → Action W)
        → Action W
        → (Time → String)
        → Q × RedisPipeliner Q W
        → RedisLocationStore
        → LocationStore W
    location_store insert ctx_err format client latest =
        let (empty, pipe) = redis_client_adapter client in
        let exec : List Command → Action W = λ commands. pipe.exec (queue pipe commands empty) in
        update_all (update_history insert ∷ update ctx_err format exec latest ∷ [])

module _ {Pool Certificate Rest W : Type 0} (b : Backends Pool Certificate Rest W) where
  abbrev pub release_both : W → W
  release_both w = b.close_db (b.close_client w)

  -- The store that both are put into.
  abbrev pub built_store : RedisConfig Pool Certificate → M W StoreBuild
  built_store cfg w =
      (built (new_redis_location_store cfg.stream cfg.location_ttl cfg.stream_max_len), w)

  -- From the opening of the database on.
  unfoldable pub open_history : RedisConfig Pool Certificate → String → M W StoreBuild
  open_history cfg database_url =
      or_release (b.open_db database_url) b.close_client
        (or_release (init_locations b.create) release_both (built_store cfg))

  -- From the ping on.
  unfoldable pub open_backends : RedisConfig Pool Certificate → String → M W StoreBuild
  open_backends cfg database_url =
      let timeout =
        if ltb_ℤ (pos 0) cfg.healthcheck_timeout then some cfg.healthcheck_timeout else none in
      or_release (b.ping timeout) b.close_client (open_history cfg database_url)

  -- `if cfg.EnableOTel { … }`
  unfoldable pub instrumented : Bool → M W StoreBuild → M W StoreBuild
  instrumented enabled rest =
      if enabled
      then or_release b.instrument_tracing b.close_client
          (or_release b.instrument_metrics b.close_client rest)
      else rest

  unfoldable pub build_location_store : Host Pool Certificate → M W StoreBuild
  build_location_store h w =
      let (cfg, err) = load_redis h in
      elim err [
        | some e ↦ (refused e, w)
        | none ↦
            let database_url = variable h "DATABASE_URL" in
            if str_eq database_url ""
            then (refused (message "DATABASE_URL is required"), w)
            else elim (b.parse_url cfg.url) [
              | inl e ↦ (refused e, w)
              | inr opts ↦
                  instrumented cfg.enable_otel (open_backends cfg database_url)
                    (b.new_client (set_options cfg opts) w)
            ]
      ]

  -- The function that is returned beside the store.
  abbrev pub cleanup : W → W
  cleanup = release_both

-- ===== src/Ingest/Redis.antt =====
-- internal/ingest/redis_store.go: the commands that a location is turned into.
use Prim.Native.String.{◌++◌}
use orders_go.Common.{String, Option, none, some, List, [], ◌∷◌, str_eq, if◌then◌else◌}
use orders_go.Common.Int.{ℤ, pos, ltb_ℤ}
use orders_go.Go.Int64.{Time, Duration}
use orders_go.Go.Float64.{Float64}
use orders_go.Go.Effects.{Action}
use orders_go.Ingest.Location.{Location}

pub record RedisLocationStore : Type 0 where
  pub stream : String
  pub key_prefix : String
  pub ttl : Duration
  pub max_len : ℤ

unfoldable pub new_redis_location_store : String → Duration → ℤ → RedisLocationStore
new_redis_location_store stream ttl max_len = record {
  stream = if str_eq stream "" then "location_events" else stream;
  key_prefix = "driver:";
  ttl = ttl;
  max_len = max_len;
}

-- The values of the hash and of the stream entry.
pub record Fields : Type 0 where
  pub driver_id : String
  pub lat : Float64
  pub long : Float64
  pub timestamp : String

-- `limit` is MaxLen with Approx, where it is set.
pub data Command : Type 0 where
  hset : String → Fields → Command
  expire : String → Duration → Command
  xadd : String → Option ℤ → Fields → Command

-- A pipeline of the client: what is queued so far is a `Q`, and `exec` runs it.
pub record RedisPipeliner (Q W : Type 0) : Type 0 where
  pub queue_hset : String → Fields → Q → Q
  pub queue_expire : String → Duration → Q → Q
  pub queue_xadd : String → Option ℤ → Fields → Q → Q
  pub exec : Q → Action W

module _ {Q W : Type 0} (pipe : RedisPipeliner Q W) where
  abbrev pub queue : List Command → Q → Q
  queue [] q = q
  queue (hset key fields ∷ rest) q = queue rest (pipe.queue_hset key fields q)
  queue (expire key ttl ∷ rest) q = queue rest (pipe.queue_expire key ttl q)
  queue (xadd stream limit fields ∷ rest) q = queue rest (pipe.queue_xadd stream limit fields q)

module _ {W : Type 0} (ctx_err : Action W) (format : Time → String)
    (exec : List Command → Action W) where
  -- `format` is the layout RFC3339Nano in UTC.
  abbrev pub fields_of : Location → Fields
  fields_of loc = record {
    driver_id = loc.driver_id;
    lat = loc.lat;
    long = loc.long;
    timestamp = format loc.timestamp;
  }

  unfoldable pub pipeline : RedisLocationStore → Location → List Command
  pipeline r loc =
      let key = r.key_prefix ++ loc.driver_id in
      let entry =
        xadd r.stream (if ltb_ℤ (pos 0) r.max_len then some r.max_len else none) (fields_of loc) in
      hset key (fields_of loc)
      ∷ (if ltb_ℤ (pos 0) r.ttl then expire key r.ttl ∷ entry ∷ [] else entry ∷ [])

  unfoldable pub update : RedisLocationStore → Location → Action W
  update r loc w =
      let (stop, w₁) = ctx_err w in
      elim stop [ some err ↦ (some err, w₁) | none ↦ exec (pipeline r loc) w₁ ]

-- ===== src/Server/LocationStore/Writes.antt =====
-- location_store.go: what the store that is built does with a location, through multi_store.go, the
-- Postgres store, the Redis store and the adapters.
use Prim.Native.String.{◌++◌}
use orders_go.Common.{
  ◌≡◌, ◌≢◌, ◌↔◌, refl, ap, sym, ◌∙◌, String, Option, none, some, List, [], ◌∷◌, str_eq, arith,
  Option-cases, Bool-cases, inl, inr, if◌then◌else◌,
}
use orders_go.Common.Int.{ℤ, pos, ltb_ℤ}
use orders_go.Go.Int64.{Time, Duration}
use orders_go.Go.Errors.{GoError}
use orders_go.Go.Effects.{Action}
use orders_go.Ingest.Location.{Location}
use orders_go.Ingest.Stores.{LocationRow, update_history, update_all_outcome}
use orders_go.Ingest.Redis.{
  RedisPipeliner, Fields, new_redis_location_store, Command, queue, pipeline, update,
}
use orders_go.Server.LocationStore.{location_store, redis_pipeline_adapter}

module _ {Q W : Type 0} (insert : LocationRow → Action W) (ctx_err : Action W)
    (format : Time → String) (empty : Q) (pipe : RedisPipeliner Q W) where
  -- The commands for a location: its hash, its expiry where there is one, and an entry of the stream.
  abbrev pub queued : String → Duration → ℤ → Location → Q
  queued stream ttl max_len loc =
      let key = "driver:" ++ loc.driver_id in
      let fields : Fields = record {
        driver_id = loc.driver_id;
        lat = loc.lat;
        long = loc.long;
        timestamp = format loc.timestamp;
      } in
      let hashed = pipe.queue_hset key fields empty in
      pipe.queue_xadd (if str_eq stream "" then "location_events" else stream)
        (if ltb_ℤ (pos 0) max_len then some max_len else none) fields
        (if ltb_ℤ (pos 0) ttl then pipe.queue_expire key ttl hashed else hashed)

  abbrev pub row_of : Location → LocationRow
  row_of loc = record {
    driver_id = loc.driver_id;
    lat = loc.lat;
    long = loc.long;
    recorded_at = loc.timestamp;
  }

  module _ (stream : String) (ttl : Duration) (max_len : ℤ) (loc : Location) where
    abbrev run_queued : List Command → Action W
    run_queued commands = pipe.exec (queue (redis_pipeline_adapter pipe) commands empty)

    queue-pipeline :
        queue
          (redis_pipeline_adapter pipe)
          (pipeline ctx_err format run_queued (new_redis_location_store stream ttl max_len) loc)
          empty
        ≡ queued stream ttl max_len loc
    unfolding pipeline new_redis_location_store
    queue-pipeline = elim (Bool-cases (ltb_ℤ (pos 0) ttl)) [
      | inl kept ↦ ground (arith, kept)
      | inr gone ↦ ground (arith, gone)
    ]

    -- What the Redis store does: nothing where the context is done, else one run of the commands.
    update_cases :
        (w : W)
        → let (stop, w₁) = ctx_err w in
          let r = new_redis_location_store stream ttl max_len in
          ((e : GoError) → stop ≡ some e → update ctx_err format run_queued r loc w ≡ (some e, w₁))
          × (stop ≡ none
              → update ctx_err format run_queued r loc w
                ≡ pipe.exec (queued stream ttl max_len loc) w₁)
    unfolding update
    update_cases w = (
      λ e over. rw (update, over) refl,
      λ alive. rw (update, alive) (ap (λ q. pipe.exec q (ctx_err w).1) queue-pipeline),
    )

  -- A location is inserted into the history, and then, whatever became of that, its commands are run
  -- in Redis, unless the context is done by then; nil is returned exactly if both went through.
  pub location_store_outcome :
      (stream : String) (ttl : Duration) (max_len : ℤ) (loc : Location) (w : W)
      → let (stored, w₁) = insert (row_of loc) w in
        let (stop, w₂) = ctx_err w₁ in
        let (sent, w₃) = pipe.exec (queued stream ttl max_len loc) w₂ in
        let (err, w') =
          location_store insert ctx_err format
            (empty, pipe)
            (new_redis_location_store stream ttl max_len)
            loc
            w in
        (stop ≡ none → (w' ≡ w₃) × (err ≡ none ↔ (stored ≡ none) × (sent ≡ none)))
        × (stop ≢ none → (w' ≡ w₂) × (err ≢ none))
  unfolding location_store update_history
  location_store_outcome stream ttl max_len loc w =
      let w₁ = (insert (row_of loc) w).1 in
      let redis =
        update ctx_err format (run_queued stream ttl max_len loc)
          (new_redis_location_store stream ttl max_len) in
      let (over, alive) = update_cases stream ttl max_len loc w₁ in
      let (same, iff) = update_all_outcome (update_history insert ∷ redis ∷ []) loc w in
      (
        λ go.
            let e = alive go in
            (
              same ∙ ap (λ (x : Option GoError × W). x.1) e,
              (
                λ h.
                    let all = iff.0 h in
                    (all.0, sym (ap (λ (x : Option GoError × W). x.0) e) ∙ all.1.0),
                λ h. iff.1 (h.0, (ap (λ (x : Option GoError × W). x.0) e ∙ h.1, tt)),
              ),
            ),
        λ stop. elim (Option-cases (ctx_err w₁).0) [
          | inl go ↦ absurd (stop go)
          | inr (b, done) ↦
              let e = over b done in
              (
                same ∙ ap (λ (x : Option GoError × W). x.1) e,
                λ h. let all = iff.0 h in let q = all.1.0 in ground (arith, e, q),
              )
        ],
      )

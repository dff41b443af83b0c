-- ===== src/Ingest/Stores.antt =====
-- internal/ingest: service.go, local_publisher.go, multi_store.go, fanout_publisher.go, and the
-- insert of internal/db/ingest/location_store.go.
use orders_go.Common.{
  ◌≡◌, ◌↔◌, refl, String, Option, none, some, List, [], ◌∷◌, arith, Option-cases, inl, inr,
}
use orders_go.Common.Lists.{All}
use orders_go.Go.Int64.{Time}
use orders_go.Go.Float64.{Float64}
use orders_go.Go.Errors.{GoError, GoErrors, joined}
use orders_go.Go.Effects.{M, Action}
use orders_go.Ingest.Location.{Location}

-- `LocationStore` and `LocationPublisher`: one method each, over the world that they write to.
abbrev pub LocationStore : Type 0 → Type 0
LocationStore W = Location → Action W

abbrev pub LocationPublisher : Type 0 → Type 0
LocationPublisher W = Location → Action W

abbrev pub errors_of : List GoError → GoErrors
errors_of [] = GoErrors.nil
errors_of (e ∷ es) = GoErrors.cons e (errors_of es)

-- `errors.Join`
unfoldable pub join : List GoError → Option GoError
join [] = none
join (e ∷ es) = some (joined (errors_of (e ∷ es)))

abbrev pub kept : Option GoError → List GoError → List GoError
kept none es = es
kept (some e) es = e ∷ es

-- The payload of `FanoutPublisher`, which `json.Marshal` encodes or refuses.
pub record Payload : Type 0 where
  pub kind : String
  pub driver_id : String
  pub lat : Float64
  pub long : Float64
  pub timestamp : Time

pub data Marshalled : Type 0 where
  encoded : String → Marshalled
  refused : GoError → Marshalled

-- Table `driver_locations` of internal/db/ingest/location_store.go.
pub record LocationRow : Type 0 where
  pub driver_id : String
  pub lat : Float64
  pub long : Float64
  pub recorded_at : Time

module _ {W : Type 0} where
  -- `StorePublisher.Publish` and `IngestService.Ingest`.
  unfoldable pub publish_to_store : LocationStore W → LocationPublisher W
  publish_to_store store loc = store loc

  unfoldable pub ingest : LocationPublisher W → Location → Action W
  ingest publisher loc = publisher loc

  -- `PostgresLocationStore.Update`, over what runs its INSERT. UTC() does not change the instant.
  unfoldable pub update_history : (LocationRow → Action W) → LocationStore W
  update_history exec loc = exec (record {
    driver_id = loc.driver_id;
    lat = loc.lat;
    long = loc.long;
    recorded_at = loc.timestamp;
  })

  -- The loop of `MultiLocationStore.Update`, with the errors that it collects.
  unfoldable pub collect : List (LocationStore W) → Location → M W (List GoError)
  collect [] loc w = ([], w)
  collect (store ∷ stores) loc w =
      let (err, w₁) = store loc w in let (errs, w₂) = collect stores loc w₁ in (kept err errs, w₂)

  unfoldable pub update_all : List (LocationStore W) → LocationStore W
  update_all stores loc w = let (errs, w') = collect stores loc w in (join errs, w')

  -- `FanoutPublisher.Publish`; the broadcaster may be nil.
  unfoldable pub fanout :
      (Payload → Marshalled) → LocationPublisher W → Option (String → W → W) → LocationPublisher W
  fanout marshal storage broadcaster loc w =
      let (err, w₁) = storage loc w in
      elim err [
        | some e ↦ (some e, w₁)
        | none ↦
            let payload : Payload = record {
              kind = "location";
              driver_id = loc.driver_id;
              lat = loc.lat;
              long = loc.long;
              timestamp = loc.timestamp;
            } in
            elim (marshal payload) [
              | refused e ↦ (some e, w₁)
              | encoded msg ↦ elim broadcaster [
                | none ↦ (none, w₁)
                | some broadcast ↦ (none, broadcast msg w₁)
              ]
            ]
      ]

  -- What all the stores, in order, make of the world, whatever they return.
  abbrev pub every : List (LocationStore W) → Location → W → W
  every [] loc w = w
  every (store ∷ stores) loc w = every stores loc (store loc w).1

  -- What they return, in order.
  abbrev pub returns : List (LocationStore W) → Location → W → List (Option GoError)
  returns [] loc w = []
  returns (store ∷ stores) loc w = (store loc w).0 ∷ returns stores loc (store loc w).1

  collect_lem :
      (stores : List (LocationStore W)) (loc : Location) (w : W)
      → ((collect stores loc w).1 ≡ every stores loc w)
        × ((collect stores loc w).0 ≡ [] ↔ All (λ e. e ≡ none) (returns stores loc w))
  unfolding collect
  collect_lem [] loc w = (refl, (λ _. tt, λ _. refl))
  collect_lem (store ∷ stores) loc w =
      let (same, iff) = collect_lem stores loc (store loc w).1 in
      elim (Option-cases (store loc w).0) [
        | inl ok ↦ (same, (λ h. (ok, iff.0 (ground (arith, ok))), λ h. ground (arith, iff.1 h.1)))
        | inr (e, bad) ↦
            (same, (λ h. absurd (ground (arith, bad)), λ h. absurd (ground (arith, bad))))
      ]

  -- Each store is written to, in order, also behind one that fails; the whole returns nil exactly
  -- if each of them does.
  pub update_all_outcome :
      (stores : List (LocationStore W)) (loc : Location) (w : W)
      → ((update_all stores loc w).1 ≡ every stores loc w)
        × ((update_all stores loc w).0 ≡ none ↔ All (λ e. e ≡ none) (returns stores loc w))
  unfolding update_all join
  update_all_outcome stores loc w =
      let (same, iff) = collect_lem stores loc w in
      (same, (λ h. iff.0 (ground arith), λ h. ground (arith, iff.1 h)))

-- ===== src/Grpc/LocationServer.antt =====
-- internal/adapters/grpc/server.go: the stream of location updates.
use Prim.Native.String.{◌++◌}
use mathlib.Core.List.{append-nil}
use orders_go.Common.{
  ◌∙◌, ◌≡◌, refl, String, Option, none, some, List, [], ◌∷◌, ◌++◌ as append, arith,
}
use orders_go.Go.Int64.{Time}
use orders_go.Go.Float64.{Float64}
use orders_go.Go.Errors.{GoError, error_text}
use orders_go.Go.Effects.{M, Action}
use orders_go.Ingest.Location.{Location, empty_location, new_location}
use orders_go.Grpc.Status.{Status, Code}

-- A timestamp is nil, out of range, or an instant.
pub data Timestamp : Type 0 where
  absent invalid : Timestamp
  instant : Time → Timestamp

pub record LocationUpdate : Type 0 where
  pub driver_id : String
  pub latitude : Float64
  pub longitude : Float64
  pub timestamp : Timestamp

-- What `Recv` gives in the end: `io.EOF` or another error.
pub data Ending : Type 0 where
  eof : Ending
  broken : GoError → Ending

abbrev pub status_of : Code → String → Option Status
status_of c t = some (record { code = c; text = t })

module _ {W : Type 0} (zero_time : Time) (ingest : Location → Action W)
    (send_ack : M W (Option Status)) where
  checked_update : LocationUpdate → Time → Location × Option Status
  checked_update msg ts =
      let (loc, err) = new_location zero_time msg.driver_id msg.latitude msg.longitude ts in
      (
        loc,
        elim err [
          | none ↦ none
          | some e ↦ status_of Code.invalid_argument ("invalid location: " ++ error_text e)
        ],
      )

  -- The location of a message, or the status that refuses it.
  unfoldable pub read_update : LocationUpdate → Location × Option Status
  unfolding checked_update
  read_update msg = elim msg.timestamp [
    | invalid ↦ (empty_location zero_time, status_of Code.invalid_argument "invalid timestamp")
    | absent ↦ checked_update msg zero_time
    | instant t ↦ checked_update msg t
  ]

  -- `UpdateLocation` on the messages of a stream and its ending.
  unfoldable pub update_location : List LocationUpdate → Ending → M W (Option Status)
  update_location [] eof w = send_ack w
  update_location [] (broken e) w = (status_of Code.internal ("recv: " ++ error_text e), w)
  update_location (msg ∷ msgs) ending w =
      let (loc, refusal) = read_update msg in
      elim refusal [
        | some s ↦ (some s, w)
        | none ↦
            let (err, w₁) = ingest loc w in
            elim err [
              | some e ↦ (status_of Code.internal ("ingest: " ++ error_text e), w₁)
              | none ↦ update_location msgs ending w₁
            ]
      ]

  -- The world after the locations of these messages were ingested, in order.
  abbrev pub ingest_all : List LocationUpdate → W → W
  ingest_all [] w = w
  ingest_all (msg ∷ msgs) w = ingest_all msgs (ingest (read_update msg).0 w).1

  -- Messages that are read and ingested one after another without an error.
  abbrev pub AreAccepted : List LocationUpdate → W → Type 0
  AreAccepted [] w = Unit
  AreAccepted (msg ∷ msgs) w =
      ((read_update msg).1 ≡ none)
      × ((ingest (read_update msg).0 w).0 ≡ none)
      × AreAccepted msgs (ingest (read_update msg).0 w).1

  update_location-prefix :
      (good rest : List LocationUpdate) (ending : Ending) (w : W)
      → AreAccepted good w
      → update_location (append good rest) ending w
        ≡ update_location rest ending (ingest_all good w)
  unfolding update_location
  update_location-prefix [] rest ending w h = refl
  update_location-prefix (msg ∷ good) rest ending w h =
      ground (arith, update_location-prefix good rest ending (ingest (read_update msg).0 w).1 h.2)

  -- A stream of accepted messages is acknowledged at its end; where the stream breaks, or a message
  -- is refused or cannot be ingested, the call ends with the status of that, all that came before
  -- has been ingested, and nothing that came behind.
  pub update_location_outcome :
      (good rest : List LocationUpdate) (msg : LocationUpdate) (ending : Ending) (w : W)
      → AreAccepted good w
      → (update_location good eof w ≡ send_ack (ingest_all good w))
        × ((e : GoError)
            → update_location good (broken e) w
              ≡ (status_of Code.internal ("recv: " ++ error_text e), ingest_all good w))
        × ((s : Status)
            → (read_update msg).1 ≡ some s
            → update_location (append good (msg ∷ rest)) ending w ≡ (some s, ingest_all good w))
        × ((e : GoError)
            → (read_update msg).1 ≡ none
            → (ingest (read_update msg).0 (ingest_all good w)).0 ≡ some e
            → update_location (append good (msg ∷ rest)) ending w ≡ (
              status_of Code.internal ("ingest: " ++ error_text e),
              (ingest (read_update msg).0 (ingest_all good w)).1,
            ))
  unfolding update_location
  update_location_outcome good rest msg ending w h =
      let all = rw (append-nil good) at (update_location-prefix good [] eof w h) in
      let cut = update_location-prefix good (msg ∷ rest) ending w h in
      (
        all,
        λ e. rw (append-nil good) at (update_location-prefix good [] (broken e) w h),
        λ s refused. cut ∙ ground (arith, refused),
        λ e read failed. cut ∙ ground (arith, read, failed),
      )

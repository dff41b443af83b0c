-- ===== src/Grpc/OrderServer.antt =====
-- internal/adapters/grpc/order_server.go.
pub mod Requests
use Prim.Native.Char.{code}
use orders_go.Common.{
  ℕ, ◌+◌, String, Bool, true, false, none, some, List, [], ◌∷◌, ◌&&◌, ◌||◌, leb, ◌==◌,
  if◌then◌else◌,
}
use orders_go.Go.Float64.{Float64}
use orders_go.Go.Errors.{GoError, Sentinel, error_is, error_text}
use orders_go.Go.Effects.{P}
use orders_go.Orders.Service.{Reply}
use orders_go.Grpc.Status.{Status, Code}

pub record CreateOrderRequest : Type 0 where
  pub user_id : String
  pub amount : Float64
  pub idempotency_key : String

pub record CreateOrderResponse : Type 0 where
  pub order_id : String
  pub status : String
  pub message : String

pub data Outcome : Type 0 where
  response : CreateOrderResponse → Outcome
  status_error : Status → Outcome

abbrev pub codes : String → List ℕ
codes String.[] = []
codes (String.◌∷◌ c s) = code c ∷ codes s

-- `strings.ToLower`, as far as the search for ASCII letters sees it: besides A to Z only the dotted
-- capital I and the Kelvin sign become ASCII letters.
lower : ℕ → ℕ
lower c =
    if leb b'A' c && leb c b'Z'
    then c + 32
    else if c == 0x130
    then b'i'
    else if c == 0x212a
    then b'k'
    else c

lowered : List ℕ → List ℕ
unfolding lower
lowered [] = []
lowered (c ∷ cs) = lower c ∷ lowered cs

unfoldable pub begins : List ℕ → List ℕ → Bool
begins [] s = true
begins (c ∷ cs) [] = false
begins (c ∷ cs) (d ∷ ds) = c == d && begins cs ds

-- `strings.Contains`
contains : List ℕ → List ℕ → Bool
unfolding begins
contains [] sub = begins sub []
contains (c ∷ cs) sub = begins sub (c ∷ cs) || contains cs sub

unfoldable pub says_payment_failed : GoError → Bool
unfolding lowered contains error_text
says_payment_failed err = contains (lowered (codes (error_text err))) (codes "payment failed")

unfoldable pub map_order_error : GoError → Status
map_order_error err = record {
  code =
      if error_is err Sentinel.canceled
      then Code.canceled
      else if error_is err Sentinel.deadline_exceeded
      then Code.deadline_exceeded
      else if error_is err Sentinel.idempotency_key_required
      then Code.invalid_argument
      else if error_is err Sentinel.idempotency_conflict
      then Code.failed_precondition
      else if says_payment_failed err
      then Code.failed_precondition
      else Code.internal;
  text = error_text err;
}

-- The handler over `service.CreateOrder`.
unfoldable pub handle_create_order :
    {W : Type 0} → (String → Float64 → String → P W Reply) → CreateOrderRequest → P W Outcome
handle_create_order create_order req w =
    elim (create_order req.user_id req.amount req.idempotency_key w) [
      | none ↦ none
      | some ((order_id, err), w') ↦ elim err [
        | some e ↦ some (status_error (map_order_error e), w')
        | none ↦ some (
          response (record { order_id = order_id; status = "ok"; message = "order created" }),
          w',
        )
      ]
    ]

-- ===== src/Orders/Protocol.antt =====
-- order.go, `CreateOrder` behind `Start`: which calls are made, in which order, for each outcome of
-- the payment, the assignment and the refund. The saga's own writes may fail at will.
use Prim.Native.String.{◌++◌}
use orders_go.Common.{◌≡◌, refl, String, true, Option, none, some, List, [], ◌∷◌, ◌++◌ as append}
use orders_go.Go.Float64.{Float64}
use orders_go.Go.Errors.{GoError, wrapped, error_text}
use orders_go.Go.Effects.{P, pure}
use orders_go.Orders.Saga.{status_succeeded, status_failed, status_refunded}
use orders_go.Orders.Service.{OrderService, Reply, compensate, assign_driver, charge_payment}

-- A call of one of the service's clients.
pub data Call : Type 0 where
  step : String → String → String → String → Call
  status : String → String → Call
  charge : String → Float64 → Call
  refund : String → Float64 → Call
  assign : String → String → Call

-- A world that notes each call, the latest last.
abbrev noting : {A : Type 0} → Call → A → P (List Call) A
noting c a calls = some (a, append calls (c ∷ []))

-- A service whose calls have the given outcomes; `write` is that of the saga's writes.
abbrev pub recorder :
    Option GoError
    → Option GoError
    → Option GoError
    → (Call → Option GoError)
    → OrderService (List Call)
recorder charged assigned refunded write = record {
  payments = record {
    charge = λ id a. noting (charge id a) charged;
    refund = λ id a. noting (refund id a) refunded;
  };
  drivers = record { assign = λ id driver. noting (assign id driver) assigned };
  sagas = record {
    start = λ key id user a calls. some (
      (record { order_id = id; user_id = user; amount = a; status = "started" }, true, none),
      calls,
    );
    update_status = λ id s. noting (status id s) (write (status id s));
    add_step = λ id s t detail. noting (step id s t detail) (write (step id s t detail));
  };
  id_gen = pure "";
  driver_sel = pure "";
}

module _ (id driver : String) (amount : Float64) where
  -- The calls that the saga's description asks for, in order.
  pub script : Option GoError → Option GoError → Option GoError → List Call
  script (some e) _ _ =
      step id "charge" "started" ""
      ∷ charge id amount
      ∷ step id "charge" "failed" (error_text e)
      ∷ status id status_failed
      ∷ []
  script none none _ =
      step id "charge" "started" ""
      ∷ charge id amount
      ∷ step id "charge" "succeeded" ""
      ∷ step id "assign" "started" ""
      ∷ assign id driver
      ∷ step id "assign" "succeeded" ""
      ∷ status id status_succeeded
      ∷ []
  script none (some e) none =
      step id "charge" "started" ""
      ∷ charge id amount
      ∷ step id "charge" "succeeded" ""
      ∷ step id "assign" "started" ""
      ∷ assign id driver
      ∷ step id "assign" "failed" (error_text e)
      ∷ step id "refund" "started" ""
      ∷ refund id amount
      ∷ step id "refund" "succeeded" ""
      ∷ status id status_refunded
      ∷ []
  script none (some e) (some r) =
      step id "charge" "started" ""
      ∷ charge id amount
      ∷ step id "charge" "succeeded" ""
      ∷ step id "assign" "started" ""
      ∷ assign id driver
      ∷ step id "assign" "failed" (error_text e)
      ∷ step id "refund" "started" ""
      ∷ refund id amount
      ∷ step id "refund" "failed" (error_text r)
      ∷ status id status_failed
      ∷ []

  -- The reply: the order's id where payment and assignment went through, else the first error,
  -- with the refund's own beside it.
  pub answer : Option GoError → Option GoError → Option GoError → Reply
  answer (some e) _ _ = ("", some e)
  answer none none _ = (id, none)
  answer none (some e) none = ("", some e)
  answer none (some e) (some r) =
      ("", some (wrapped "driver assignment failed: " e ("; refund failed: " ++ error_text r)))

  -- Whatever the outcomes, the calls are those of the script and the reply is its answer: the
  -- payment is refunded exactly if it was charged and no driver was assigned, and the last status
  -- written says how it ended.
  pub charge_payment-script :
      (charged assigned refunded : Option GoError) (write : Call → Option GoError)
      → charge_payment (recorder charged assigned refunded write) id driver amount []
        ≡ some (answer charged assigned refunded, script charged assigned refunded)
  unfolding charge_payment assign_driver compensate script answer
  charge_payment-script (some e) _ _ write = refl
  charge_payment-script none none _ write = refl
  charge_payment-script none (some e) none write = refl
  charge_payment-script none (some e) (some r) write = refl

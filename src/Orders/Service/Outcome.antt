-- ===== src/Orders/Service/Outcome.antt =====
-- order.go, `CreateOrder` behind `Start`, over any clients: what an order that goes through has done.
use orders_go.Common.{◌≡◌, refl, String, none, some}
use orders_go.Go.Float64.{Float64}
use orders_go.Go.Errors.{GoError}
use orders_go.Orders.Saga.{SagaStatus}
use orders_go.Orders.Service.{OrderService, Reply, compensate, assign_driver, charge_payment}
use orders_go.Orders.Service.Rules.{
  Ensures, Ensures-any, Ensures-before, Ensures-test, Ensures-then, Ensures-return,
}
use orders_go.Orders.Service.Invariant.{Keeps}

-- What the clients promise of one order: that it is paid after a charge without an error, and done
-- after an assignment without an error behind that; the saga's writes keep both.
pub record IsHonest {W : Type 0} (s : OrderService W) (id driver : String) (amount : Float64)
    (Paid Done : W → Type 0) : Type 0 where
  pub charge_honest :
      Ensures (λ _. Unit {0}) (s.payments.charge id amount) (λ err w. err ≡ none → Paid w)
  pub assign_honest : Ensures Paid (s.drivers.assign id driver) (λ err w. err ≡ none → Done w)
  pub step_paid : (step t detail : String) → Keeps Paid (s.sagas.add_step id step t detail)
  pub step_done : (step t detail : String) → Keeps Done (s.sagas.add_step id step t detail)
  pub status_done : (t : SagaStatus) → Keeps Done (s.sagas.update_status id t)

module _ {W : Type 0} (s : OrderService W) (id driver : String) (amount : Float64)
    (Paid Done : W → Type 0) (honest : IsHonest s id driver amount Paid Done) where
  -- A reply without an error is the order's id, and the order is done.
  abbrev pub Answered : Reply → W → Type 0
  Answered r w = r.1 ≡ none → (r.0 ≡ id) × Done w

  fails :
      {Before : W → Type 0} (o : String) (e : GoError)
      → Ensures Before (λ (w : W). some ((o, some e), w)) Answered
  fails o e = Ensures-return (o, some e) (λ w h e'. absurd (cc))

  compensate-Answered :
      {Before : W → Type 0} (err : GoError) → Ensures Before (compensate s id amount err) Answered
  unfolding compensate
  compensate-Answered err = Ensures-then (Ensures-any (s.sagas.add_step id "refund" "started" "")) (
      Ensures-test (Ensures-any (s.payments.refund id amount))
        (λ r.
          Ensures-then (Ensures-any (s.sagas.add_step id "refund" "failed" _))
            (Ensures-then (Ensures-any (s.sagas.update_status id _)) (fails "" _)))
        (Ensures-then (Ensures-any (s.sagas.add_step id "refund" "succeeded" ""))
          (Ensures-then (Ensures-any (s.sagas.update_status id _)) (fails "" _))))

  assign_driver-Answered : Ensures Paid (assign_driver s id driver amount) Answered
  unfolding assign_driver
  assign_driver-Answered = Ensures-then (honest.step_paid "assign" "started" "") (
      Ensures-test honest.assign_honest
        (λ e.
          Ensures-then (Ensures-any (s.sagas.add_step id "assign" "failed" _))
            (compensate-Answered e))
        (Ensures-then (Ensures-before (λ w h. h refl) (honest.step_done "assign" "succeeded" ""))
          (Ensures-then (honest.status_done _) (Ensures-return (id, none) (λ w h e. (refl, h))))))

  pub charge_payment-Answered : Ensures (λ _. Unit {0}) (charge_payment s id driver amount) Answered
  unfolding charge_payment
  charge_payment-Answered = Ensures-then (Ensures-any (s.sagas.add_step id "charge" "started" "")) (
      Ensures-test honest.charge_honest
        (λ e.
          Ensures-then (Ensures-any (s.sagas.add_step id "charge" "failed" _))
            (Ensures-then (Ensures-any (s.sagas.update_status id _)) (fails "" _)))
        (Ensures-then (Ensures-before (λ w h. h refl) (honest.step_paid "charge" "succeeded" ""))
          assign_driver-Answered))

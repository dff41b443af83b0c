-- ===== src/Orders/Service/Invariant.antt =====
-- order.go, `CreateOrder` over any clients: what its calls keep.
use orders_go.Common.{
  ◌≡◌, refl, String, Bool, true, false, Option, none, some, str_eq, Bool-cases, inl, inr,
}
use orders_go.Go.Float64.{Float64}
use orders_go.Go.Errors.{GoError}
use orders_go.Go.Effects.{P}
use orders_go.Orders.Saga.{SagaRecord, SagaStatus}
use orders_go.Orders.Service.{
  OrderService, Reply, replayed, compensate, assign_driver, charge_payment, proceed, create_order,
}
use orders_go.Orders.Service.Rules.{
  Ensures, Ensures-bind, Ensures-test, Ensures-then, Ensures-return, Ensures-lift, Ensures-before,
  Ensures-after,
}

-- The property is there after the call if it was there before.
abbrev pub Keeps : {W A : Type 0} → (W → Type 0) → P W A → Type 0
Keeps Holds m = Ensures Holds m (λ _. Holds)

-- What the calls of the service keep: `Holds`, and once a saga has been created for an order also
-- what is `Behind` it.
pub record AllKeep {W : Type 0} (s : OrderService W) (Holds : W → Type 0)
    (Behind : String → W → Type 0) : Type 0 where
  pub charge_kept : (id : String) (a : Float64) → Keeps (Behind id) (s.payments.charge id a)
  pub refund_kept : (id : String) (a : Float64) → Keeps (Behind id) (s.payments.refund id a)
  pub assign_kept : (id driver : String) → Keeps (Behind id) (s.drivers.assign id driver)
  pub status_kept : (id : String) (t : SagaStatus) → Keeps (Behind id) (s.sagas.update_status id t)
  pub step_kept :
      (id step t detail : String) → Keeps (Behind id) (s.sagas.add_step id step t detail)
  pub start_kept :
      (key id user : String) (a : Float64)
      → Ensures Holds
          (s.sagas.start key id user a)
          (λ r w. Holds w × (r.1 ≡ true → r.2 ≡ none → Behind id w))
  pub behind_holds : (id : String) (w : W) → Behind id w → Holds w
  pub id_kept : (w : W) → Holds w → Holds (s.id_gen w).1
  pub driver_kept : (w : W) → Holds w → Holds (s.driver_sel w).1

module _ {W : Type 0} (s : OrderService W) (Holds : W → Type 0) (Behind : String → W → Type 0)
    (all : AllKeep s Holds Behind) where
  replies : (id : String) (r : Reply) → Keeps (Behind id) (λ (w : W). some (r, w))
  replies id r = Ensures-return r (λ w h. h)

  compensate-Keeps :
      (id : String) (a : Float64) (err : GoError) → Keeps (Behind id) (compensate s id a err)
  unfolding compensate
  compensate-Keeps id a err = Ensures-then (all.step_kept id "refund" "started" "") (
      Ensures-test (all.refund_kept id a)
        (λ e.
          Ensures-then (all.step_kept id "refund" "failed" _)
            (Ensures-then (all.status_kept id _) (replies id _)))
        (Ensures-then (all.step_kept id "refund" "succeeded" "")
          (Ensures-then (all.status_kept id _) (replies id _))))

  assign_driver-Keeps :
      (id driver : String) (a : Float64) → Keeps (Behind id) (assign_driver s id driver a)
  unfolding assign_driver
  assign_driver-Keeps id driver a = Ensures-then (all.step_kept id "assign" "started" "") (
      Ensures-test (all.assign_kept id driver)
        (λ e. Ensures-then (all.step_kept id "assign" "failed" _) (compensate-Keeps id a e))
        (Ensures-then (all.step_kept id "assign" "succeeded" "")
          (Ensures-then (all.status_kept id _) (replies id _))))

  charge_payment-Keeps :
      (id driver : String) (a : Float64) → Keeps (Behind id) (charge_payment s id driver a)
  unfolding charge_payment
  charge_payment-Keeps id driver a = Ensures-then (all.step_kept id "charge" "started" "") (
      Ensures-test (all.charge_kept id a)
        (λ e.
          Ensures-then (all.step_kept id "charge" "failed" _)
            (Ensures-then (all.status_kept id _) (replies id _)))
        (Ensures-then (all.step_kept id "charge" "succeeded" "") (assign_driver-Keeps id driver a)))

  proceed-Keeps :
      (id driver : String) (a : Float64) (started : SagaRecord × Bool × Option GoError)
      → Ensures
          (λ w. Holds w × (started.1 ≡ true → started.2 ≡ none → Behind id w))
          (proceed s id driver a started)
          (λ _. Holds)
  unfolding proceed
  proceed-Keeps id driver a (r, _, some e) = Ensures-return ("", some e) (λ w h. h.0)
  proceed-Keeps id driver a (r, true, none) =
      Ensures-before (λ w h. h.1 refl refl)
        (Ensures-after (λ _. all.behind_holds id) (charge_payment-Keeps id driver a))
  proceed-Keeps id driver a (r, false, none) = Ensures-return (replayed r) (λ w h. h.0)

  -- `CreateOrder` keeps what each of the calls that it makes keeps.
  pub create_order-Keeps :
      (user : String) (a : Float64) (key : String) → Keeps Holds (create_order s user a key)
  unfolding create_order
  create_order-Keeps user a key = elim (Bool-cases (str_eq key "")) [
    | inl missing ↦ rw missing (Ensures-return _ (λ w h. h))
    | inr given ↦ rw given (
        Ensures-bind (Ensures-lift s.id_gen all.id_kept) λ id.
          Ensures-bind (Ensures-lift s.driver_sel all.driver_kept) λ driver.
            Ensures-bind (all.start_kept key id user a)
              λ started. proceed-Keeps id driver a started)
  ]

-- ===== src/Orders/Service/Returns.antt =====
-- order.go, `CreateOrder` over any clients: where each of its calls comes back, so does it.
use orders_go.Common.{
  refl, String, Bool, true, false, Option, none, some, str_eq, arith, Bool-cases, inl, inr,
}
use orders_go.Go.Float64.{Float64}
use orders_go.Go.Errors.{GoError}
use orders_go.Go.Effects.{M, P, lift}
use orders_go.Go.Partial.{◌>>=◌, ◌>>◌}
use orders_go.Reliability.Retry.Returns.{Returns}
use orders_go.Orders.Saga.{SagaRecord, SagaStatus}
use orders_go.Orders.Service.{
  OrderService, Reply, compensate, assign_driver, charge_payment, proceed, create_order,
}

module _ {W A B : Type 0} {Holds : W → Type 0} {m : P W A} where
  bind-Returns :
      {f : A → P W B} → Returns Holds m → ((a : A) → Returns Holds (f a)) → Returns Holds (m >>= f)
  bind-Returns {f} first then' w h =
      let (a, w₁, ran, h₁) = first w h in
      let (b, w₂, ran', h₂) = then' a w₁ h₁ in (b, w₂, ground (arith, ran, ran'), h₂)

  then-Returns : {k : P W B} → Returns Holds m → Returns Holds k → Returns Holds (m >> k)
  then-Returns first then' = bind-Returns first (λ _. then')

test-Returns :
    {W B : Type 0} {Holds : W → Type 0} {m : P W (Option GoError)} {f : GoError → P W B} {k : P W B}
    → Returns Holds m
    → ((e : GoError) → Returns Holds (f e))
    → Returns Holds k
    → Returns Holds (m >>= λ r. elim r [ some e ↦ f e | none ↦ k ])
test-Returns {W} {B} {Holds} {m} {f} {k} first fails succeeds = bind-Returns first λ r.
    elim r as (λ x. Returns Holds (elim x [ some e ↦ f e | none ↦ k ])) [
      | some e ↦ fails e
      | none ↦ succeeds
    ]

-- Every call of the service comes back from a world with the property, and leaves one.
pub record AllReturn {W : Type 0} (s : OrderService W) (Holds : W → Type 0) : Type 0 where
  pub charge_returns : (id : String) (a : Float64) → Returns Holds (s.payments.charge id a)
  pub refund_returns : (id : String) (a : Float64) → Returns Holds (s.payments.refund id a)
  pub assign_returns : (id driver : String) → Returns Holds (s.drivers.assign id driver)
  pub status_returns : (id : String) (t : SagaStatus) → Returns Holds (s.sagas.update_status id t)
  pub step_returns : (id step t detail : String) → Returns Holds (s.sagas.add_step id step t detail)
  pub start_returns :
      (key id user : String) (a : Float64) → Returns Holds (s.sagas.start key id user a)
  pub id_kept : (w : W) → Holds w → Holds (s.id_gen w).1
  pub driver_kept : (w : W) → Holds w → Holds (s.driver_sel w).1

module _ {W : Type 0} (s : OrderService W) (Holds : W → Type 0) (all : AllReturn s Holds) where
  replies : (r : Reply) → Returns Holds (λ w. some (r, w))
  replies r w h = (r, w, refl, h)

  lift-Returns :
      {A : Type 0} (m : M W A) → ((w : W) → Holds w → Holds (m w).1) → Returns Holds (lift m)
  lift-Returns m kept w h = ((m w).0, (m w).1, refl, kept w h)

  compensate-Returns :
      (id : String) (a : Float64) (err : GoError) → Returns Holds (compensate s id a err)
  unfolding compensate
  compensate-Returns id a err = then-Returns (all.step_returns id "refund" "started" "") (
      test-Returns (all.refund_returns id a)
        (λ e.
          then-Returns (all.step_returns id "refund" "failed" _)
            (then-Returns (all.status_returns id _) (replies _)))
        (then-Returns (all.step_returns id "refund" "succeeded" "")
          (then-Returns (all.status_returns id _) (replies _))))

  assign_driver-Returns :
      (id driver : String) (a : Float64) → Returns Holds (assign_driver s id driver a)
  unfolding assign_driver
  assign_driver-Returns id driver a = then-Returns (all.step_returns id "assign" "started" "") (
      test-Returns (all.assign_returns id driver)
        (λ e. then-Returns (all.step_returns id "assign" "failed" _) (compensate-Returns id a e))
        (then-Returns (all.step_returns id "assign" "succeeded" "")
          (then-Returns (all.status_returns id _) (replies _))))

  charge_payment-Returns :
      (id driver : String) (a : Float64) → Returns Holds (charge_payment s id driver a)
  unfolding charge_payment
  charge_payment-Returns id driver a = then-Returns (all.step_returns id "charge" "started" "") (
      test-Returns (all.charge_returns id a)
        (λ e.
          then-Returns (all.step_returns id "charge" "failed" _)
            (then-Returns (all.status_returns id _) (replies _)))
        (then-Returns (all.step_returns id "charge" "succeeded" "")
          (assign_driver-Returns id driver a)))

  proceed-Returns :
      (id driver : String) (a : Float64) (started : SagaRecord × Bool × Option GoError)
      → Returns Holds (proceed s id driver a started)
  unfolding proceed
  proceed-Returns id driver a (r, _, some e) = replies _
  proceed-Returns id driver a (r, true, none) = charge_payment-Returns id driver a
  proceed-Returns id driver a (r, false, none) = replies _

  pub create_order-Returns :
      (user : String) (a : Float64) (key : String) → Returns Holds (create_order s user a key)
  unfolding create_order
  create_order-Returns user a key = elim (Bool-cases (str_eq key "")) [
    | inl missing ↦ rw missing (replies _)
    | inr given ↦ rw given (
        bind-Returns (lift-Returns s.id_gen all.id_kept) λ id.
          bind-Returns (lift-Returns s.driver_sel all.driver_kept) λ driver.
            bind-Returns (all.start_returns key id user a)
              λ started. proceed-Returns id driver a started)
  ]

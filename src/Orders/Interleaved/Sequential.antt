-- ===== src/Orders/Interleaved/Sequential.antt =====
-- order.go, `CreateOrder` over the stores, as it is written and cut up into its statements.
use orders_go.Common.{
  ◌≡◌, refl, String, Bool, Option, none, some, arith, Option-cases, Bool-cases, inl, inr, true,
  false, str_eq,
}
use orders_go.Go.Float64.{Float64}
use orders_go.Go.Errors.{GoError, error_text}
use orders_go.Orders.Saga.{SagaRecord}
use orders_go.Orders.Service.{
  Reply, compensate, assign_driver, charge_payment, proceed, create_order,
}
use orders_go.Orders.Postgres.{postgres_service}
use orders_go.Db.Sql.{Db}
use orders_go.Db.Payments.{charge, explain_refund, refund}
use orders_go.Db.Sagas.{read_back, start, update_status, add_step}
use orders_go.Db.Drivers.{check_existing, assign}
use orders_go.Orders.Interleaved.{
  Prog, done, atomic, Attempt, charge_steps, explain_refund_steps, refund_steps,
  check_existing_steps, assign_steps, add_step_steps, update_status_steps, read_back_steps,
  start_steps, compensate_steps, assign_driver_steps, charge_payment_steps, proceed_steps,
  order_steps,
}

-- The statements of a call, with none of another's between them.
unfoldable pub run_alone : {A : Type 0} → Prog A → Db → A × Db
run_alone (done a) db = (a, db)
run_alone (atomic f k) db = run_alone (k db) (f db)

run-charge_steps :
    (id : String) (a : Float64) (k : Option GoError → Prog Reply) (db : Db)
    → run_alone (charge_steps id a k) db ≡ run_alone (k (charge id a db).0) (charge id a db).1
unfolding charge_steps charge run_alone
run-charge_steps id a k db = ground arith

run-refund_steps :
    (id : String) (a : Float64) (k : Option GoError → Prog Reply) (db : Db)
    → run_alone (refund_steps id a k) db ≡ run_alone (k (refund id a db).0) (refund id a db).1
unfolding refund_steps explain_refund_steps refund explain_refund run_alone
run-refund_steps id a k db = ground arith

run-assign_steps :
    (id driver : String) (k : Option GoError → Prog Reply) (db : Db)
    → run_alone (assign_steps id driver k) db
      ≡ run_alone (k (assign id driver db).0) (assign id driver db).1
unfolding assign_steps check_existing_steps assign check_existing run_alone
run-assign_steps id driver k db = ground arith

run-start_steps :
    (key id user : String) (a : Float64) (k : SagaRecord × Bool × Option GoError → Prog Reply)
    (db : Db)
    → run_alone (start_steps key id user a k) db
      ≡ run_alone (k (start key id user a db).0) (start key id user a db).1
unfolding start_steps read_back_steps start read_back run_alone
run-start_steps key id user a k db = ground arith

run-add_step_steps :
    (id step t detail : String) (rest : Prog Reply) (db : Db)
    → run_alone (add_step_steps id step t detail rest) db
      ≡ run_alone rest (add_step id step t detail db).1
unfolding add_step_steps add_step run_alone
run-add_step_steps id step t detail rest db = refl

run-update_status_steps :
    (id status : String) (rest : Prog Reply) (db : Db)
    → run_alone (update_status_steps id status rest) db
      ≡ run_alone rest (update_status id status db).1
unfolding update_status_steps update_status run_alone
run-update_status_steps id status rest db = refl

module _ (c : Attempt) where
  run-compensate_steps :
      (err : GoError) (db : Db)
      → compensate (postgres_service c.order_id c.driver_id) c.order_id c.amount err db
        ≡ some (run_alone (compensate_steps c err) db)
  unfolding compensate compensate_steps add_step_steps update_status_steps run_alone add_step
      update_status
  run-compensate_steps err db =
      let d = (add_step c.order_id "refund" "started" "" db).1 in
      rw (run-refund_steps c.order_id c.amount _ d)
        (elim (Option-cases (refund c.order_id c.amount d).0) [
          | inl ok ↦ ground (arith, ok)
          | inr (e, bad) ↦ ground (arith, bad)
        ])

  run-assign_driver_steps :
      (db : Db)
      → assign_driver (postgres_service c.order_id c.driver_id) c.order_id c.driver_id c.amount db
        ≡ some (run_alone (assign_driver_steps c) db)
  unfolding assign_driver assign_driver_steps run_alone add_step update_status add_step_steps
      update_status_steps
  run-assign_driver_steps db =
      let d = (add_step c.order_id "assign" "started" "" db).1 in
      rw (run-assign_steps c.order_id c.driver_id _ d)
        (elim (Option-cases (assign c.order_id c.driver_id d).0) [
          | inl ok ↦ ground (arith, ok)
          | inr (e, bad) ↦
              let d' =
                (add_step c.order_id "assign" "failed" (error_text e)
                  (assign c.order_id c.driver_id d).1).1 in
              ground (arith, bad, run-compensate_steps e d')
        ])

  run-charge_payment_steps :
      (db : Db)
      → charge_payment (postgres_service c.order_id c.driver_id) c.order_id c.driver_id c.amount db
        ≡ some (run_alone (charge_payment_steps c) db)
  unfolding charge_payment charge_payment_steps add_step_steps update_status_steps run_alone
      add_step update_status
  run-charge_payment_steps db =
      let d = (add_step c.order_id "charge" "started" "" db).1 in
      rw (run-charge_steps c.order_id c.amount _ d)
        (elim (Option-cases (charge c.order_id c.amount d).0) [
          | inl ok ↦
              let d' =
                (add_step c.order_id "charge" "succeeded" "" (charge c.order_id c.amount d).1).1 in
              ground (arith, ok, run-assign_driver_steps d')
          | inr (e, bad) ↦ ground (arith, bad)
        ])

  run-proceed_steps :
      (started : SagaRecord × Bool × Option GoError) (db : Db)
      → proceed (postgres_service c.order_id c.driver_id) c.order_id c.driver_id c.amount started db
        ≡ some (run_alone (proceed_steps c started) db)
  unfolding proceed proceed_steps run_alone
  run-proceed_steps (r, created, some e) db = refl
  run-proceed_steps (r, false, none) db = refl
  run-proceed_steps (r, true, none) db = run-charge_payment_steps db

  -- `CreateOrder` over the stores is its statements one after the other, whatever becomes of each.
  order_steps-create_order :
      (db : Db)
      → create_order (postgres_service c.order_id c.driver_id) c.user_id c.amount c.key db
        ≡ some (run_alone (order_steps c) db)
  unfolding create_order order_steps run_alone
  order_steps-create_order db = elim (Bool-cases (str_eq c.key "")) [
    | inl blank ↦ rw blank refl
    | inr named ↦ rw named (
        rw (run-start_steps c.key c.order_id c.user_id c.amount _ db)
          (run-proceed_steps (start c.key c.order_id c.user_id c.amount db).0 _))
  ]

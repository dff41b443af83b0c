-- ===== src/Orders/Reliable/Invariant.antt =====
-- order.go over the reliable clients and over Postgres alone: the tables' constraints.
use orders_go.Common.{ℕ, ◌≡◌, String, none, some, true}
use orders_go.Go.Float64.{Float64}
use orders_go.Go.Effects.{M, Action, Runtime}
use orders_go.Orders.Settings.{ReliabilityConfig}
use orders_go.Orders.Service.{Reply, create_order}
use orders_go.Orders.Service.Rules.{Ensures-after}
use orders_go.Orders.Service.Invariant.{Keeps, AllKeep, create_order-Keeps}
use orders_go.Orders.Reliable.{
  Shop, on_payments, on_drivers, on_db, client_config, reliable_payments, reliable_drivers,
  reliable_service,
}
use orders_go.Orders.Reliable.Parts.{on_world-Ensures, payments-Ensures, drivers-Ensures}
use orders_go.Reliability.Client.{do_guarded, guarded_charge, guarded_refund, guarded_assign}
use orders_go.Db.Sql.{Db}
use orders_go.Db.Payments.{charge, refund}
use orders_go.Db.Sagas.{start, add_step, update_status}
use orders_go.Db.Drivers.{assign}
use orders_go.Db.Integrity.{IsIntact, IsOpen}
use orders_go.Db.Integrity.Operations.{
  charge-IsIntact, refund-IsIntact, start-IsIntact, update_status-IsIntact, add_step-IsIntact,
  assign-IsIntact,
}
use orders_go.Db.Integrity.Open.{
  charge-IsOpen, refund-IsOpen, assign-IsOpen, add_step-IsOpen, update_status-IsOpen, start-IsOpen,
}

module _ {E : Type 0} (rt : Runtime E) (fuel : ℕ) (cfg : ReliabilityConfig) where
  -- The service's database.
  abbrev Intact : Shop E → Type 0
  Intact s = IsIntact s.world.db

  -- And behind the start of an order's saga.
  abbrev OpenIn : String → Db → Type 0
  OpenIn id db = IsIntact db × IsOpen id db

  payments_keep :
      (id : String) (fn : Action Db)
      → ((db : Db) → OpenIn id db → OpenIn id (fn db).1)
      → Keeps
          (λ (s : Shop E). OpenIn id s.world.db)
          (on_payments (do_guarded (client_config rt fuel cfg) fuel (on_db fn)))
  payments_keep id fn keeps =
      Ensures-after (λ e s h. h.0)
        (payments-Ensures rt fuel cfg fn (OpenIn id) (λ _. Unit {0}) keeps (λ db _. tt))

  drivers_keep :
      (id : String) (fn : Action Db)
      → ((db : Db) → OpenIn id db → OpenIn id (fn db).1)
      → Keeps
          (λ (s : Shop E). OpenIn id s.world.db)
          (on_drivers (do_guarded (client_config rt fuel cfg) fuel (on_db fn)))
  drivers_keep id fn keeps =
      Ensures-after (λ e s h. h.0)
        (drivers-Ensures rt fuel cfg fn (OpenIn id) (λ _. Unit {0}) keeps (λ db _. tt))

  reliable-AllKeep :
      (new_uuid : M E String)
      → AllKeep (reliable_service rt fuel cfg new_uuid) Intact (λ id s. OpenIn id s.world.db)
  unfolding reliable_service reliable_payments reliable_drivers guarded_charge guarded_refund
      guarded_assign
  reliable-AllKeep new_uuid = record {
    charge_kept = λ id a.
        payments_keep id (charge id a)
          (λ db h. (charge-IsIntact id a db h.1 h.0, charge-IsOpen id id a db h.1));
    refund_kept = λ id a.
        payments_keep id (refund id a)
          (λ db h. (refund-IsIntact id a db h.0, refund-IsOpen id id a db h.1));
    assign_kept = λ id driver.
        drivers_keep id (assign id driver)
          (λ db h. (assign-IsIntact id driver db h.0, assign-IsOpen id id driver db h.1));
    start_kept = λ key id user a.
        on_world-Ensures IsIntact (λ r db. IsIntact db × (r.1 ≡ true → r.2 ≡ none → OpenIn id db))
          (start key id user a)
          (λ db h.
            let h' = start-IsIntact key id user a db h in
            (h', λ made ok. (h', start-IsOpen key id user a db made ok)));
    status_kept = λ id t.
        on_world-Ensures (OpenIn id) (λ _. OpenIn id) (update_status id t)
          (λ db h. (update_status-IsIntact id t db h.0, update_status-IsOpen id id t db h.1));
    step_kept = λ id step t detail.
        on_world-Ensures (OpenIn id) (λ _. OpenIn id) (add_step id step t detail)
          (λ db h. (
            add_step-IsIntact id step t detail db h.0,
            add_step-IsOpen id id step t detail db h.1,
          ));
    behind_holds = λ id s h. h.0;
    id_kept = λ s h. h;
    driver_kept = λ s h. h;
  }

  -- Whatever becomes of the statements, and whatever the limiters, the breakers and the retry loops
  -- do, `CreateOrder` keeps the tables' constraints: one payment and one assignment for an order,
  -- one saga for an order and for an idempotency key, and no payment, step or assignment of an order
  -- without a saga.
  pub create_order-IsIntact :
      (new_uuid : M E String) (user : String) (amount : Float64) (key : String) (s : Shop E)
      {r : Reply} {s' : Shop E}
      → IsIntact s.world.db
      → create_order (reliable_service rt fuel cfg new_uuid) user amount key s ≡ some (r, s')
      → IsIntact s'.world.db
  create_order-IsIntact new_uuid user amount key s {r} {s'} h e =
      (create_order-Keeps (reliable_service rt fuel cfg new_uuid) Intact
          (λ id t. OpenIn id t.world.db) (reliable-AllKeep new_uuid) user amount key).ensured
        s r s' h e

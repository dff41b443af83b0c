-- ===== src/Db/Schema.antt =====
-- The `InitSchema` methods of internal/db/orders and internal/db/ingest.
use orders_go.Common.{none, some, List, [], ◌∷◌}
use orders_go.Go.Effects.{Action}

pub data Table : Type 0 where
  payments order_sagas order_saga_steps order_assignments driver_locations : Table

-- `create` runs the CREATE TABLE IF NOT EXISTS of a table.
module _ {W : Type 0} (create : Table → Action W) where
  unfoldable pub create_all : List Table → Action W
  create_all [] w = (none, w)
  create_all (t ∷ ts) w =
      let (err, w') = create t w in elim err [ some e ↦ (some e, w') | none ↦ create_all ts w' ]

  abbrev pub init_payments : Action W
  init_payments = create payments

  unfoldable pub init_sagas : Action W
  init_sagas = create_all (order_sagas ∷ order_saga_steps ∷ [])

  abbrev pub init_drivers : Action W
  init_drivers = create order_assignments

  abbrev pub init_locations : Action W
  init_locations = create driver_locations

-- ===== src/Db/Integrity.antt =====
-- The constraints of the tables of internal/db/orders (primary keys, unique keys, foreign keys), and
-- that of `payments`, whose orders no foreign key ties to their sagas.
mod Rows
pub mod Statements
pub mod Operations
pub mod Open
use orders_go.Common.{String, ◌≡◌, ◌≢◌, none, List, [], ◌∷◌}
use orders_go.Db.Sql.{Payment, SagaRow, StepRow, Assignment, Db}
use orders_go.Db.Payments.Laws.{IsKeyed}
use orders_go.Db.Sagas.{find_key, find_order}
use orders_go.Db.Drivers.{find_assignment}

-- No two sagas of one idempotency key, or of one order.
abbrev pub AreUnique : List SagaRow → Type 0
AreUnique [] = Unit
AreUnique (r ∷ rs) =
    (find_key r.idempotency_key rs ≡ none) × (find_order r.order_id rs ≡ none) × AreUnique rs

-- Each payment is one of an order with a saga.
abbrev pub HaveOrders : List SagaRow → List Payment → Type 0
HaveOrders sagas [] = Unit
HaveOrders sagas (p ∷ ps) = (find_order p.order_id sagas ≢ none) × HaveOrders sagas ps

-- Each step is one of a saga.
abbrev pub HaveSagas : List SagaRow → List StepRow → Type 0
HaveSagas sagas [] = Unit
HaveSagas sagas (t ∷ ts) = (find_order t.order_id sagas ≢ none) × HaveSagas sagas ts

-- No two assignments of one order, and each is one of a saga.
abbrev pub AreAssigned : List SagaRow → List Assignment → Type 0
AreAssigned sagas [] = Unit
AreAssigned sagas (a ∷ rest) =
    (find_assignment a.order_id rest ≡ none)
    × (find_order a.order_id sagas ≢ none)
    × AreAssigned sagas rest

pub record AreIntact (payments : List Payment) (sagas : List SagaRow) (steps : List StepRow)
    (assignments : List Assignment) : Type 0 where
  pub payments_keyed : IsKeyed payments
  pub payments_refer : HaveOrders sagas payments
  pub sagas_unique : AreUnique sagas
  pub steps_refer : HaveSagas sagas steps
  pub assignments_refer : AreAssigned sagas assignments

abbrev pub IsIntact : Db → Type 0
IsIntact db = AreIntact db.payments db.sagas db.steps db.assignments

-- The order has a saga.
abbrev pub IsOpen : String → Db → Type 0
IsOpen id db = find_order id db.sagas ≢ none

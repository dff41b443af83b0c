-- ===== src/Orders/Interleaved/Stages.antt =====
-- How far a call has come, and what that says of the database, whatever the other calls do.
use orders_go.Common.{◌≡◌, ◌≢◌, ◌⊎◌, refl, ◌∙◌, String, Bool, true, false, Option, none, some}
use orders_go.Go.Float64.{Float64, float_eq}
use orders_go.Orders.Saga.{status_succeeded}
use orders_go.Orders.Service.{Reply}
use orders_go.Orders.Paid.{IsPaid, IsDone}
use orders_go.Orders.Interleaved.{Prog, done, atomic, Attempt}
use orders_go.Orders.Interleaved.Effects.{SameRows}
use orders_go.Db.Sql.{SagaRow, Db}
use orders_go.Db.Sagas.{find_order}
use orders_go.Db.Integrity.{IsIntact, IsOpen}

-- Before the call has a saga; its saga is there; its payment too; its driver too; it tells of the
-- order `o`, which has this driver and a payment of this amount.
pub data Stage : Type 0 where
  outside : Stage
  opened : Stage
  paid : Stage
  assigned : Stage
  finished : String → String → Float64 → Stage

-- The call works on its own order, which is no other's.
abbrev pub owns : Stage → Bool
owns outside = false
owns opened = true
owns paid = true
owns assigned = true
owns (finished _ _ _) = false

-- The order that the stage tells of.
abbrev pub concern : Attempt → Stage → Option String
concern c outside = none
concern c opened = some c.order_id
concern c paid = some c.order_id
concern c assigned = some c.order_id
concern c (finished o _ _) = some o

-- The call's own saga, which has not succeeded yet.
pub record IsMine (c : Attempt) (db : Db) : Type 0 where
  pub row : SagaRow
  pub there : find_order c.order_id db.sagas ≡ some row
  pub same_key : row.idempotency_key ≡ c.key
  pub same_amount : row.amount ≡ c.amount
  pub pending : row.status ≢ status_succeeded

-- A saga of the call's key.
pub record IsKnown (c : Attempt) (o : String) (db : Db) : Type 0 where
  pub row : SagaRow
  pub there : find_order o db.sagas ≡ some row
  pub same_key : row.idempotency_key ≡ c.key

abbrev pub Holds : Attempt → Stage → Db → Type 0
Holds c outside db = Unit
Holds c opened db = IsMine c db
Holds c paid db = IsMine c db × IsPaid c.order_id c.amount db
Holds c assigned db = IsMine c db × IsDone c.order_id c.driver_id c.amount db
Holds c (finished o d a) db = (float_eq a c.amount ≡ true) × IsKnown c o db × IsDone o d a db

-- An order whose saga has succeeded is paid for and has a driver.
abbrev pub AreSettled : Db → Type 0
AreSettled db =
    (j : String) (r : SagaRow)
    → find_order j db.sagas ≡ some r
    → r.status ≡ status_succeeded
    → (d : String) × IsDone j d r.amount db

-- Where the order of a new stage comes from: it was the call's own, it had no saga, or its saga had
-- succeeded.
abbrev pub Claims : Attempt → Stage → Db → Stage → Type 0
Claims c st db st' =
    (o : String)
    → concern c st' ≡ some o
    → ((o ≡ c.order_id) × (owns st ≡ true))
      ⊎ (((o ≡ c.order_id) × (find_order o db.sagas ≡ none))
          ⊎ ((owns st' ≡ false)
              × ((r : SagaRow) × (find_order o db.sagas ≡ some r) × (r.status ≡ status_succeeded))))

-- What a statement of the call must do, with the call at `st` before and at `st'` after.
pub record Moves (c : Attempt) (st : Stage) (db : Db) (st' : Stage) (db' : Db) : Type 0 where
  pub intact : IsIntact db'
  pub settled : AreSettled db'
  pub holds : Holds c st' db'
  pub apart : (j : String) → (owns st ≡ true → j ≢ c.order_id) → IsOpen j db → SameRows j db db'
  pub claims : Claims c st db st'

-- A reply without an error tells of an order that has gone through.
abbrev pub Replied : Reply → Stage → Type 0
Replied r st = r.1 ≡ none → (d : String) × (a : Float64) × (st ≡ finished r.0 d a)

-- What is left of the call is as it should be from `st` on, whatever the database is then.
abbrev pub Ok : Attempt → Prog Reply → Stage → Type 0
Ok c (done r) st = Replied r st
Ok c (atomic f k) st =
    (db : Db)
    → IsIntact db
    → AreSettled db
    → Holds c st db
    → (st' : Stage) × Moves c st db st' (f db) × Ok c (k db) st'

pub IsMine-same :
    (c : Attempt) (db db' : Db) → SameRows c.order_id db db' → IsMine c db → IsMine c db'
IsMine-same c db db' same h = record {
  row = h.row;
  there = same.saga_same ∙ h.there;
  same_key = h.same_key;
  same_amount = h.same_amount;
  pending = h.pending;
}

pub IsPaid-same :
    (o : String) (a : Float64) (db db' : Db) → SameRows o db db' → IsPaid o a db → IsPaid o a db'
IsPaid-same o a db db' same h = record {
  payment = h.payment;
  charged = same.payment_same ∙ h.charged;
  charged_amount = h.charged_amount;
  not_refunded = h.not_refunded;
}

pub IsDone-same :
    (o d : String) (a : Float64) (db db' : Db)
    → SameRows o db db'
    → IsDone o d a db
    → IsDone o d a db'
IsDone-same o d a db db' same h = record {
  payment = h.payment;
  charged = same.payment_same ∙ h.charged;
  charged_amount = h.charged_amount;
  not_refunded = h.not_refunded;
  assignment = h.assignment;
  assigned = same.assignment_same ∙ h.assigned;
  assigned_driver = h.assigned_driver;
}

-- What a stage says lasts as long as the rows of its order do.
pub Holds-same :
    (c : Attempt) (st : Stage) (db db' : Db)
    → ((o : String) → concern c st ≡ some o → SameRows o db db')
    → Holds c st db
    → Holds c st db'
Holds-same c outside db db' same h = tt
Holds-same c opened db db' same h = IsMine-same c db db' (same c.order_id refl) h
Holds-same c paid db db' same h =
    let s = same c.order_id refl in
    (IsMine-same c db db' s h.0, IsPaid-same c.order_id c.amount db db' s h.1)
Holds-same c assigned db db' same h =
    let s = same c.order_id refl in
    (IsMine-same c db db' s h.0, IsDone-same c.order_id c.driver_id c.amount db db' s h.1)
Holds-same c (finished o d a) db db' same h =
    let s = same o refl in
    let known : IsKnown c o db' = record {
      row = h.1.row;
      there = s.saga_same ∙ h.1.there;
      same_key = h.1.same_key;
    } in
    (h.0, known, IsDone-same o d a db db' s h.2)

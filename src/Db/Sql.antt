-- ===== src/Db/Sql.antt =====
-- The database that the stores of internal/db/orders run their statements on: its tables, and what
-- becomes of each statement. The tables are those of the three `InitSchema`.
pub mod Runs
use orders_go.Common.{ℕ, suc, String, Option, none, some, List, [], ◌∷◌, Bool}
use orders_go.Go.Int64.{Time}
use orders_go.Go.Float64.{Float64}
use orders_go.Go.Errors.{GoError}
use orders_go.Go.Effects.{M}

-- Table `payments`.
pub record Payment : Type 0 where
  pub order_id : String
  pub amount : Float64
  pub charged_at : Time
  pub refunded_at : Option Time
  pub refund_amount : Option Float64

-- Table `order_sagas`.
pub record SagaRow : Type 0 where
  pub order_id : String
  pub idempotency_key : String
  pub user_id : String
  pub amount : Float64
  pub status : String
  pub created_at : Time
  pub updated_at : Time

-- Table `order_saga_steps`, but for the serial number, which no statement reads.
pub record StepRow : Type 0 where
  pub order_id : String
  pub step : String
  pub status : String
  pub detail : String
  pub created_at : Time

-- Table `order_assignments`.
pub record Assignment : Type 0 where
  pub order_id : String
  pub driver_id : String
  pub assigned_at : Time

-- What becomes of a statement: it runs; it is refused before it runs; it runs and the answer is
-- lost; it runs and its count of rows cannot be had.
pub data Fate : Type 0 where
  fine : Fate
  refused : GoError → Fate
  lost : GoError → Fate
  uncounted : GoError → Fate

-- The tables, the reading of NOW(), the driver's error for a violated constraint, and the fates of
-- the statements to come; when these run out, the rest is fine.
pub record Db : Type 0 where
  pub payments : List Payment
  pub sagas : List SagaRow
  pub steps : List StepRow
  pub assignments : List Assignment
  pub now : Time
  pub constraint_error : GoError
  pub fates : List Fate

-- What a statement does to the tables: rows affected, or a constraint that it violates.
pub data Effect : Type 0 where
  affected : ℕ → Db → Effect
  violated : Effect

-- What `ExecContext` and `RowsAffected` return.
pub data Executed : Type 0 where
  failed : GoError → Executed
  rows : ℕ → Executed
  no_count : GoError → Executed

-- What `QueryRowContext` and `Scan` return.
pub data Scanned (A : Type 0) : Type 0 where
  found : A → Scanned A
  no_row : Scanned A
  scan_failed : GoError → Scanned A

abbrev next_fate : List Fate → Fate
next_fate [] = fine
next_fate (f ∷ _) = f

abbrev later_fates : List Fate → List Fate
later_fates [] = []
later_fates (_ ∷ fs) = fs

run : Fate → (Db → Effect) → Db → Executed × Db
run (refused e) statement db = (failed e, db)
run fine statement db = elim (statement db) [
  | affected n db' ↦ (rows n, db')
  | violated ↦ (failed db.constraint_error, db)
]
run (lost e) statement db = elim (statement db) [
  | affected n db' ↦ (failed e, db')
  | violated ↦ (failed e, db)
]
run (uncounted e) statement db = elim (statement db) [
  | affected n db' ↦ (no_count e, db')
  | violated ↦ (failed db.constraint_error, db)
]

unfoldable pub exec : (Db → Effect) → M Db Executed
unfolding run
exec statement db = run (next_fate db.fates) statement (record db { fates = later_fates db.fates })

answer : {A : Type 0} → Fate → Option A → Scanned A
answer fine none = no_row
answer fine (some a) = found a
answer (refused e) _ = scan_failed e
answer (lost e) _ = scan_failed e
answer (uncounted e) _ = scan_failed e

unfoldable pub query_row : {A : Type 0} → (Db → Option A) → M Db (Scanned A)
unfolding answer
query_row select db =
    (answer (next_fate db.fates) (select db), record db { fates = later_fates db.fates })

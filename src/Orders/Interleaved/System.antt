-- ===== src/Orders/Interleaved/System.antt =====
-- Many calls of `CreateOrder` on one database: at each step some call runs its next statement, or the
-- clock moves. Nothing is asked of the keys, the orders' ids or the order of the steps, and a call may
-- stop anywhere.
pub mod Sound
pub mod Schedule
pub mod Answers
use orders_go.Common.{ℕ, ◌≡◌, ◌==◌, if◌then◌else◌}
use orders_go.Go.Int64.{Time}
use orders_go.Orders.Service.{Reply}
use orders_go.Orders.Interleaved.{Prog, atomic, Attempt, order_steps}
use orders_go.Db.Sql.{Db}

-- The database, and what is left of each call.
pub record System : Type 0 where
  pub db : Db
  pub calls : ℕ → Prog Reply

unfoldable pub put : {A : Type 0} → ℕ → A → (ℕ → A) → ℕ → A
put i a f j = if j == i then a else f j

pub data Step : System → System → Type 0 where
  runs :
      (s : System) (i : ℕ) (f : Db → Db) (k : Db → Prog Reply)
      → s.calls i ≡ atomic f k
      → Step s (record { db = f s.db; calls = put i (k s.db) s.calls })
  ticks : (s : System) (t : Time) → Step s (record s { db = record s.db { now = t } })

pub data Reach (start : System) : System → Type 0 where
  here : Reach start start
  later : (s s' : System) → Reach start s → Step s s' → Reach start s'

-- The calls before any of their statements.
abbrev pub opening : (ℕ → Attempt) → Db → System
opening attempts db = record { db = db; calls = λ i. order_steps (attempts i) }

-- ===== src/Db/Sql/Runs.antt =====
-- What `ExecContext` can have done, whatever became of the statement.
use orders_go.Common.{ℕ, ◌≡◌, ◌⊎◌, inl, inr, refl, arith, Option, none, some}
use orders_go.Go.Errors.{GoError}
use orders_go.Db.Sql.{
  Fate, fine, refused, lost, uncounted, Db, Effect, affected, violated, Executed, failed, rows,
  no_count, exec, run, Scanned, found, no_row, scan_failed, answer, query_row, later_fates,
  next_fate,
}

-- The database when the statement's turn has come.
abbrev pub at_turn : Db → Db
at_turn db = record db { fates = later_fates db.fates }

-- Either nothing has run, or the statement's effect is there and a count is that of its rows.
abbrev pub Ran : (Db → Effect) → Db → Executed × Db → Type 0
Ran statement d r =
    ((e : GoError) × (r ≡ (failed e, d)))
    ⊎ ((n : ℕ) × (d' : Db) × (statement d ≡ affected n d')
        × (r.1 ≡ d')
        × ((m : ℕ) → r.0 ≡ rows m → m ≡ n))

run-Ran_by :
    (f : Fate) (statement : Db → Effect) (d : Db) (x : Effect)
    → statement d ≡ x
    → Ran statement d (run f statement d)
unfolding run
run-Ran_by (refused err) statement d _ e = inl (err, refl)
run-Ran_by fine statement d violated e = inl (d.constraint_error, ground arith)
run-Ran_by (lost err) statement d violated e = inl (err, ground arith)
run-Ran_by (uncounted err) statement d violated e = inl (d.constraint_error, ground arith)
run-Ran_by _ statement d (affected n d') e = inr (n, d', e, ground arith, λ m h. ground arith)

pub exec-Ran : (statement : Db → Effect) (db : Db) → Ran statement (at_turn db) (exec statement db)
unfolding exec
exec-Ran statement db =
    run-Ran_by (next_fate db.fates) statement (at_turn db) (statement (at_turn db)) refl

pub Executed-cases :
    (x : Executed)
    → (((e : GoError) × (x ≡ failed e)) ⊎ ((e : GoError) × (x ≡ no_count e)))
      ⊎ ((n : ℕ) × (x ≡ rows n))
Executed-cases (failed e) = inl (inl (e, refl))
Executed-cases (no_count e) = inl (inr (e, refl))
Executed-cases (rows n) = inr (n, refl)

pub Scanned-cases :
    {A : Type 0} (x : Scanned A)
    → ((a : A) × (x ≡ found a)) ⊎ ((x ≡ no_row) ⊎ ((e : GoError) × (x ≡ scan_failed e)))
Scanned-cases (found a) = inl (a, refl)
Scanned-cases no_row = inr (inl refl)
Scanned-cases (scan_failed e) = inr (inr (e, refl))

answer-found : {A : Type 0} (f : Fate) (o : Option A) (a : A) → answer f o ≡ found a → o ≡ some a
unfolding answer
answer-found fine none a h = ground (arith, h)
answer-found fine (some b) a h = ground (arith, h)
answer-found (refused e) o a h = ground (arith, h)
answer-found (lost e) o a h = ground (arith, h)
answer-found (uncounted e) o a h = ground (arith, h)

-- What a query finds is there.
pub query_row-found :
    {A : Type 0} (select : Db → Option A) (db : Db) (a : A)
    → (query_row select db).0 ≡ found a
    → select db ≡ some a
unfolding query_row
query_row-found select db a h = answer-found (next_fate db.fates) (select db) a h

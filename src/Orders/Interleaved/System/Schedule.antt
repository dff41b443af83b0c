-- ===== src/Orders/Interleaved/System/Schedule.antt =====
-- Schedules: which call runs its next statement, again and again.
use orders_go.Common.{ℕ, ◌≡◌, ◌⊎◌, refl, inl, inr, List, [], ◌∷◌}
use orders_go.Orders.Interleaved.{Prog, done, atomic}
use orders_go.Orders.Interleaved.System.{System, put, runs, Reach, later}
use orders_go.Db.Sql.{Db}

pub Prog-cases :
    {A : Type 0} (p : Prog A)
    → ((a : A) × (p ≡ done a)) ⊎ ((f : Db → Db) × (k : Db → Prog A) × (p ≡ atomic f k))
Prog-cases (done a) = inl (a, refl)
Prog-cases (atomic f k) = inr (f, k, refl)

-- A call that has answered runs nothing.
unfoldable pub turn : ℕ → System → System
turn i s = elim (s.calls i) [
  | done _ ↦ s
  | atomic f k ↦ record { db = f s.db; calls = put i (k s.db) s.calls }
]

unfoldable pub turns : List ℕ → System → System
turns [] s = s
turns (i ∷ is) s = turns is (turn i s)

turn-Reach : (start s : System) (i : ℕ) → Reach start s → Reach start (turn i s)
unfolding turn
turn-Reach start s i reach = elim (Prog-cases (s.calls i)) [
  | inl (a, e) ↦ rw (turn, e) reach
  | inr (f, k, e) ↦ rw (turn, e) (later s _ reach (runs s i f k e))
]

-- What a schedule leads to is reached.
pub turns-Reach : (start s : System) (is : List ℕ) → Reach start s → Reach start (turns is s)
unfolding turns
turns-Reach start s [] reach = reach
turns-Reach start s (i ∷ is) reach = turns-Reach start (turn i s) is (turn-Reach start s i reach)

-- ===== src/Orders/Interleaved/System/Answers.antt =====
-- Each call answers, whatever the others do.
use mathlib.Core.Path.{subst}
use orders_go.Common.{
  ℕ, zero, suc, ◌≤◌, ◌≡◌, refl, sym, ap, ◌∙◌, List, [], ◌∷◌, ◌==◌, true, false, Bool-cases, inl,
  inr, arith, if◌then◌else◌,
}
use orders_go.Orders.Service.{Reply}
use orders_go.Orders.Interleaved.{Prog, done, atomic, Attempt}
use orders_go.Orders.Interleaved.Bound.{IsWithin, IsWithin-suc, order_steps-IsWithin}
use orders_go.Orders.Interleaved.System.{System, put, opening}
use orders_go.Orders.Interleaved.System.Schedule.{Prog-cases, turn, turns}
use orders_go.Db.Sql.{Db}

-- How often a schedule runs a call.
unfoldable pub occurrences : ℕ → List ℕ → ℕ
occurrences i [] = 0
occurrences i (j ∷ js) = let n = occurrences i js in if j == i then suc n else n

done_within : (p : Prog Reply) → IsWithin 0 p → (r : Reply) × (p ≡ done r)
done_within (done r) h = (r, refl)
done_within (atomic f k) h = absurd h

turn-done : (i : ℕ) (s : System) (a : Reply) → s.calls i ≡ done a → turn i s ≡ s
unfolding turn
turn-done i s a e = rw (turn, e) refl

turn-atomic :
    (i : ℕ) (s : System) (f : Db → Db) (k : Db → Prog Reply)
    → s.calls i ≡ atomic f k
    → turn i s ≡ record { db = f s.db; calls = put i (k s.db) s.calls }
unfolding turn put
turn-atomic i s f k e = rw (turn, e) refl

-- A turn leaves one statement less to its call, and to the others what they had.
own_turn : (n i : ℕ) (s : System) → IsWithin (suc n) (s.calls i) → IsWithin n ((turn i s).calls i)
unfolding put
own_turn n i s h = elim (Prog-cases (s.calls i)) [
  | inl (a, e) ↦
      let at : (turn i s).calls i ≡ done a = ap (λ t. t.calls i) (turn-done i s a e) ∙ e in
      subst (IsWithin n) (sym at) tt
  | inr (f, k, e) ↦
      let own : put i (k s.db) s.calls i ≡ k s.db = ground arith in
      let at : (turn i s).calls i ≡ k s.db = ap (λ t. t.calls i) (turn-atomic i s f k e) ∙ own in
      subst (IsWithin n) (sym at) (subst (IsWithin (suc n)) e h s.db)
]

other_turn : (i j : ℕ) (s : System) → (j == i) ≡ false → (turn j s).calls i ≡ s.calls i
unfolding put
other_turn i j s other = elim (Prog-cases (s.calls j)) [
  | inl (a, e) ↦ ap (λ t. t.calls i) (turn-done j s a e)
  | inr (f, k, e) ↦
      let kept : put j (k s.db) s.calls i ≡ s.calls i = ground (arith, other) in
      ap (λ t. t.calls i) (turn-atomic j s f k e) ∙ kept
]

turn_of_own :
    (n i j : ℕ) (s : System)
    → (j == i) ≡ true
    → IsWithin (suc n) (s.calls i)
    → IsWithin n ((turn j s).calls i)
turn_of_own n i j s own h =
    let e : i ≡ j = ground (arith, own) in
    subst (λ x. IsWithin n ((turn x s).calls i)) e (own_turn n i s h)

turns-answer :
    (n i : ℕ) (is : List ℕ) (s : System)
    → IsWithin n (s.calls i)
    → n ≤ occurrences i is
    → (r : Reply) × ((turns is s).calls i ≡ done r)
unfolding turns occurrences
turns-answer zero i [] s h enough = done_within (s.calls i) h
turns-answer (suc n) i [] s h enough = absurd (omega (arith, enough))
turns-answer zero i (j ∷ js) s h enough = elim (Bool-cases (j == i)) [
  | inl own ↦
      turns-answer zero i js (turn j s)
        (turn_of_own zero i j s own (IsWithin-suc zero (s.calls i) h)) (omega arith)
  | inr other ↦
      turns-answer zero i js (turn j s) (subst (IsWithin zero) (sym (other_turn i j s other)) h)
        (omega arith)
]
turns-answer (suc n) i (j ∷ js) s h enough = elim (Bool-cases (j == i)) [
  | inl own ↦
      turns-answer n i js (turn j s) (turn_of_own n i j s own h) (ground (arith, enough, own))
  | inr other ↦
      turns-answer (suc n) i js (turn j s)
        (subst (IsWithin (suc n)) (sym (other_turn i j s other)) h) (ground (arith, enough, other))
]

-- Once a schedule has run a call fourteen times, the call has answered, whatever becomes of its
-- statements, and whatever other calls the schedule runs between them.
pub turns-answered :
    (attempts : ℕ → Attempt) (db : Db) (i : ℕ) (is : List ℕ)
    → 14 ≤ occurrences i is
    → (r : Reply) × ((turns is (opening attempts db)).calls i ≡ done r)
turns-answered attempts db i is enough =
    turns-answer 14 i is (opening attempts db) (order_steps-IsWithin (attempts i)) enough

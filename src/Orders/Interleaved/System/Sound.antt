-- ===== src/Orders/Interleaved/System/Sound.antt =====
-- Whatever the statements' order and fate, the calls are at stages that hold.
use mathlib.Core.Path.{subst}
use orders_go.Common.{
  ℕ, ◌≡◌, ◌≢◌, refl, ap, sym, ◌∙◌, String, true, some, ◌==◌, arith, Bool-cases, inl, inr,
}
use orders_go.Go.Int64.{Time}
use orders_go.Orders.Service.{Reply}
use orders_go.Orders.Interleaved.{Prog, atomic, Attempt}
use orders_go.Orders.Interleaved.Stages.{
  Stage, outside, opened, paid, assigned, finished, owns, concern, Holds, AreSettled, Moves, Ok,
  Holds-same, IsDone-same,
}
use orders_go.Orders.Interleaved.Moves.{Holds-IsMine, concern-own}
use orders_go.Orders.Interleaved.System.{
  System, put, Step, runs, ticks, Reach, here, later, opening,
}
use orders_go.Orders.Interleaved.OrderPlan.{order_steps-Ok}
use orders_go.Db.Sql.{Db}
use orders_go.Db.Sagas.{find_order}
use orders_go.Db.Integrity.{IsIntact, IsOpen}

-- Each call is at a stage that holds, and works on an order that no other stage tells of.
pub record IsSound (attempts : ℕ → Attempt) (s : System) : Type 0 where
  pub intact : IsIntact s.db
  pub settled : AreSettled s.db
  pub stage : ℕ → Stage
  pub ok : (i : ℕ) → Ok (attempts i) (s.calls i) (stage i)
  pub holds : (i : ℕ) → Holds (attempts i) (stage i) s.db
  pub apart :
      (i j : ℕ) (o : String)
      → i ≢ j
      → owns (stage i) ≡ true
      → concern (attempts j) (stage j) ≡ some o
      → o ≢ (attempts i).order_id

pub Holds-IsOpen :
    (c : Attempt) (st : Stage) (db : Db) (o : String)
    → concern c st ≡ some o
    → Holds c st db
    → IsOpen o db
Holds-IsOpen c outside db o e h = absurd (ground (arith, e))
Holds-IsOpen c opened db o e h = let t = h.there in ground (arith, e, t)
Holds-IsOpen c paid db o e h = let t = h.0.there in ground (arith, e, t)
Holds-IsOpen c assigned db o e h = let t = h.0.there in ground (arith, e, t)
Holds-IsOpen c (finished o' d a) db o e h = let t = h.1.there in ground (arith, e, t)

module _ (attempts : ℕ → Attempt) where
  pub opening-IsSound :
      (db : Db) → IsIntact db → AreSettled db → IsSound attempts (opening attempts db)
  opening-IsSound db intact settled = record {
    intact = intact;
    settled = settled;
    stage = λ _. outside;
    ok = λ i. order_steps-Ok (attempts i);
    holds = λ i. tt;
    apart = λ i j o _ owner _. absurd (ground (arith, owner));
  }

  ticks-IsSound :
      (s : System) (t : Time)
      → IsSound attempts s
      → IsSound attempts (record s { db = record s.db { now = t } })
  ticks-IsSound s t h = record {
    intact = h.intact;
    settled = λ j r there won.
        let (d, k) = h.settled j r there won in
        (
          d,
          IsDone-same j d r.amount s.db (record s.db { now = t })
              (record { payment_same = refl; assignment_same = refl; saga_same = refl }) k,
        );
    stage = h.stage;
    ok = h.ok;
    holds = λ i.
        Holds-same (attempts i) (h.stage i) s.db (record s.db { now = t })
          (λ o _. record { payment_same = refl; assignment_same = refl; saga_same = refl })
          (h.holds i);
    apart = h.apart;
  }

  -- The stages after a statement of the call `i`.
  module _ (s : System) (h : IsSound attempts s) (i : ℕ) (db' : Db) (st' : Stage)
      (moves : Moves (attempts i) (h.stage i) s.db st' db') where
    stages : ℕ → Stage
    stages = put i st' h.stage

    new_owner :
        (j : ℕ) (o : String)
        → i ≢ j
        → owns st' ≡ true
        → concern (attempts j) (h.stage j) ≡ some o
        → o ≢ (attempts i).order_id
    new_owner j o ne own tells same =
        elim (moves.claims (attempts i).order_id (concern-own (attempts i) st' own)) [
          | inl (_, before) ↦ h.apart i j o ne before tells same
          | inr (inl (_, free)) ↦
              Holds-IsOpen (attempts j) (h.stage j) s.db o tells (h.holds j)
                (ap (λ x. find_order x s.db.sagas) same ∙ free)
          | inr (inr (never, _)) ↦ ground (arith, own, never)
        ]

    old_owner :
        (j : ℕ) (o : String)
        → j ≢ i
        → owns (h.stage j) ≡ true
        → concern (attempts i) st' ≡ some o
        → o ≢ (attempts j).order_id
    old_owner j o ne own tells same =
        let mine = Holds-IsMine (attempts j) (h.stage j) s.db own (h.holds j) in
        let there = mine.there in
        elim (moves.claims o tells) [
          | inl (own_id, before) ↦
              h.apart j i (attempts i).order_id ne own (concern-own (attempts i) (h.stage i) before)
                (sym own_id ∙ same)
          | inr (inl (_, free)) ↦ ground (arith, there, free, same)
          | inr (inr (_, (r, at, won))) ↦ mine.pending (ground (arith, there, at, won, same))
        ]

    others_hold : (j : ℕ) → j ≢ i → Holds (attempts j) (h.stage j) db'
    others_hold j ne =
        Holds-same (attempts j) (h.stage j) s.db db'
          (λ o tells.
            moves.apart o (λ own. h.apart i j o (λ e. ne (sym e)) own tells)
              (Holds-IsOpen (attempts j) (h.stage j) s.db o tells (h.holds j)))
          (h.holds j)

    next_db : (j : ℕ) → Holds (attempts j) (stages j) db'
    unfolding put stages
    next_db j = elim (Bool-cases (j == i)) [
      | inl same ↦
          let e : i ≡ j = ground (arith, same) in
          rw same (subst (λ x. Holds (attempts x) st' db') e moves.holds)
      | inr other ↦ rw other (others_hold j (λ e. ground (arith, other, e)))
    ]

    next_apart :
        (j k : ℕ) (o : String)
        → j ≢ k
        → owns (stages j) ≡ true
        → concern (attempts k) (stages k) ≡ some o
        → o ≢ (attempts j).order_id
    unfolding put stages
    next_apart j k o ne = elim (Bool-cases (j == i)) [
      | inl j_is ↦ elim (Bool-cases (k == i)) [
        | inl k_is ↦ absurd (ne (ground (arith, j_is, k_is)))
        | inr k_not ↦
            let e : i ≡ j = ground (arith, j_is) in
            rw j_is (
              rw k_not (
                subst
                  (λ x.
                    owns st' ≡ true
                    → concern (attempts k) (h.stage k) ≡ some o
                    → o ≢ (attempts x).order_id)
                  e (new_owner k o (λ same. ground (arith, k_not, same)))))
      ]
      | inr j_not ↦ elim (Bool-cases (k == i)) [
        | inl k_is ↦
            let e : i ≡ k = ground (arith, k_is) in
            rw j_not (
              rw k_is (
                subst
                  (λ x.
                    owns (h.stage j) ≡ true
                    → concern (attempts x) st' ≡ some o
                    → o ≢ (attempts j).order_id)
                  e (old_owner j o (λ same. ground (arith, j_not, same)))))
        | inr k_not ↦ rw j_not (rw k_not (h.apart j k o ne))
      ]
    ]

  runs-IsSound :
      (s : System) (i : ℕ) (f : Db → Db) (k : Db → Prog Reply)
      → s.calls i ≡ atomic f k
      → IsSound attempts s
      → IsSound attempts (record { db = f s.db; calls = put i (k s.db) s.calls })
  unfolding put stages
  runs-IsSound s i f k turn h =
      let mine = subst (λ p. Ok (attempts i) p (h.stage i)) turn (h.ok i) in
      let (st', moves, rest) = mine s.db h.intact h.settled (h.holds i) in
      record {
        intact = moves.intact;
        settled = moves.settled;
        stage = stages s h i (f s.db) st' moves;
        ok = λ j. elim (Bool-cases (j == i)) [
          | inl same ↦
              let e : i ≡ j = ground (arith, same) in
              rw same (subst (λ x. Ok (attempts x) (k s.db) st') e rest)
          | inr other ↦ rw other (h.ok j)
        ];
        holds = next_db s h i (f s.db) st' moves;
        apart = next_apart s h i (f s.db) st' moves;
      }

  Step-IsSound : (s s' : System) → Step s s' → IsSound attempts s → IsSound attempts s'
  Step-IsSound s s' (runs _ i f k turn) h = runs-IsSound s i f k turn h
  Step-IsSound s s' (ticks _ t) h = ticks-IsSound s t h

  pub Reach-IsSound :
      (start s : System) → Reach start s → IsSound attempts start → IsSound attempts s
  Reach-IsSound start s here h = h
  Reach-IsSound start s (later s₁ _ reach step) h =
      Step-IsSound s₁ s step (Reach-IsSound start s₁ reach h)

-- ===== src/Orders/Interleaved/Results.antt =====
-- order.go, `CreateOrder`: what the callers may count on when their calls run side by side, whatever
-- becomes of the statements.
use text.Mathlib.TextEquality.{eq_iff}
use orders_go.Common.{
  ℕ, suc, ◌≤◌, ◌≡◌, refl, ap, sym, ◌∙◌, String, Bool, true, false, none, some, List, [], ◌∷◌,
  str_eq, arith, Option-cases, inl, inr, if◌then◌else◌,
}
use mathlib.Core.Path.{subst}
use orders_go.Go.Float64.{Float64, float_eq}
use orders_go.Orders.Paid.{IsDone}
use orders_go.Orders.Interleaved.{done, Attempt}
use orders_go.Orders.Interleaved.Stages.{IsKnown, Holds, AreSettled, Ok}
use orders_go.Orders.Interleaved.Moves.{find_order-find_key}
use orders_go.Orders.Interleaved.Effects.Sagas.{find_order-id}
use orders_go.Orders.Interleaved.System.{System, Reach, opening}
use orders_go.Orders.Interleaved.System.Sound.{IsSound, opening-IsSound, Reach-IsSound}
use orders_go.Db.Sql.{Payment, SagaRow, Db}
use orders_go.Db.Payments.{find_payment}
use orders_go.Db.Payments.Laws.{IsKeyed}
use orders_go.Db.Sagas.{find_order, find_key}
use orders_go.Db.Integrity.{AreUnique, IsIntact}

-- The payment is for an order of the key.
abbrev has_key : String → List SagaRow → Payment → Bool
has_key key sagas p = elim (find_order p.order_id sagas) [
  | none ↦ false
  | some r ↦ str_eq r.idempotency_key key
]

-- How many payments are there for the orders of a key.
unfoldable pub count_charges : String → List SagaRow → List Payment → ℕ
count_charges key sagas [] = 0
count_charges key sagas (p ∷ ps) =
    let n = count_charges key sagas ps in if has_key key sagas p then suc n else n

-- The key has one order.
key-order :
    (key j j' : String) (sagas : List SagaRow) (r r' : SagaRow)
    → AreUnique sagas
    → find_order j sagas ≡ some r
    → find_order j' sagas ≡ some r'
    → r.idempotency_key ≡ key
    → r'.idempotency_key ≡ key
    → j ≡ j'
key-order key j j' sagas r r' unique there there' of_key of_key' =
    let known = find_order-find_key j sagas r unique there in
    let known' = find_order-find_key j' sagas r' unique there' in
    let id = find_order-id j sagas r there in
    let id' = find_order-id j' sagas r' there' in
    let both : some r ≡ some r' =
      sym known ∙ ap (λ k. find_key k sagas) (of_key ∙ sym of_key') ∙ known' in
    ground (arith, both, id, id')

-- Beside a payment of an order of the key, and with none other of that order, there is none.
count_others :
    (key j : String) (sagas : List SagaRow) (r : SagaRow) (ps : List Payment)
    → AreUnique sagas
    → find_order j sagas ≡ some r
    → r.idempotency_key ≡ key
    → find_payment j ps ≡ none
    → count_charges key sagas ps ≡ 0
unfolding count_charges find_payment
count_others key j sagas r [] unique there of_key gone = refl
count_others key j sagas r (p ∷ ps) unique there of_key gone =
    elim (Option-cases (find_order p.order_id sagas)) [
      | inl free ↦ ground (
        arith,
        free,
        gone,
        count_others key j sagas r ps unique there of_key,
        eq_iff p.order_id j,
      )
      | inr (r', at) ↦
          let same = key-order key j p.order_id sagas r r' unique there at of_key in
          ground (
            arith,
            at,
            gone,
            count_others key j sagas r ps unique there of_key,
            same,
            eq_iff p.order_id j,
            eq_iff r'.idempotency_key key,
          )
    ]

count_charges-once :
    (key : String) (sagas : List SagaRow) (ps : List Payment)
    → AreUnique sagas
    → IsKeyed ps
    → count_charges key sagas ps ≤ 1
unfolding count_charges
count_charges-once key sagas [] unique keyed = omega arith
count_charges-once key sagas (p ∷ ps) unique keyed =
    let before = count_charges-once key sagas ps unique keyed.1 in
    elim (Option-cases (find_order p.order_id sagas)) [
      | inl free ↦ ground (arith, free, before)
      | inr (r, at) ↦
          let alone : r.idempotency_key ≡ key → count_charges key sagas ps ≡ 0 =
            λ of_key. count_others key p.order_id sagas r ps unique at of_key keyed.0 in
          ground (arith, at, before, alone, eq_iff r.idempotency_key key)
    ]

module _ (attempts : ℕ → Attempt) (db : Db) (s : System) (intact : IsIntact db)
    (settled : AreSettled db) (reach : Reach (opening attempts db) s) where
  sound : IsSound attempts s
  sound =
      Reach-IsSound attempts (opening attempts db) s reach
        (opening-IsSound attempts db intact settled)

  -- From an intact database in which each order whose saga has succeeded is paid for and has a driver,
  -- in every state that calls running side by side reach, whatever becomes of their statements: the
  -- tables' constraints hold, each order whose saga has succeeded is paid for and has a driver still,
  -- and for each idempotency key, however many calls use it, at most one payment is there.
  pub concurrent_invariant :
      (key : String)
      → IsIntact s.db × AreSettled s.db × (count_charges key s.db.sagas s.db.payments ≤ 1)
  concurrent_invariant key =
      let i = sound.intact in
      (
        i,
        sound.settled,
        count_charges-once key s.db.sagas s.db.payments i.sagas_unique i.payments_keyed,
      )

  -- In the same states: a call that has answered with an order and no error leaves, and the others
  -- keep, that order's saga under the call's key, its payment of the call's amount (as Go compares
  -- numbers), not refunded, and its driver.
  pub replied-IsDone :
      (i : ℕ) (o : String)
      → s.calls i ≡ done (o, none)
      → (d : String) × (a : Float64) × (float_eq a (attempts i).amount ≡ true)
        × IsKnown (attempts i) o s.db
        × IsDone o d a s.db
  replied-IsDone i o ends =
      let (d, a, at) = subst (λ p. Ok (attempts i) p (sound.stage i)) ends (sound.ok i) refl in
      let (same, known, done_) = subst (λ st. Holds (attempts i) st s.db) at (sound.holds i) in
      (d, a, same, known, done_)

  -- In the same states: two calls of one key that have answered without an error name the same order.
  pub replied-same_order :
      (i j : ℕ) (o o' : String)
      → (attempts i).key ≡ (attempts j).key
      → s.calls i ≡ done (o, none)
      → s.calls j ≡ done (o', none)
      → o ≡ o'
  replied-same_order i j o o' same_key ends ends' =
      let (_, _, _, k, _) = replied-IsDone i o ends in
      let (_, _, _, k', _) = replied-IsDone j o' ends' in
      key-order (attempts i).key o o' s.db.sagas k.row k'.row sound.intact.sagas_unique k.there
        k'.there k.same_key (k'.same_key ∙ sym same_key)

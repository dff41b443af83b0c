-- ===== src/Orders/Reliable/Lost.antt =====
-- builder.go: a charge through the reliable client whose first answer from the database is lost.
use mathlib.Core.Path.{subst}
use orders_go.Common.{
  ℕ, ◌≡◌, ◌≢◌, ◌⊎◌, String, Option, none, some, List, ◌∷◌, arith, inl, inr, str_eq, Option-cases,
  Bool-cases,
}
use orders_go.Go.Float64.{Float64}
use orders_go.Go.Errors.{GoError, message}
use orders_go.Go.Effects.{Runtime}
use orders_go.Reliability.Client.{do_guarded, guarded_charge}
use orders_go.Orders.Settings.{ReliabilityConfig}
use orders_go.Orders.Reliable.{World, Shop, payment_part, on_db, client_config, reliable_payments}
use orders_go.Orders.Reliable.Parts.{guarded-Keeps, on_payments_inv}
use orders_go.Db.Sql.{Db, Fate, lost}
use orders_go.Db.Payments.{find_payment, charge}
use orders_go.Db.Payments.Faults.{charge-lost, find_payment-head}
use orders_go.Db.Payments.Laws.{charge_under_faults}

-- The order is not charged, and the answer to the next statement will be lost.
pub record IsToBeLost (id : String) (db : Db) : Type 0 where
  pub cause : GoError
  pub later : List Fate
  pub next_lost : db.fates ≡ lost cause ∷ later
  pub not_charged : find_payment id db.payments ≡ none

-- The order is charged, or will be with the answer lost.
abbrev Charged : String → Float64 → Db → Type 0
Charged id a db = IsToBeLost id db ⊎ (find_payment id db.payments ≢ none)

charge-Charged :
    (id : String) (a : Float64) (db : Db)
    → Charged id a db
    → Charged id a (charge id a db).1 × ((charge id a db).0 ≢ none)
unfolding charge
charge-Charged id a db (inr paid) =
    let (keeps, _, ok) = charge_under_faults id a db in
    elim (Option-cases (find_payment id db.payments)) [
      | inl unpaid ↦ absurd (paid unpaid)
      | inr (p, there) ↦
          let (q, still, _, _) = keeps id p there in
          (inr (ground (arith, still)), λ h. paid (ok h).0)
    ]
charge-Charged id a db (inl h) = elim (Bool-cases (str_eq id "")) [
  | inl blank ↦
      let same : (some (message "order id required"), db) ≡ charge id a db =
        ground (arith, blank) in
      subst (λ (r : Option GoError × Db). Charged id a r.1 × (r.0 ≢ none)) same
        (inl h, ground arith)
  | inr named ↦
      let e = charge-lost id a db h.cause h.later named h.next_lost h.not_charged in
      rw e (inr (ground (arith, find_payment-head id a db)), ground arith)
]

module _ {E : Type 0} (rt : Runtime E) (fuel : ℕ) (cfg : ReliabilityConfig) (id : String)
    (amount : Float64) where
  -- If the answer to the first insert of a charge is lost, the reliable client does not return nil,
  -- however often it tries again and whatever becomes of the later statements: each further attempt
  -- finds the payment that the first one made. Unless nothing was attempted, the payment is there.
  pub reliable_charge-lost :
      (s s' : Shop E) {err : Option GoError}
      → IsToBeLost id s.world.db
      → (reliable_payments rt fuel cfg).charge id amount s ≡ some (err, s')
      → (err ≢ none) × (IsToBeLost id s'.world.db ⊎ (find_payment id s'.world.db.payments ≢ none))
  unfolding reliable_payments guarded_charge
  reliable_charge-lost s s' {err} h run =
      let (g, done, same) =
        on_payments_inv (do_guarded (client_config rt fuel cfg) fuel (on_db (charge id amount))) s
          run in
      let (left, failed) =
        guarded-Keeps rt fuel cfg (charge id amount) (Charged id amount) (λ e. e ≢ none)
          (λ e. ground arith) (charge-Charged id amount) (payment_part s) g err (inl h) done in
      (failed, subst (λ (w : World E). Charged id amount w.db) same left)

-- ===== src/Orders/Service/Rules.antt =====
-- Rules for code with effects that may hang: what holds after a call, by what held before it.
use mathlib.Core.Path.{subst}
use orders_go.Common.{◌≡◌, Option, none, some, arith, Option-cases, inl, inr}
use orders_go.Go.Errors.{GoError}
use orders_go.Go.Effects.{M, P, lift}
use orders_go.Go.Partial.{◌>>=◌, ◌>>◌}

-- Wherever `m` comes back, what it returns and leaves satisfies `After`.
pub record Ensures {W A : Type 0} (Before : W → Type 0) (m : P W A) (After : A → W → Type 0)
    : Type 0 where
  pub ensured : (w : W) (a : A) (w' : W) → Before w → m w ≡ some (a, w') → After a w'

module _ {W A B : Type 0} {Before : W → Type 0} {m : P W A} where
  pub Ensures-bind :
      {Between : A → W → Type 0} {f : A → P W B} {After : B → W → Type 0}
      → Ensures Before m Between
      → ((a : A) → Ensures (Between a) (f a) After)
      → Ensures Before (m >>= f) After
  Ensures-bind {Between} {f} {After} first then' = record {
    ensured = λ w b w' h e. elim (Option-cases (m w)) [
      | inl stuck ↦ absurd (ground (arith, stuck))
      | inr ((a, v), ran) ↦
          (then' a).ensured v b w' (first.ensured w a v h ran) (ground (arith, ran))
    ];
  }

-- The same for a call that returns an error, which is tested.
module _ {W B : Type 0} {Before : W → Type 0} {m : P W (Option GoError)} where
  pub Ensures-test :
      {Between : Option GoError → W → Type 0} {f : GoError → P W B} {k : P W B}
      {After : B → W → Type 0}
      → Ensures Before m Between
      → ((e : GoError) → Ensures (Between (some e)) (f e) After)
      → Ensures (Between none) k After
      → Ensures Before (m >>= λ r. elim r [ some e ↦ f e | none ↦ k ]) After
  Ensures-test {Between} {f} {k} {After} first fails succeeds = Ensures-bind first λ r.
      elim r as (λ x. Ensures (Between x) (elim x [ some e ↦ f e | none ↦ k ]) After) [
        | some e ↦ fails e
        | none ↦ succeeds
      ]

-- The same for a call whose result is dropped.
module _ {W A B : Type 0} {Before : W → Type 0} {m : P W A} where
  pub Ensures-then :
      {Between : W → Type 0} {k : P W B} {After : B → W → Type 0}
      → Ensures Before m (λ _. Between)
      → Ensures Between k After
      → Ensures Before (m >> k) After
  Ensures-then first then' = Ensures-bind first (λ _. then')

pub Ensures-return :
    {W A : Type 0} {Before : W → Type 0} {After : A → W → Type 0} (a : A)
    → ((w : W) → Before w → After a w)
    → Ensures Before (λ w. some (a, w)) After
Ensures-return {Before} {After} a law = record {
  ensured = λ w b w' h e.
      let same_value : a ≡ b = ground arith in
      let same : w ≡ w' = ground arith in
      subst (λ x. After x w') same_value (subst (After a) same (law w h));
}

-- A call that does not hang.
pub Ensures-lift :
    {W A : Type 0} {Before : W → Type 0} {After : A → W → Type 0} (m : M W A)
    → ((w : W) → Before w → After (m w).0 (m w).1)
    → Ensures Before (lift m) After
Ensures-lift {W} {A} {Before} {After} m law = record {
  ensured = λ w a w' h e.
      let same : m w ≡ (a, w') = ground arith in
      subst (λ (x : A × W). After x.0 x.1) same (law w h);
}

-- Of a call about which nothing is known.
pub Ensures-any :
    {W A : Type 0} {Before : W → Type 0} (m : P W A) → Ensures Before m (λ _ _. Unit {0})
Ensures-any m = record { ensured = λ w a w' h e. tt }

pub Ensures-before :
    {W A : Type 0} {Before Before' : W → Type 0} {m : P W A} {After : A → W → Type 0}
    → ((w : W) → Before' w → Before w)
    → Ensures Before m After
    → Ensures Before' m After
Ensures-before sooner rule = record { ensured = λ w a w' h e. rule.ensured w a w' (sooner w h) e }

pub Ensures-after :
    {W A : Type 0} {Before : W → Type 0} {m : P W A} {After After' : A → W → Type 0}
    → ((a : A) (w : W) → After a w → After' a w)
    → Ensures Before m After
    → Ensures Before m After'
Ensures-after later rule = record { ensured = λ w a w' h e. later a w' (rule.ensured w a w' h e) }

-- ===== src/Observability/Metrics/Sums.antt =====
-- The totals of `Snapshot`, as sums over the methods.
use orders_go.Common.{
  ℕ, ◌+◌, ◌-◌, ◌^◌, ◌<◌, ◌≤◌, ◌≡◌, refl, String, List, [], ◌∷◌, str_eq, arith, ap, ◌∙◌, Bool-cases,
  inl, inr,
}
use orders_go.Common.Int.{ℤ, pos}
use orders_go.Go.Int64.{add64_pos}
use orders_go.Observability.Metrics.Laws.{found}
use orders_go.Observability.Metrics.{MethodStats, no_stats, lookup, modify_method, total}

-- The field `f` of the methods is a natural number for each, and these add up to `n`.
abbrev pub AddUp : (MethodStats → ℤ) → List (String × MethodStats) → ℕ → Type 0
AddUp f [] n = n ≡ 0
AddUp f ((k, s) ∷ rest) n = (a b : ℕ) × (f s ≡ pos a) × AddUp f rest b × (n ≡ a + b)

pub total-AddUp :
    (f : MethodStats → ℤ) (l : List (String × MethodStats)) (n : ℕ)
    → n < 2 ^ 63
    → AddUp f l n
    → total f l ≡ pos n
unfolding total
total-AddUp f [] n small h = ap pos (omega (arith, h))
total-AddUp f ((k, s) ∷ rest) n small (a, b, here, there, sum) =
    rw (here, total-AddUp f rest b (omega arith) there)
      (add64_pos a b (omega arith) ∙ ap pos (omega arith))

pub modify_method-AddUp :
    (f : MethodStats → ℤ) (g : MethodStats → MethodStats) (m : String) (a b : ℕ)
    → f no_stats ≡ pos 0
    → ((s : MethodStats) → f s ≡ pos a → f (g s) ≡ pos b)
    → (l : List (String × MethodStats)) (n : ℕ) → f (found m l) ≡ pos a
    → AddUp f l n
    → (a ≤ n) × ((k : ℕ) → k + a ≡ n + b → AddUp f (modify_method g m l) k)
unfolding lookup modify_method
modify_method-AddUp f g m a b zero change [] n here h =
    let none_yet : a ≡ 0 = ground (arith, here, zero) in
    (
      omega (arith, h, none_yet),
      λ k same. (b, 0, change no_stats here, refl, omega (arith, h, none_yet, same)),
    )
modify_method-AddUp f g m a b zero change ((i, s) ∷ rest) n here (c, d, at', there, sum) =
    elim (Bool-cases (str_eq i m)) [
      | inl same ↦
          let known : f s ≡ pos a = ground (arith, here, same) in
          let first : c ≡ a = ground (arith, known, at') in
          rw same (
            omega (arith, first, sum),
            λ k equal. (b, d, change s known, there, omega (arith, first, sum, equal)),
          )
      | inr other ↦
          let known : f (found m rest) ≡ pos a = ground (arith, here, other) in
          let (below, changed) = modify_method-AddUp f g m a b zero change rest d known there in
          rw other (
            omega (arith, below, sum),
            λ k equal. (
              c,
              d + b - a,
              at',
              changed (d + b - a) (omega (arith, below)),
              omega (arith, below, sum, equal),
            ),
          )
    ]

-- ===== src/Go/Partial.antt =====
-- Sequencing of code with effects that may hang.
use orders_go.Common.{none, some}
use orders_go.Go.Effects.{P}

infixl 5 ◌>>=◌ ◌>>◌
abbrev pub ◌>>=◌ : {W A B : Type 0} → P W A → (A → P W B) → P W B
◌>>=◌ m f w = elim (m w) [ none ↦ none | some (a, w') ↦ f a w' ]

abbrev pub ◌>>◌ : {W A B : Type 0} → P W A → P W B → P W B
m >> k = m >>= λ _. k

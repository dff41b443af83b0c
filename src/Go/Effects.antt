-- ===== src/Go/Effects.antt =====
-- Code with effects takes the world that it runs in and returns what it leaves behind. What the
-- world does (clocks, timers, contexts, random numbers) is an argument.
use orders_go.Common.{◌≡◌, refl, ◌⊎◌, inl, inr, Option, none, some, if◌then◌else◌}
use orders_go.Common.Int.{ℤ, pos, leb_ℤ}
use orders_go.Go.Int64.{Time, Duration}
use orders_go.Go.Errors.{GoError}

abbrev pub M : Type 0 → Type 0 → Type 0
M W A = W → A × W

-- A call that returns only an error.
abbrev pub Action : Type 0 → Type 0
Action W = M W (Option GoError)

abbrev pub pure : {W A : Type 0} → A → M W A
pure a w = (a, w)

-- The calls of the standard library that the reliability code makes: `time.Now`, the context's
-- `Err`, a timer raced against the context, and `rand.Int63n`.
pub record Runtime (W : Type 0) : Type 0 where
  pub now : M W Time
  pub ctx_err : Action W
  pub timer : Duration → Action W
  pub int63n : ℤ → M W ℤ

-- `sleepWithContext` of internal/orders/reliability.go, the one sleep that the program uses.
unfoldable pub sleep_with_context : {W : Type 0} → Runtime W → Duration → Action W
sleep_with_context rt d = if leb_ℤ d (pos 0) then pure none else rt.timer d

-- Code that may loop: `none` means that it has not come back within its fuel.
abbrev pub P : Type 0 → Type 0 → Type 0
P W A = W → Option (A × W)

abbrev pub lift : {W A : Type 0} → M W A → P W A
lift m w = some (m w)

-- How a round of a loop ends: by a `return`, or by going round again.
pub data Round (S : Type 0) : Type 0 where
  returned : Option GoError → S → Round S
  continued : S → Round S

pub Round-cases :
    {S : Type 0} (x : Round S)
    → ((err : Option GoError) × (s : S) × (x ≡ returned err s)) ⊎ ((s : S) × (x ≡ continued s))
Round-cases (returned err s) = inl (err, s, refl)
Round-cases (continued s) = inr (s, refl)

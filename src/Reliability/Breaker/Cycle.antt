-- ===== src/Reliability/Breaker/Cycle.antt =====
-- reliability.go, `CircuitBreaker.Execute` in calls one after another.
use orders_go.Common.{
  ℕ, zero, suc, ◌+◌, ◌-◌, ◌^◌, ◌<◌, ◌≡◌, refl, ap, ◌∙◌, true, false, none, some, arith,
}
use orders_go.Common.Int.{pos, ltb_ℤ, ◌+ℤ◌}
use orders_go.Go.Int64.{Time, time_sub, add64, wrap64}
use orders_go.Go.Errors.{GoError, sentinel, Sentinel}
use orders_go.Go.Effects.{M, Action}
use orders_go.Reliability.Breaker.{
  CircuitBreaker, circuit_closed, circuit_open, admit, settle, execute,
}

-- The state that `n` calls leave behind.
abbrev pub repeated : {S : Type 0} → ℕ → Action S → S → S
repeated zero m s = s
repeated (suc n) m s = repeated n m (m s).1

add64_one : (n : ℕ) → n < 2 ^ 63 - 1 → add64 (pos n) (pos 1) ≡ pos (n + 1)
unfolding add64 wrap64 ◌+ℤ◌
add64_one n h = ground arith

module _ {W : Type 0} (clock : M W Time) (fn : Action W) where
  -- The world after one call that reaches `fn`.
  abbrev pub ran : Action W
  ran w = fn (clock w).1

  -- A call below the threshold reaches `fn`; its failure is counted, and trips at the threshold.
  failing_call :
      (c : CircuitBreaker) (w : W) (j m : ℕ) {e : GoError}
      → c.state ≡ circuit_closed
      → c.failures ≡ pos j
      → c.max_fails ≡ pos m
      → j < m
      → m < 2 ^ 63
      → (ran w).0 ≡ some e
      → (c' : CircuitBreaker) × (execute clock fn (some c, w) ≡ (some e, (some c', (ran w).1)))
        × (c'.failures ≡ pos (j + 1))
        × (c'.max_fails ≡ pos m)
        × (j + 1 < m → c'.state ≡ circuit_closed)
        × (j + 1 ≡ m → (c'.state ≡ circuit_open) × (c'.opened_at ≡ (clock w).0))
  unfolding execute admit settle
  failing_call c w j m s f x lt big e = (
    settle (clock w).0 (ran w).0 (admit (clock w).0 c).0,
    ground (arith, add64_one j),
    ground (arith, add64_one j),
    ground (arith, add64_one j),
    ground (arith, add64_one j),
    ground (arith, add64_one j),
  )

  -- A closed breaker that is `k + 1` failures below a threshold of less than 2^63, with an `fn` that
  -- always fails: all of `k + 1` calls in a row reach `fn`; after `k` of them the breaker is still
  -- closed, and after the last it is open.
  pub failures_trip :
      (k : ℕ) (c : CircuitBreaker) (w : W) (j : ℕ)
      → ((v : W) → (e : GoError) × ((fn v).0 ≡ some e))
      → c.state ≡ circuit_closed
      → c.failures ≡ pos j
      → c.max_fails ≡ pos (j + suc k)
      → j + suc k < 2 ^ 63
      → (c₁ c₂ : CircuitBreaker) × (repeated k (execute clock fn) (some c, w)
          ≡ (some c₁, repeated k ran w))
        × (c₁.state ≡ circuit_closed)
        × (repeated (suc k) (execute clock fn) (some c, w) ≡ (some c₂, repeated (suc k) ran w))
        × (c₂.state ≡ circuit_open)
  failures_trip zero c w j fails s f x big =
      let (e, he) = fails (clock w).1 in
      let (c', call, _, _, _, trip) = failing_call c w j (j + 1) s f x (omega arith) big he in
      (c, c', refl, s, rw (call, repeated), (trip refl).0)
  failures_trip (suc k) c w j fails s f x big =
      let (e, he) = fails (clock w).1 in
      let (c', call, f', x', shut, _) =
        failing_call c w j (j + suc (suc k)) s f x (omega arith) big he in
      let (c₁, c₂, r₁, s₁, r₂, s₂) =
        failures_trip k c' (ran w).1 (j + 1) fails (shut (omega arith)) f'
          (x' ∙ ap pos (omega arith)) (omega arith) in
      (c₁, c₂, rw call r₁, s₁, rw call r₂, s₂)

  -- An open breaker refuses with `ErrCircuitOpen` and leaves `fn` alone until its timeout is over;
  -- then one call reaches `fn`, and closes it by a success or opens it anew by a failure.
  pub execute_opened :
      (c : CircuitBreaker) (w : W)
      → c.state ≡ circuit_open
      → let now = (clock w).0 in
        let waited = ltb_ℤ (time_sub now c.opened_at) c.reset_after in
        (waited ≡ true
          → execute clock fn (some c, w)
            ≡ (some (sentinel Sentinel.circuit_open), (some c, (clock w).1)))
        × (waited ≡ false
            → (ran w).0 ≡ none
            → execute clock fn (some c, w) ≡ (
              none,
              (
                some (record c {
                  state = circuit_closed;
                  failures = pos 0;
                  half_open_flight = false;
                }),
                (ran w).1,
              ),
            ))
        × ((e : GoError)
            → waited ≡ false
            → (ran w).0 ≡ some e
            → execute clock fn (some c, w) ≡ (
              some e,
              (
                some (record c { opened_at = now; failures = pos 0; half_open_flight = false }),
                (ran w).1,
              ),
            ))
  unfolding execute admit settle
  execute_opened c w s = (ground arith, ground arith, λ e h g. ground arith)

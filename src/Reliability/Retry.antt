-- ===== src/Reliability/Retry.antt =====
-- internal/orders/reliability.go, `RetryPolicy`: the delays and the loop.
pub mod Delay
pub mod Attempts
pub mod Flaky
pub mod Ensures
pub mod Returns
pub mod Single
use orders_go.Common.{
  ℕ, zero, suc, ◌+◌, ◌-◌, ◌^◌, Bool, true, false, Option, none, some, ◌&&◌, ◌||◌, not, ◌==◌,
  if◌then◌else◌,
}
use orders_go.Common.Int.{ℤ, pos, pos_part, ltb_ℤ, leb_ℤ}
use orders_go.Go.Int64.{Duration, add64, div64, shl64}
use orders_go.Go.Errors.{GoError, Sentinel, canceled, deadline_exceeded, error_is}
use orders_go.Go.Effects.{
  M, P, Action, Runtime, sleep_with_context, pure, Round, returned, continued,
}

-- A function field that is nil is `none`.
pub record RetryPolicy (W : Type 0) : Type 0 where
  pub max_attempts : ℤ
  pub base_delay : Duration
  pub max_delay : Duration
  pub jitter : Option (Duration → M W Duration)
  pub sleep : Option (Duration → Action W)
  pub should_retry : Option (GoError → Bool)

-- Neither the end of the context nor an open breaker is retried.
unfoldable pub default_should_retry : GoError → Bool
default_should_retry err =
    not (error_is err canceled)
    && not (error_is err deadline_exceeded)
    && not (error_is err Sentinel.circuit_open)

unfoldable pub default_jitter : {W : Type 0} → Runtime W → Duration → M W Duration
default_jitter rt d w =
    if leb_ℤ d (pos 0)
    then (pos 0, w)
    else let half = div64 d (pos 2) in
      let (n, w') = rt.int63n (add64 half (pos 1)) w in (add64 half n, w')

-- The delay before the jitter, after attempt `k + 1`.
unfoldable pub backoff : {W : Type 0} → RetryPolicy W → ℕ → Duration
backoff p k =
    let delay = if ltb_ℤ (pos 0) p.base_delay then shl64 p.base_delay k else p.base_delay in
    if ltb_ℤ (pos 0) p.max_delay && ltb_ℤ p.max_delay delay then p.max_delay else delay

abbrev pub attempts_of : {W : Type 0} → RetryPolicy W → ℕ
attempts_of p = if ltb_ℤ p.max_attempts (pos 1) then 1 else pos_part p.max_attempts

module _ {W : Type 0} (rt : Runtime W) (p : RetryPolicy W) where
  unfoldable pub jitter_of : Duration → M W Duration
  jitter_of d = elim p.jitter [ none ↦ default_jitter rt d | some jitter ↦ jitter d ]

  unfoldable pub sleep_of : Duration → Action W
  sleep_of d = elim p.sleep [ none ↦ sleep_with_context rt d | some sleep ↦ sleep d ]

  unfoldable pub should_retry_of : GoError → Bool
  should_retry_of err = elim p.should_retry [
    | none ↦ default_should_retry err
    | some should_retry ↦ should_retry err
  ]

  -- The rest of a round after attempt `k + 1` failed with an error that is retried.
  unfoldable pub pause : ℕ → W → Round W
  pause k w =
      let (delay, w₁) = jitter_of (backoff p k) w in
      if ltb_ℤ (pos 0) delay
      then (let (slept, w₂) = sleep_of delay w₁ in
          elim slept [ some err ↦ returned (some err) w₂ | none ↦ continued w₂ ])
      else continued w₁

  -- A round: attempt `k + 1`, which is the last if `last`.
  unfoldable pub attempt_round : P W (Option GoError) → Bool → ℕ → W → Option (Round W)
  attempt_round fn last k w =
      let (stop, w₁) = rt.ctx_err w in
      elim stop [
        | some err ↦ some (returned (some err) w₁)
        | none ↦ elim (fn w₁) [
          | none ↦ none
          | some (outcome, w₂) ↦ elim outcome [
            | none ↦ some (returned none w₂)
            | some err ↦
                if last || not (should_retry_of err)
                then some (returned (some err) w₂)
                else some (pause k w₂)
          ]
        ]
      ]

  -- The `for` loop with `left` attempts to go, after `k` of them.
  unfoldable pub retry_loop : P W (Option GoError) → ℕ → ℕ → P W (Option GoError)
  retry_loop fn zero k w = some (none, w)
  retry_loop fn (suc left) k w = elim (attempt_round fn (left == 0) k w) [
    | none ↦ none
    | some (returned err w') ↦ some (err, w')
    | some (continued w') ↦ retry_loop fn left (k + 1) w'
  ]

  -- `RetryPolicy.Do`; a nil context is one that is never done.
  unfoldable pub retry : P W (Option GoError) → P W (Option GoError)
  retry fn = retry_loop fn (attempts_of p) 0

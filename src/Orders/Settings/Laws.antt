-- ===== src/Orders/Settings/Laws.antt =====
-- reliability_config.go: reading one field after the other, and the settings of the clients.
use text.Mathlib.TextEquality.{eq_iff}
use orders_go.Common.{
  ◌≡◌, ◌≢◌, ◌↔◌, ◌⊎◌, refl, sym, ap, String, none, List, [], ◌∷◌, arith, Option-cases, inl, inr,
}
use orders_go.Common.Int.{ℤ, pos, ◌≤ℤ◌}
use orders_go.Go.Errors.{GoError}
use orders_go.Orders.Settings.{
  ReliabilityConfig, Parsed, value, malformed, parse_required, Field, read_all, no_config,
  reliability_fields, load_reliability_config,
}

-- All the assignments, and whether every read went well.
abbrev pub assigned : {C : Type 0} → List (Field C) → C → C
assigned [] c = c
assigned (f ∷ fs) c = assigned fs (f.set c)

abbrev pub AllRead : {C : Type 0} → List (Field C) → Type 0
AllRead [] = Unit
AllRead (f ∷ fs) = (f.err ≡ none) × AllRead fs

pub read_all-nil :
    {C : Type 0} (fs : List (Field C)) (c d : C)
    → read_all fs c ≡ (d, none) ↔ AllRead fs × (d ≡ assigned fs c)
unfolding read_all
read_all-nil [] c d = (λ h. (tt, sym (ap (λ x. x.0) h)), λ (_, e). rw e refl)
read_all-nil (f ∷ fs) c d = elim (Option-cases f.err) [
  | inl ok ↦
      let (to, from) = read_all-nil fs (f.set c) d in
      (
        λ h. let (all, e) = to (rw (read_all, ok) at h) in ((ok, all), e),
        λ ((_, all), e). rw (read_all, ok) (from (all, e)),
      )
  | inr (e, bad) ↦
      (λ h. absurd (ground (arith, bad, h)), λ ((ok, _), _). absurd (ground (arith, bad, ok)))
]

-- What a required number is to be: its variable is not blank, and parses as the number `n`, which is
-- not negative.
abbrev pub Reads : (String → Parsed) → String → ℤ → Type 0
Reads parse raw n = (raw ≢ "") × (parse raw ≡ value n) × (pos 0 ≤ℤ n)

pub Parsed-cases : (p : Parsed) → ((n : ℤ) × (p ≡ value n)) ⊎ ((e : GoError) × (p ≡ malformed e))
Parsed-cases (value n) = inl (n, refl)
Parsed-cases (malformed e) = inr (e, refl)

pub parse_required-Reads :
    (trim_space getenv : String → String) (parse : String → Parsed) (name : String) (n : ℤ)
    → let (m, err) = parse_required trim_space getenv parse name in
      (err ≡ none) × (n ≡ m) ↔ Reads parse (trim_space (getenv name)) n
unfolding parse_required
parse_required-Reads trim_space getenv parse name n =
    let raw = trim_space (getenv name) in
    elim (Parsed-cases (parse raw)) [
      | inl (m, good) ↦ (ground (arith, good, eq_iff raw ""), ground (arith, good, eq_iff raw ""))
      | inr (e, bad) ↦ (ground (arith, bad, eq_iff raw ""), ground (arith, bad, eq_iff raw ""))
    ]

module _ (trim_space getenv : String → String) (parse_duration atoi : String → Parsed) where
  -- What the settings are to be, variable by variable.
  abbrev pub IsConfigured : ReliabilityConfig → Type 0
  IsConfigured c =
      let variable = λ (name : String). trim_space (getenv name) in
      Reads atoi (variable "ORDER_RETRY_MAX_ATTEMPTS") c.retry_max_attempts
      × Reads parse_duration (variable "ORDER_RETRY_BASE_DELAY") c.retry_base_delay
      × Reads parse_duration (variable "ORDER_RETRY_MAX_DELAY") c.retry_max_delay
      × Reads atoi (variable "ORDER_BREAKER_MAX_FAILURES") c.breaker_max_failures
      × Reads parse_duration (variable "ORDER_BREAKER_RESET_TIMEOUT") c.breaker_reset_timeout
      × Reads parse_duration (variable "ORDER_RATE_LIMIT_INTERVAL") c.rate_limit_interval
      × Reads atoi (variable "ORDER_RATE_LIMIT_BURST") c.rate_limit_burst

  -- The settings are returned without an error exactly when each of the seven variables is set, parses
  -- as a number that is not negative, by the parser for its kind, and its field is this number.
  pub load_reliability_config-nil :
      (c : ReliabilityConfig)
      → load_reliability_config trim_space getenv parse_duration atoi ≡ (c, none) ↔ IsConfigured c
  unfolding load_reliability_config
  load_reliability_config-nil c =
      let int = parse_required-Reads trim_space getenv atoi in
      let duration = parse_required-Reads trim_space getenv parse_duration in
      let fields = reliability_fields trim_space getenv parse_duration atoi in
      let (to, from) = read_all-nil fields no_config c in
      let (to₁, from₁) = int "ORDER_RETRY_MAX_ATTEMPTS" c.retry_max_attempts in
      let (to₂, from₂) = duration "ORDER_RETRY_BASE_DELAY" c.retry_base_delay in
      let (to₃, from₃) = duration "ORDER_RETRY_MAX_DELAY" c.retry_max_delay in
      let (to₄, from₄) = int "ORDER_BREAKER_MAX_FAILURES" c.breaker_max_failures in
      let (to₅, from₅) = duration "ORDER_BREAKER_RESET_TIMEOUT" c.breaker_reset_timeout in
      let (to₆, from₆) = duration "ORDER_RATE_LIMIT_INTERVAL" c.rate_limit_interval in
      let (to₇, from₇) = int "ORDER_RATE_LIMIT_BURST" c.rate_limit_burst in
      (
        λ done.
            let ((ok₁, (ok₂, (ok₃, (ok₄, (ok₅, (ok₆, (ok₇, _))))))), e) = to done in
            (
              to₁ (ok₁, ap (λ x. x.retry_max_attempts) e),
              to₂ (ok₂, ap (λ x. x.retry_base_delay) e),
              to₃ (ok₃, ap (λ x. x.retry_max_delay) e),
              to₄ (ok₄, ap (λ x. x.breaker_max_failures) e),
              to₅ (ok₅, ap (λ x. x.breaker_reset_timeout) e),
              to₆ (ok₆, ap (λ x. x.rate_limit_interval) e),
              to₇ (ok₇, ap (λ x. x.rate_limit_burst) e),
            ),
        λ (r₁, r₂, r₃, r₄, r₅, r₆, r₇).
            let (ok₁, e₁) = from₁ r₁ in
            let (ok₂, e₂) = from₂ r₂ in
            let (ok₃, e₃) = from₃ r₃ in
            let (ok₄, e₄) = from₄ r₄ in
            let (ok₅, e₅) = from₅ r₅ in
            let (ok₆, e₆) = from₆ r₆ in
            let (ok₇, e₇) = from₇ r₇ in
            from (
              (ok₁, (ok₂, (ok₃, (ok₄, (ok₅, (ok₆, (ok₇, tt))))))),
              λ i. record {
                retry_max_attempts = e₁ i;
                retry_base_delay = e₂ i;
                retry_max_delay = e₃ i;
                breaker_max_failures = e₄ i;
                breaker_reset_timeout = e₅ i;
                rate_limit_interval = e₆ i;
                rate_limit_burst = e₇ i;
              },
            ),
      )

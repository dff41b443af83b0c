-- ===== src/Server/Config/Redis/Laws.antt =====
-- config.go, `LoadRedis`: what a configuration that it returns without an error holds.
use text.Mathlib.TextEquality.{eq_iff}
use orders_go.Common.{
  ◌≡◌, ◌≢◌, ◌↔◌, ◌⊎◌, ◌∙◌, refl, sym, ap, String, Bool, false, Option, none, some, arith,
  Option-cases, inl, inr,
}
use orders_go.Common.Int.{ℤ}
use orders_go.Go.Errors.{GoError}
use orders_go.Orders.Settings.{Parsed, read_all}
use orders_go.Orders.Settings.Laws.{Reads, Parsed-cases, read_all-nil, parse_required-Reads}
use orders_go.Server.Config.{Host, variable, required_string, optional_number, optional_bool}
use orders_go.Server.Config.Redis.{RedisConfig, redis_fields, no_redis, load_redis, load_tls}

-- What an optional number is to be: none where its variable is blank.
abbrev pub ReadsOptional : (String → Parsed) → String → Option ℤ → Type 0
ReadsOptional parse raw none = raw ≡ ""
ReadsOptional parse raw (some n) = Reads parse raw n

module _ {Pool Certificate : Type 0} (h : Host Pool Certificate) where
  -- What an optional Boolean is to be: false where its variable is blank.
  abbrev pub ReadsBool : String → Bool → Type 0
  ReadsBool raw b = ((raw ≡ "") × (b ≡ false)) ⊎ ((raw ≢ "") × (h.parse_bool raw ≡ (b, none)))

  required_string-nonempty :
      (name url : String)
      → let (s, err) = required_string h name in
        (err ≡ none) × (url ≡ s) ↔ (url ≡ variable h name) × (url ≢ "")
  unfolding required_string
  required_string-nonempty name url =
      (ground (arith, eq_iff (variable h name) ""), ground (arith, eq_iff (variable h name) ""))

  optional_number-ReadsOptional :
      (parse : String → Parsed) (name : String) (x : Option ℤ)
      → let (y, err) = optional_number h parse name in
        (err ≡ none) × (x ≡ y) ↔ ReadsOptional parse (variable h name) x
  unfolding optional_number
  optional_number-ReadsOptional parse name none =
      let raw = variable h name in
      elim (Parsed-cases (parse raw)) [
        | inl (m, good) ↦ (ground (arith, good, eq_iff raw ""), ground (arith, good, eq_iff raw ""))
        | inr (e, bad) ↦ (ground (arith, bad, eq_iff raw ""), ground (arith, bad, eq_iff raw ""))
      ]
  optional_number-ReadsOptional parse name (some n) =
      let raw = variable h name in
      elim (Parsed-cases (parse raw)) [
        | inl (m, good) ↦ (ground (arith, good, eq_iff raw ""), ground (arith, good, eq_iff raw ""))
        | inr (e, bad) ↦ (ground (arith, bad, eq_iff raw ""), ground (arith, bad, eq_iff raw ""))
      ]

  optional_bool-ReadsBool :
      (name : String) (b : Bool)
      → let (val, err) = optional_bool h name in
        (err ≡ none) × (b ≡ val) ↔ ReadsBool (variable h name) b
  unfolding optional_bool
  optional_bool-ReadsBool name b =
      let raw = variable h name in
      elim (Option-cases (h.parse_bool raw).1) [
        | inl good ↦ (ground (arith, good, eq_iff raw ""), ground (arith, good, eq_iff raw ""))
        | inr (e, bad) ↦ (ground (arith, bad, eq_iff raw ""), ground (arith, bad, eq_iff raw ""))
      ]

  -- What the configuration is to be, variable by variable. `load_tls` reads the variables for TLS.
  abbrev pub IsRead : RedisConfig Pool Certificate → Type 0
  IsRead c =
      (c.url ≡ variable h "REDIS_URL")
      × (c.url ≢ "")
      × (c.stream ≡ variable h "REDIS_STREAM")
      × ReadsOptional h.parse_duration (variable h "REDIS_DIAL_TIMEOUT") c.dial_timeout
      × ReadsOptional h.parse_duration (variable h "REDIS_READ_TIMEOUT") c.read_timeout
      × ReadsOptional h.parse_duration (variable h "REDIS_WRITE_TIMEOUT") c.write_timeout
      × ReadsOptional h.atoi (variable h "REDIS_POOL_SIZE") c.pool_size
      × ReadsOptional h.atoi (variable h "REDIS_MIN_IDLE_CONNS") c.min_idle_conns
      × ReadsOptional h.atoi (variable h "REDIS_MAX_RETRIES") c.max_retries
      × Reads h.parse_duration (variable h "REDIS_HEALTHCHECK_TIMEOUT") c.healthcheck_timeout
      × Reads h.parse_duration (variable h "REDIS_LOCATION_TTL") c.location_ttl
      × Reads h.parse_int (variable h "REDIS_STREAM_MAXLEN") c.stream_max_len
      × ReadsBool (variable h "REDIS_OTEL") c.enable_otel
      × (load_tls h ≡ (c.tls_config, none))

  module _ (c : RedisConfig Pool Certificate) (url : String) (named : url ≡ variable h "REDIS_URL")
      (full : url ≢ "") where
    abbrev fields_read : (RedisConfig Pool Certificate × Option GoError)
    fields_read = read_all (redis_fields h) (record (no_redis h) { url = url })

    redis_fields-IsRead : fields_read ≡ (c, none) → IsRead c
    redis_fields-IsRead done =
        let optional = optional_number-ReadsOptional in
        let required = parse_required-Reads h.trim_space h.getenv in
        let ((ok₁, (ok₂, (ok₃, (ok₄, (ok₅, (ok₆, (ok₇, (ok₈, (ok₉, (ok₁₀, (ok₁₁, _))))))))))), e) =
          (read_all-nil (redis_fields h) (record (no_redis h) { url = url }) c).0 done in
        (
          ap (λ x. x.url) e ∙ named,
          λ empty. full (sym (ap (λ x. x.url) e) ∙ empty),
          ap (λ x. x.stream) e,
          (optional h.parse_duration "REDIS_DIAL_TIMEOUT" c.dial_timeout).0
              (ok₁, ap (λ x. x.dial_timeout) e),
          (optional h.parse_duration "REDIS_READ_TIMEOUT" c.read_timeout).0
              (ok₂, ap (λ x. x.read_timeout) e),
          (optional h.parse_duration "REDIS_WRITE_TIMEOUT" c.write_timeout).0
              (ok₃, ap (λ x. x.write_timeout) e),
          (optional h.atoi "REDIS_POOL_SIZE" c.pool_size).0 (ok₄, ap (λ x. x.pool_size) e),
          (optional h.atoi "REDIS_MIN_IDLE_CONNS" c.min_idle_conns).0
              (ok₅, ap (λ x. x.min_idle_conns) e),
          (optional h.atoi "REDIS_MAX_RETRIES" c.max_retries).0 (ok₆, ap (λ x. x.max_retries) e),
          (required h.parse_duration "REDIS_HEALTHCHECK_TIMEOUT" c.healthcheck_timeout).0
              (ok₇, ap (λ x. x.healthcheck_timeout) e),
          (required h.parse_duration "REDIS_LOCATION_TTL" c.location_ttl).0
              (ok₈, ap (λ x. x.location_ttl) e),
          (required h.parse_int "REDIS_STREAM_MAXLEN" c.stream_max_len).0
              (ok₉, ap (λ x. x.stream_max_len) e),
          (optional_bool-ReadsBool "REDIS_OTEL" c.enable_otel).0 (ok₁₀, ap (λ x. x.enable_otel) e),
          λ i. (sym (ap (λ x. x.tls_config) e) i, ok₁₁ i),
        )

    IsRead-redis_fields : IsRead c → fields_read ≡ (c, none)
    IsRead-redis_fields (is_url, _, is_stream, r₁, r₂, r₃, r₄, r₅, r₆, r₇, r₈, r₉, r₁₀, tls) =
        let optional = optional_number-ReadsOptional in
        let required = parse_required-Reads h.trim_space h.getenv in
        let (ok₁, e₁) = (optional h.parse_duration "REDIS_DIAL_TIMEOUT" c.dial_timeout).1 r₁ in
        let (ok₂, e₂) = (optional h.parse_duration "REDIS_READ_TIMEOUT" c.read_timeout).1 r₂ in
        let (ok₃, e₃) = (optional h.parse_duration "REDIS_WRITE_TIMEOUT" c.write_timeout).1 r₃ in
        let (ok₄, e₄) = (optional h.atoi "REDIS_POOL_SIZE" c.pool_size).1 r₄ in
        let (ok₅, e₅) = (optional h.atoi "REDIS_MIN_IDLE_CONNS" c.min_idle_conns).1 r₅ in
        let (ok₆, e₆) = (optional h.atoi "REDIS_MAX_RETRIES" c.max_retries).1 r₆ in
        let (ok₇, e₇) =
          (required h.parse_duration "REDIS_HEALTHCHECK_TIMEOUT" c.healthcheck_timeout).1 r₇ in
        let (ok₈, e₈) = (required h.parse_duration "REDIS_LOCATION_TTL" c.location_ttl).1 r₈ in
        let (ok₉, e₉) = (required h.parse_int "REDIS_STREAM_MAXLEN" c.stream_max_len).1 r₉ in
        let (ok₁₀, e₁₀) = (optional_bool-ReadsBool "REDIS_OTEL" c.enable_otel).1 r₁₀ in
        (read_all-nil (redis_fields h) (record (no_redis h) { url = url }) c).1 (
          (
            ok₁,
            (ok₂, (ok₃, (ok₄, (ok₅, (ok₆, (ok₇, (ok₈, (ok₉, (ok₁₀, (ap (λ r. r.1) tls, tt)))))))))),
          ),
          λ i. record {
            url = (is_url ∙ sym named) i;
            stream = is_stream i;
            dial_timeout = e₁ i;
            read_timeout = e₂ i;
            write_timeout = e₃ i;
            pool_size = e₄ i;
            min_idle_conns = e₅ i;
            max_retries = e₆ i;
            healthcheck_timeout = e₇ i;
            location_ttl = e₈ i;
            stream_max_len = e₉ i;
            enable_otel = e₁₀ i;
            tls_config = sym (ap (λ r. r.0) tls) i;
          },
        )

  -- `LoadRedis` returns a configuration without an error exactly when REDIS_URL is not blank and is
  -- the URL, REDIS_STREAM is the stream, each optional number is none or what its variable parses as
  -- and not negative, each required number is what its variable, which is not blank, parses as and
  -- not negative, REDIS_OTEL is blank and the flag false or it parses as the flag, and the part for
  -- TLS is what its variables give without an error.
  pub load_redis-nil : (c : RedisConfig Pool Certificate) → load_redis h ≡ (c, none) ↔ IsRead c
  unfolding load_redis
  load_redis-nil c =
      let (to, from) = required_string-nonempty "REDIS_URL" (required_string h "REDIS_URL").0 in
      elim (Option-cases (required_string h "REDIS_URL").1) [
        | inl ok ↦
            let (named, full) = to (ok, refl) in
            let url = (required_string h "REDIS_URL").0 in
            rw (load_redis, ok)
              (redis_fields-IsRead c url named full, IsRead-redis_fields c url named full)
        | inr (e, bad) ↦ (
          λ done. absurd (ground (arith, bad, done)),
          λ r.
              let (ok, _) = (required_string-nonempty "REDIS_URL" c.url).1 (r.0, r.1) in
              absurd (ground (arith, bad, ok)),
        )
      ]

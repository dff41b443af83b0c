-- ===== src/Server/LocationStore/Handles.antt =====
-- location_store.go: whether both backends are closed on every way out.
use mathlib.Core.Path.{subst}
use orders_go.Common.{
  Bool, true, false, ℕ, suc, ◌-◌, ◌≡◌, ◌∙◌, refl, sym, ap, String, Option, none, some, arith,
  str_eq, Option-cases, Bool-cases, ◌⊎◌, inl, inr, if◌then◌else◌,
}
use orders_go.Common.Int.{pos, ltb_ℤ}
use orders_go.Go.Int64.{Duration}
use orders_go.Go.Errors.{GoError, message}
use orders_go.Go.Effects.{M, Action}
use orders_go.Server.Config.{Host, variable}
use orders_go.Server.Config.Redis.{RedisConfig, load_redis}
use orders_go.Server.LocationStore.{
  RedisOptions, Backends, StoreBuild, refused, built, or_release, set_options, release_both,
  built_store, open_history, open_backends, instrumented, build_location_store, cleanup,
}
use orders_go.Db.Schema.{Table}

pub Either-cases : {A B : Type 0} (x : A ⊎ B) → ((a : A) × (x ≡ inl a)) ⊎ ((y : B) × (x ≡ inr y))
Either-cases (inl a) = inl (a, refl)
Either-cases (inr y) = inr (y, refl)

module _ {Pool Certificate Rest W : Type 0} (b : Backends Pool Certificate Rest W)
    (clients dbs : W → ℕ) where
  -- A call that touches neither count.
  abbrev pub IsNeutral : (W → W) → Type 0
  IsNeutral f = (w : W) → (clients (f w) ≡ clients w) × (dbs (f w) ≡ dbs w)

  -- A new client is one more, an open that succeeds is one database more, closing takes one away, and nothing
  -- else touches them.
  pub record CountsBackends : Type 0 where
    pub client_opened :
        (o : RedisOptions Pool Certificate Rest) (w : W)
        → (clients (b.new_client o w) ≡ suc (clients w)) × (dbs (b.new_client o w) ≡ dbs w)
    pub client_closed :
        (w : W) → (clients (b.close_client w) ≡ clients w - 1) × (dbs (b.close_client w) ≡ dbs w)
    pub db_opened :
        (url : String) (w : W)
        → (clients (b.open_db url w).1 ≡ clients w)
          × (dbs (b.open_db url w).1
              ≡ elim (b.open_db url w).0 [ none ↦ suc (dbs w) | some _ ↦ dbs w ])
    pub db_closed :
        (w : W) → (clients (b.close_db w) ≡ clients w) × (dbs (b.close_db w) ≡ dbs w - 1)
    pub traced : IsNeutral (λ w. (b.instrument_tracing w).1)
    pub measured : IsNeutral (λ w. (b.instrument_metrics w).1)
    pub pinged : (t : Option Duration) → IsNeutral (λ w. (b.ping t w).1)
    pub created : (t : Table) → IsNeutral (λ w. (b.create t w).1)

  -- What is held is `c` clients and `d` databases.
  abbrev pub Counted : ℕ → ℕ → W → Type 0
  Counted c d w = (clients w ≡ c) × (dbs w ≡ d)

  -- A build that is refused holds `c` clients and `d` databases, one that is returned holds
  -- one more of each, until its cleanup.
  abbrev pub Holds : ℕ → ℕ → StoreBuild × W → Type 0
  Holds c d r = elim r.0 [
    | refused e ↦ Counted c d r.1
    | built store ↦ Counted (suc c) (suc d) r.1 × Counted c d (cleanup b r.1)
  ]

  or_release-Holds :
      (c d : ℕ) (step : Action W) (release : W → W) (rest : M W StoreBuild) (w : W)
      → ((e : GoError) → (step w).0 ≡ some e → Counted c d (release (step w).1))
      → ((step w).0 ≡ none → Holds c d (rest (step w).1))
      → Holds c d (or_release step release rest w)
  or_release-Holds c d step release rest w out on = elim (Option-cases (step w).0) [
    | inl ok ↦
        let same : or_release step release rest w ≡ rest (step w).1 = rw (or_release, ok) refl in
        subst (Holds c d) (sym same) (on ok)
    | inr (e, bad) ↦
        let same : or_release step release rest w ≡ (refused e, release (step w).1) =
          rw (or_release, bad) refl in
        subst (Holds c d) (sym same) (out e bad)
  ]

  module _ (counts : CountsBackends) where
    close_client-Counted : (c d : ℕ) (w : W) → Counted (suc c) d w → Counted c d (b.close_client w)
    close_client-Counted c d w (one, two) =
        let (less, same) = counts.client_closed w in (omega (arith, less, one), same ∙ two)

    -- A step that touches neither count, behind which only the client has to be closed.
    neutral-Holds :
        (c d : ℕ) (step : Action W) (rest : M W StoreBuild) (w : W)
        → IsNeutral (λ v. (step v).1)
        → ((v : W) → Counted (suc c) d v → Holds c d (rest v))
        → Counted (suc c) d w
        → Holds c d (or_release step b.close_client rest w)
    neutral-Holds c d step rest w neutral after (one, two) =
        let (same₁, same₂) = neutral w in
        let kept : Counted (suc c) d (step w).1 = (same₁ ∙ one, same₂ ∙ two) in
        or_release-Holds c d step b.close_client rest w
          (λ e bad. close_client-Counted c d (step w).1 kept) (λ ok. after (step w).1 kept)

    release_both-Counted :
        (c d : ℕ) (w : W) → Counted (suc c) (suc d) w → Counted c d (release_both b w)
    release_both-Counted c d w (one, two) =
        let (less₁, same₁) = counts.client_closed w in
        let (same₂, less₂) = counts.db_closed (b.close_client w) in
        (omega (arith, less₁, same₂, one), omega (arith, same₁, less₂, two))

    open_history-Holds :
        (c d : ℕ) (cfg : RedisConfig Pool Certificate) (url : String) (w : W)
        → Counted (suc c) d w
        → Holds c d (open_history b cfg url w)
    unfolding open_history
    open_history-Holds c d cfg url w (one, two) =
        let (same, opened) = counts.db_opened url w in
        let u = (b.open_db url w).1 in
        let (s₁, s₂) = counts.created Table.driver_locations u in
        or_release-Holds c d (b.open_db url) b.close_client
          (or_release (b.create Table.driver_locations) (release_both b) (built_store b cfg)) w
          (λ e bad. close_client-Counted c d u (same ∙ one, rw bad at opened ∙ two))
          (λ ok.
            let kept : Counted (suc c) (suc d) (b.create Table.driver_locations u).1 =
              (s₁ ∙ same ∙ one, s₂ ∙ (rw ok at opened) ∙ ap suc two) in
            let given_back = release_both-Counted c d (b.create Table.driver_locations u).1 kept in
            or_release-Holds c d (b.create Table.driver_locations) (release_both b)
              (built_store b cfg) u (λ e bad. given_back) (λ ok'. (kept, given_back)))

    open_backends-Holds :
        (c d : ℕ) (cfg : RedisConfig Pool Certificate) (url : String) (w : W)
        → Counted (suc c) d w
        → Holds c d (open_backends b cfg url w)
    unfolding open_backends
    open_backends-Holds c d cfg url w held =
        let timeout =
          if ltb_ℤ (pos 0) cfg.healthcheck_timeout then some cfg.healthcheck_timeout else none in
        neutral-Holds c d (b.ping timeout) (open_history b cfg url) w (counts.pinged timeout)
          (open_history-Holds c d cfg url) held

    instrumented-Holds :
        (c d : ℕ) (enabled : Bool) (rest : M W StoreBuild) (w : W)
        → ((v : W) → Counted (suc c) d v → Holds c d (rest v))
        → Counted (suc c) d w
        → Holds c d (instrumented b enabled rest w)
    unfolding instrumented
    instrumented-Holds c d false rest w after held = after w held
    instrumented-Holds c d true rest w after held =
        neutral-Holds c d b.instrument_tracing (or_release b.instrument_metrics b.close_client rest)
          w counts.traced (λ v. neutral-Holds c d b.instrument_metrics rest v counts.measured after)
          held

    -- Where a new client and a successful open of the database add one to what is held, closing takes
    -- one away and nothing else touches them, `buildLocationStore` leaves as many clients and databases open as
    -- there were whenever it returns an error; when it returns a store it holds one more of each, which
    -- its cleanup gives back.
    pub build_location_store-Holds :
        (h : Host Pool Certificate) (w : W) → Holds (clients w) (dbs w) (build_location_store b h w)
    unfolding build_location_store
    build_location_store-Holds h w =
        let c = clients w in
        let d = dbs w in
        let cfg = (load_redis h).0 in
        let url = variable h "DATABASE_URL" in
        let unchanged : (e : GoError)
            → build_location_store b h w ≡ (refused e, w)
            → Holds c d (build_location_store b h w) =
          λ e same. subst (Holds c d) (sym same) (refl, refl) in
        elim (Option-cases (load_redis h).1) [
          | inr (e, bad) ↦ unchanged e (rw (build_location_store, bad) refl)
          | inl ok ↦ elim (Bool-cases (str_eq url "")) [
            | inl blank ↦
                unchanged (message "DATABASE_URL is required")
                  (rw (build_location_store, ok, blank) refl)
            | inr named ↦ elim (Either-cases (b.parse_url cfg.url)) [
              | inl (e, bad) ↦ unchanged e (rw (build_location_store, ok, named, bad) refl)
              | inr (opts, parsed) ↦
                  let v = b.new_client (set_options cfg opts) w in
                  let same : build_location_store b h w
                      ≡ instrumented b cfg.enable_otel (open_backends b cfg url) v =
                    rw (build_location_store, ok, named, parsed) refl in
                  subst (Holds c d) (sym same) (
                    instrumented-Holds c d cfg.enable_otel (open_backends b cfg url) v
                      (open_backends-Holds c d cfg url)
                      (counts.client_opened (set_options cfg opts) w))
            ]
          ]
        ]

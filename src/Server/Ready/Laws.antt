-- ===== src/Server/Ready/Laws.antt =====
-- main.go, `readinessCheck`: what it leaves open, and when it says that the server is ready.
use mathlib.Core.Path.{subst}
use orders_go.Common.{
  ℕ, ◌≡◌, ◌∙◌, refl, sym, String, Option, none, some, arith, str_eq, Option-cases, Bool-cases, inl,
  inr,
}
use orders_go.Go.Errors.{GoError, message}
use orders_go.Go.Effects.{Action}
use orders_go.Server.Config.{Host, get_redis_url}
use orders_go.Server.LocationStore.{RedisOptions, Backends}
use orders_go.Server.LocationStore.Handles.{CountsBackends, Counted, IsNeutral, Either-cases}
use orders_go.Server.Ready.{check_database, readiness_check}

module _ {Pool Certificate Rest W : Type 0} (h : Host Pool Certificate)
    (b : Backends Pool Certificate Rest W) (select_one : Action W) (clients dbs : W → ℕ) where
  -- Redis was reached at `w` and answered, and then the database.
  pub record IsUp (w : W) : Type 0 where
    pub opts : RedisOptions Pool Certificate Rest
    pub parsed : b.parse_url (get_redis_url h).0 ≡ inr opts
    pub pinged : (b.ping none (b.new_client opts w)).0 ≡ none
    pub opened :
        (b.open_db
          (h.getenv "DATABASE_URL")
          (b.close_client (b.ping none (b.new_client opts w)).1)).0
        ≡ none
    pub answered :
        (select_one
          (b.open_db
            (h.getenv "DATABASE_URL")
            (b.close_client (b.ping none (b.new_client opts w)).1)).1).0
        ≡ none

  module _ (counts : CountsBackends b clients dbs)
      (selected : IsNeutral b clients dbs (λ w. (select_one w).1)) where
    check_database_lem :
        (url : String) (w : W)
        → let r = check_database h b select_one url w in
          Counted b clients dbs (clients w) (dbs w) r.1
          × (r.0 ≡ none
              → ((b.open_db url w).0 ≡ none) × ((select_one (b.open_db url w).1).0 ≡ none))
    unfolding check_database
    check_database_lem url w =
        let (c₁, d₁) = counts.db_opened url w in
        let u = (b.open_db url w).1 in
        let (c₂, d₂) = selected u in
        let (c₃, d₃) = counts.db_closed (select_one u).1 in
        elim (Option-cases (b.open_db url w).0) [
          | inr (e, bad) ↦ ground (arith, bad, c₁, d₁)
          | inl ok ↦ ground (arith, ok, c₁, d₁, c₂, d₂, c₃, d₃)
        ]

    abbrev IsChecked : W → Option GoError × W → Type 0
    IsChecked w r = Counted b clients dbs (clients w) (dbs w) r.1 × (r.0 ≡ none → IsUp w)

    -- A way out that returns an error and leaves the counts.
    failed-IsChecked :
        (e : GoError) (w v : W)
        → Counted b clients dbs (clients w) (dbs w) v
        → readiness_check h b select_one w ≡ (some e, v)
        → IsChecked w (readiness_check h b select_one w)
    failed-IsChecked e w v kept same =
        subst (IsChecked w) (sym same) (kept, λ done. absurd (ground (arith, done)))

    -- Whatever comes of it, `readinessCheck` leaves as many clients and databases open as there were; it
    -- returns nil only if Redis answered the ping and the database the statement.
    pub readiness_check_outcome :
        (w : W)
        → let r = readiness_check h b select_one w in
          Counted b clients dbs (clients w) (dbs w) r.1 × (r.0 ≡ none → IsUp w)
    unfolding readiness_check
    readiness_check_outcome w = elim (Option-cases (get_redis_url h).1) [
      | inr (e, bad) ↦ failed-IsChecked e w w (refl, refl) (rw (readiness_check, bad) refl)
      | inl ok ↦ elim (Bool-cases (str_eq (h.getenv "DATABASE_URL") "")) [
        | inl blank ↦
            failed-IsChecked (message "DATABASE_URL is required") w w (refl, refl)
              (rw (readiness_check, ok, blank) refl)
        | inr named ↦ elim (Either-cases (b.parse_url (get_redis_url h).0)) [
          | inl (e, bad) ↦
              failed-IsChecked e w w (refl, refl) (rw (readiness_check, ok, named, bad) refl)
          | inr (opts, parsed) ↦
              let w₁ = (b.ping none (b.new_client opts w)).1 in
              let w₂ = b.close_client w₁ in
              let (c₁, d₁) = counts.client_opened opts w in
              let (c₂, d₂) = counts.pinged none (b.new_client opts w) in
              let (c₃, d₃) = counts.client_closed w₁ in
              let kept : Counted b clients dbs (clients w) (dbs w) w₂ =
                (omega (arith, c₁, c₂, c₃), d₃ ∙ d₂ ∙ d₁) in
              elim (Option-cases (b.ping none (b.new_client opts w)).0) [
                | inr (e, bad) ↦
                    failed-IsChecked e w w₂ kept (rw (readiness_check, ok, named, parsed, bad) refl)
                | inl up ↦
                    let url = h.getenv "DATABASE_URL" in
                    let ((c, d), only) = check_database_lem url w₂ in
                    let same : readiness_check h b select_one w
                        ≡ check_database h b select_one url w₂ =
                      rw (readiness_check, ok, named, parsed, up) refl in
                    subst (IsChecked w) (sym same) (
                      (c ∙ kept.0, d ∙ kept.1),
                      λ done.
                          let (opened, answered) = only done in
                          record {
                            opts = opts;
                            parsed = parsed;
                            pinged = up;
                            opened = opened;
                            answered = answered;
                          },
                    )
              ]
        ]
      ]
    ]

-- ===== src/Server/Ready.antt =====
-- cmd/server/main.go, `readinessCheck` and the handler of "/readyz".
pub mod Laws
use orders_go.Common.{String, ℕ, Option, none, some, inl, inr, str_eq, if◌then◌else◌}
use orders_go.Go.Errors.{GoError, message}
use orders_go.Go.Effects.{M, Action}
use orders_go.Server.Config.{Host, get_redis_url}
use orders_go.Server.LocationStore.{Backends}

-- `select_one` is the statement "SELECT 1".
module _ {Pool Certificate Rest W : Type 0} (h : Host Pool Certificate)
    (b : Backends Pool Certificate Rest W) (select_one : Action W) where
  -- From `sql.Open` on; the database is closed by the deferred function.
  unfoldable pub check_database : String → Action W
  check_database url w =
      let (err, w₁) = b.open_db url w in
      elim err [
        | some e ↦ (some e, w₁)
        | none ↦ let (err, w₂) = select_one w₁ in (err, b.close_db w₂)
      ]

  unfoldable pub readiness_check : Action W
  readiness_check w =
      let (redis_url, err) = get_redis_url h in
      elim err [
        | some e ↦ (some e, w)
        | none ↦
            let db_url = h.getenv "DATABASE_URL" in
            if str_eq db_url ""
            then (some (message "DATABASE_URL is required"), w)
            else elim (b.parse_url redis_url) [
              | inl e ↦ (some e, w)
              | inr opts ↦
                  let (err, w₁) = b.ping none (b.new_client opts w) in
                  let w₂ = b.close_client w₁ in
                  elim err [ some e ↦ (some e, w₂) | none ↦ check_database db_url w₂ ]
            ]
      ]

  -- The status of the answer, with the error that its body shows.
  unfoldable pub readyz : M W (ℕ × Option GoError)
  readyz w =
      let (err, w') = readiness_check w in
      (elim err [ some e ↦ (503, some e) | none ↦ (200, none) ], w')

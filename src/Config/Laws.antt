-- ===== src/Config/Laws.antt =====
-- What `Load` returns.
use modern_mcs.Prelude.{
  ℕ, ◌+◌, ◌*◌, ◌≤◌, ◌<◌, ◌^◌, String, ◌≡◌, refl, ap, ◌∙◌, ◌≢◌, ◌↔◌, false, arith, ℤ, pos, pos_part,
  ok, err, ltb, ◌==◌, if◌then◌else◌, ne→not-eq,
}
use modern_mcs.Config.Number.{seconds}
use modern_mcs.Config.Defs.{Environment, get_env, get_env_int, read_config, check_config, load}

-- A variable with a fallback is never read as empty.
get_env-ne-empty :
    (env : Environment) (key fallback : String)
    → fallback ≢ ""
    → (get_env env key fallback == "") ≡ false
unfolding get_env
get_env-ne-empty env key fallback h = ground (arith, ne→not-eq fallback "" h)

-- The session's time to live that the environment asks for.
abbrev pub requested_ttl : Environment → ℤ
requested_ttl env = seconds (get_env_int env "AUTH_SESSION_TTL_SEC" (pos 3600))

named :
    (env : Environment) (key : String) (fallback : String)
    → (fallback == "") ≡ false
    → (get_env env key fallback == "") ≡ false
unfolding get_env
named env key fallback h = ground arith

-- `load` fails exactly where the time to live, after the multiplication, is not positive, and then
-- with the message about it; otherwise it returns what was read. The other checks never fail.
load_lem :
    (env : Environment)
    → load env ≡ (
        if ltb 0 (pos_part (requested_ttl env))
        then ok (read_config env)
        else err "AUTH_SESSION_TTL_SEC must be > 0")
unfolding load check_config read_config
load_lem env = ground (
  arith,
  named env "HTTP_ADDR" ":8080" refl,
  named env "AUTH_BOOTSTRAP_USERNAME" "admin" refl,
  named env "AUTH_BOOTSTRAP_PASSWORD" "admin123" refl,
  named env "AUTH_PASSWORD_PEPPER" "change-me-in-production" refl,
  named env "AUTH_SESSION_STATE_FILE" "./data/auth_sessions.json" refl,
  named env "AUTH_USER_STATE_FILE" "./data/auth_users.json" refl,
  named env "FRONTEND_DIST_DIR" "./web/dist" refl,
  named env "SQL_PROFILE_STATE_FILE" "./data/sql_profiles.json" refl,
  named env "MIGRATIONS_DIR" "./migrations" refl,
  named env "MIGRATION_STATE_FILE" "./data/migration_state.json" refl,
  named env "AUDIT_LOG_FILE" "./data/audit.log" refl,
)

-- The product with `time.Second` is the mathematical one exactly up to 9223372036 seconds.
pub seconds_exact : (n : ℕ) → (seconds (pos n) ≡ pos (n * 1_000_000_000)) ↔ (n ≤ 9223372036)
unfolding seconds
seconds_exact n = (λ h. ground arith, λ h. ground arith)

wrapped : (k t n : ℕ) → n * 1_000_000_000 ≡ k + t * 2 ^ 64 → k < 2 ^ 63 → seconds (pos n) ≡ pos k
unfolding seconds
wrapped k t n turned small = ground arith

-- A number of seconds whose product wraps around to a positive number is accepted, and the time to
-- live is what is left: `k` nanoseconds where the product is `k` after `t` turns.
pub load_wrapped :
    (env : Environment) (k t n : ℕ)
    → get_env_int env "AUTH_SESSION_TTL_SEC" (pos 3600) ≡ pos n
    → n * 1_000_000_000 ≡ k + t * 2 ^ 64
    → 0 < k
    → k < 2 ^ 63
    → (load env ≡ ok (read_config env)) × ((read_config env).auth.session_ttl ≡ pos k)
unfolding read_config
load_wrapped env k t n asked turned positive small =
    let ttl : requested_ttl env ≡ pos k = ap seconds asked ∙ wrapped k t n turned small in
    (load_lem env ∙ rw ttl (ground arith), ttl)

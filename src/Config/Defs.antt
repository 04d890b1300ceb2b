-- ===== src/Config/Defs.antt =====
-- The records and `Load`. An environment gives the value of a variable that is set.
use modern_mcs.Prelude.{
  String, not, Option, none, some, ℤ, pos, pos_part, Result, ok, err, ltb, ◌==◌, if◌then◌else◌,
}
use modern_mcs.Config.Number.{atoi, seconds}

abbrev pub Environment : Type 0
Environment = String → Option String

pub record HttpConfig : Type 0 where
  pub addr : String
  pub read_timeout : ℤ
  pub write_timeout : ℤ
  pub shutdown_timeout : ℤ

pub record AuthConfig : Type 0 where
  pub bootstrap_username : String
  pub bootstrap_password : String
  pub password_pepper : String
  pub session_ttl : ℤ
  pub session_state_file : String
  pub user_state_file : String

pub record Config : Type 0 where
  pub http : HttpConfig
  pub database_url : String
  pub auth : AuthConfig
  pub frontend_dist_dir : String
  pub sql_profile_state_file : String
  pub migrations_dir : String
  pub migration_state_file : String
  pub audit_log_file : String

-- A value that is set and not empty, or the fallback.
abbrev or_fallback : Option String → String → String
or_fallback none fallback = fallback
or_fallback (some val) fallback = if val == "" then fallback else val

unfoldable pub get_env : Environment → String → String → String
get_env env key fallback = or_fallback (env key) fallback

abbrev or_number : Option ℤ → ℤ → ℤ
or_number none fallback = fallback
or_number (some n) fallback = n

abbrev int_or_fallback : Option String → ℤ → ℤ
int_or_fallback none fallback = fallback
int_or_fallback (some val) fallback = if val == "" then fallback else or_number (atoi val) fallback

unfoldable pub get_env_int : Environment → String → ℤ → ℤ
get_env_int env key fallback = int_or_fallback (env key) fallback

-- The composite literal at the start of `Load`.
unfoldable pub read_config : Environment → Config
read_config env = record {
  http = record {
    addr = get_env env "HTTP_ADDR" ":8080";
    read_timeout = seconds (get_env_int env "HTTP_READ_TIMEOUT_SEC" (pos 10));
    write_timeout = seconds (get_env_int env "HTTP_WRITE_TIMEOUT_SEC" (pos 15));
    shutdown_timeout = seconds (get_env_int env "HTTP_SHUTDOWN_TIMEOUT_SEC" (pos 20));
  };
  database_url = get_env env "DATABASE_URL" "";
  auth = record {
    bootstrap_username = get_env env "AUTH_BOOTSTRAP_USERNAME" "admin";
    bootstrap_password = get_env env "AUTH_BOOTSTRAP_PASSWORD" "admin123";
    password_pepper = get_env env "AUTH_PASSWORD_PEPPER" "change-me-in-production";
    session_ttl = seconds (get_env_int env "AUTH_SESSION_TTL_SEC" (pos 3600));
    session_state_file = get_env env "AUTH_SESSION_STATE_FILE" "./data/auth_sessions.json";
    user_state_file = get_env env "AUTH_USER_STATE_FILE" "./data/auth_users.json";
  };
  frontend_dist_dir = get_env env "FRONTEND_DIST_DIR" "./web/dist";
  sql_profile_state_file = get_env env "SQL_PROFILE_STATE_FILE" "./data/sql_profiles.json";
  migrations_dir = get_env env "MIGRATIONS_DIR" "./migrations";
  migration_state_file = get_env env "MIGRATION_STATE_FILE" "./data/migration_state.json";
  audit_log_file = get_env env "AUDIT_LOG_FILE" "./data/audit.log";
}

-- The checks of `Load`, in their order.
unfoldable pub check_config : Config → Result String Config
check_config cfg =
    if cfg.http.addr == ""
    then err "HTTP_ADDR must not be empty"
    else if cfg.auth.bootstrap_username == ""
    then err "AUTH_BOOTSTRAP_USERNAME must not be empty"
    else if cfg.auth.bootstrap_password == ""
    then err "AUTH_BOOTSTRAP_PASSWORD must not be empty"
    else if cfg.auth.password_pepper == ""
    then err "AUTH_PASSWORD_PEPPER must not be empty"
    else if not (ltb 0 (pos_part cfg.auth.session_ttl))
    then err "AUTH_SESSION_TTL_SEC must be > 0"
    else if cfg.auth.session_state_file == ""
    then err "AUTH_SESSION_STATE_FILE must not be empty"
    else if cfg.auth.user_state_file == ""
    then err "AUTH_USER_STATE_FILE must not be empty"
    else if cfg.frontend_dist_dir == ""
    then err "FRONTEND_DIST_DIR must not be empty"
    else if cfg.sql_profile_state_file == ""
    then err "SQL_PROFILE_STATE_FILE must not be empty"
    else if cfg.migrations_dir == ""
    then err "MIGRATIONS_DIR must not be empty"
    else if cfg.migration_state_file == ""
    then err "MIGRATION_STATE_FILE must not be empty"
    else if cfg.audit_log_file == ""
    then err "AUDIT_LOG_FILE must not be empty"
    else ok cfg

unfoldable pub load : Environment → Result String Config
load env = check_config (read_config env)

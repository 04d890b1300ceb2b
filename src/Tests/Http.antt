-- ===== src/Tests/Http.antt =====
-- Requests to the services of the tests, and instances of the theorems on the HTTP server.
use Prim.Native.String
use modern_mcs.Prelude.{
  leb, if◌then◌else◌, ℕ, List, length, ◌+◌, ◌≤◌, ◌<◌, code, Char, String, ◌≡◌, ◌≢◌, ◌⊎◌, inl, inr,
  ◌↔◌, refl, ap, subst, [], ◌∷◌, All, Option, none, some, true, false, not-eq→ne, pos, arith,
}
use modern_mcs.Text.Hex.{encode_to_string, nth_char}
use modern_mcs.Text.{
  cut, equal_fold, lower_char, translate, trim_left, trim_right, push_trimmed, is_space, has_prefix,
  trim_space, to_lower, contains_char,
}
use modern_mcs.Dict.{Dict, lookup, insert}
use modern_mcs.Auth.Types.{Session}
use modern_mcs.Auth.Users.Memory.{InMemoryUserStore}
use modern_mcs.Auth.State as auth
use modern_mcs.Auth.State.{is_expired}
use modern_mcs.Auth.Service.{validate_token, new_session}
use modern_mcs.SqlProfile.Types.{Profile}
use modern_mcs.SqlProfile.Service as sqlprofile
use modern_mcs.SqlProfile.Service.{
  create, validate, generate_id, new_profile as sqlprofile_new_profile, commit, persist_locked,
  clone_profiles,
}
use modern_mcs.Migrations.Types.{Directory, Stat}
use modern_mcs.Migrations.Store.{FileAppliedStore, file_applied_store}
use modern_mcs.Http.Types.{
  MigrationService, Credentials, PasswordChange, Deps, World, Request, Environment, me,
}
use modern_mcs.Http.Guard.{require_session, check_role, extract_bearer_token, has_role, write_error}
use modern_mcs.Http.Header.{extract_bearer_token_iff}
use modern_mcs.Http.Sessions.{login_body, user_payload}
use modern_mcs.Http.Admin.{as_admin, profiles_as, answer_create}
use modern_mcs.Http.Routes.{route_of, handle, serve}
use modern_mcs.Http.Access.{is_admin_route, Admits, IsDenied, serve-admin}
use modern_mcs.Http.Protect.{Keeps, serve-session}
use modern_mcs.Http.Audit.{reads_profiles, IsSuccess, IsLogged, serve-IsAudited}
use modern_mcs.Http.Lifetime.{bearer, IsRandom, serve-login-me, serve-logout-me}
use modern_mcs.Http.Wiring.{app_deps, migration_service}
use modern_mcs.Http.Middleware.{Incoming, new}
use modern_mcs.Http.RequestId.{IsTraced, handler-IsTraced}
use modern_mcs.Config.Defs.{HttpConfig}
use modern_mcs.Tests.Fixtures.{
  Bytes, platform, profiles_codec, applied_codec, steady, repeat, repeat-All, empty_disk,
}
use modern_mcs.Tests.Auth.{secret, start, token, session, start-login, entered}
use modern_mcs.Tests.Sessions.{steady-IsFilled}

-- A body is what it decodes to.
data Body : Type 0 where
  credentials : Credentials → Body
  change : PasswordChange → Body
  profile : Profile → Body
  nothing : Body

abbrev as_credentials : Body → Option Credentials
as_credentials (credentials c) = some c
as_credentials _ = none

abbrev as_change : Body → Option PasswordChange
as_change (change c) = some c
as_change _ = none

abbrev as_profile : Body → Option Profile
as_profile (profile p) = some p
as_profile _ = none

abbrev environment : Environment Body
environment = record {
  decode_credentials = as_credentials;
  decode_password_change = as_change;
  decode_profile = as_profile;
  format = λ t. "2026-02-16T12:30:00Z";
  split_host_port = λ addr. some "127.0.0.1";
  auth_error = λ e. "auth";
  migration_error = λ e. "migration";
  fallback = λ r. write_error 404 "404 page not found";
}

abbrev directory : Directory
directory = record {
  entries = some (record { name = "0001_init.sql"; is_dir = false } ∷ []);
  content = λ name. some (1 ∷ 2 ∷ []);
  stat = λ name. Stat.exists;
}

abbrev Services : Type 0
Services =
    World (auth.Service InMemoryUserStore (Dict Session) Bytes) (sqlprofile.Service Bytes)
      (FileAppliedStore Bytes)

abbrev deps :
    Deps
      (auth.Service InMemoryUserStore (Dict Session) Bytes)
      (sqlprofile.Service Bytes)
      (FileAppliedStore Bytes)
deps =
    app_deps platform profiles_codec (λ b. b) directory
      (file_applied_store applied_codec (λ t. "2026"))

abbrev services : auth.Service InMemoryUserStore (Dict Session) Bytes → Services
services a = record {
  auth = a;
  profiles = record { state_file = ""; profiles = []; disk = empty_disk };
  migrations = record { state_file = "state.json"; disk = empty_disk };
  audited = [];
}

abbrev request : String → String → String → Body → Request Body
request method path authorization body = record {
  method = method;
  path = path;
  authorization = authorization;
  forwarded_for = "";
  real_ip = "";
  user_agent = "test";
  remote_addr = "127.0.0.1:5000";
  request_id = "r1";
  body = body;
  validated_at = 200;
  acts_at = 100;
  randomness = steady 171;
  id_bytes = some (repeat 12 9);
}

abbrev login_request : Request Body
login_request =
    request "POST" "/v1/auth/login" ""
      (credentials (record { username = "admin"; password = secret }))

abbrev me_request : Request Body
me_request = request "GET" "/v1/auth/me" (bearer session.token) nothing

steady-IsRandom : IsRandom (steady 171)
steady-IsRandom = (
  steady-IsFilled,
  λ b read.
      subst (λ l. All (λ x. x < 256) l) (ap (λ o. elim o [ some x ↦ x | none ↦ b ]) read)
        (repeat-All 32 171 (omega arith)),
)

serve-login-me_example :
    ((serve environment deps login_request (services start)).0
      ≡ record { status = 200; body = login_body environment session })
    × ((serve environment deps me_request
          (serve environment deps login_request (services start)).1).0
        ≡ (if leb 200 (100 + 1000)
            then record { status = 200; body = me (user_payload environment session) }
            else write_error 401 "invalid token"))
serve-login-me_example =
    serve-login-me platform environment deps refl login_request (services start)
      (record { username = "admin"; password = secret }) refl refl refl (not-eq→ne "admin" "" refl)
      (not-eq→ne secret "" refl) steady-IsRandom session start-login me_request refl refl refl

abbrev logout_request : Request Body
logout_request = request "POST" "/v1/auth/logout" (bearer token) nothing

logout-token : extract_bearer_token (bearer token) ≡ some token
unfolding extract_bearer_token cut equal_fold to_lower lower_char translate trim_space trim_left
    trim_right push_trimmed is_space repeat encode_to_string nth_char
logout-token = refl

abbrev late_request : Request Body
late_request = request "GET" "/v1/auth/me" (bearer token) nothing

serve-logout-me_example :
    (serve environment deps late_request
      (serve environment deps logout_request (services entered)).1).0
    ≡ write_error 401 "invalid token"
serve-logout-me_example =
    serve-logout-me platform environment deps refl logout_request (services entered) token refl refl
      logout-token late_request refl refl logout-token

abbrev new_profile : Profile
new_profile = record {
  id = "";
  name = "main";
  db_type = "MySQL";
  host = "db";
  port = pos 3306;
  username = "u";
  database = "d";
  commands = "SELECT 1";
  use_ssl = true;
  created_at = 0;
  modified_at = 0;
}

abbrev create_request : Request Body
create_request = request "POST" "/v1/sql-profiles" (bearer token) (profile new_profile)

abbrev stranger_request : Request Body
stranger_request = request "POST" "/v1/sql-profiles" "Basic x" (profile new_profile)

serve-session_example :
    Keeps environment deps create_request
      (services entered)
      (serve environment deps create_request (services entered)).1
    ⊎ ((token' : String) × (sess : Session) × (extract_bearer_token create_request.authorization
          ≡ some token')
        × (lookup token' entered.sessions ≡ some sess)
        × (200 ≤ sess.expires_at)
        × (has_role sess.roles "admin" ≡ true))
serve-session_example =
    serve-session platform environment deps refl create_request (services entered)

at_profiles : is_admin_route (route_of "/v1/sql-profiles") ≡ true
unfolding route_of has_prefix
at_profiles = refl

serve-admin_example :
    IsDenied environment deps stranger_request
      (services entered)
      (serve environment deps stranger_request (services entered))
    ⊎ ((sess : Session) × Admits environment deps stranger_request "admin" (services entered) sess)
serve-admin_example = serve-admin environment deps stranger_request (services entered) at_profiles

writes : reads_profiles (route_of "/v1/sql-profiles") "POST" ≡ false
unfolding route_of has_prefix
writes = refl

created : IsSuccess (serve environment deps create_request (services entered)).0.status
unfolding serve handle route_of has_prefix as_admin require_session extract_bearer_token cut
    equal_fold to_lower lower_char translate trim_space trim_left trim_right push_trimmed is_space
    repeat encode_to_string nth_char validate_token lookup is_expired new_session check_role
    has_role profiles_as answer_create create validate generate_id sqlprofile_new_profile commit
    persist_locked clone_profiles insert
created = inr (inl refl)

serve-IsAudited_example :
    (sess : Session) × Admits environment deps create_request "admin" (services entered) sess
    × IsLogged sess.username [] (serve environment deps create_request (services entered)).1.audited
serve-IsAudited_example =
    serve-IsAudited environment deps refl create_request (services entered) at_profiles writes
      created

abbrev plain : String
plain = "t0ken"

extract_bearer_token_iff_example : (extract_bearer_token "bearer  t0ken " ≡ some plain) ↔ (
    (scheme : String) × (c : Char) × (rest : String) × (code c ≡ b' ')
    × ("bearer  t0ken " ≡ String.◌++◌ scheme (String.◌∷◌ c rest))
    × (contains_char scheme b' ' ≡ false)
    × (to_lower scheme ≡ to_lower "Bearer")
    × (trim_space rest ≡ plain)
    × (plain ≢ ""))
extract_bearer_token_iff_example = extract_bearer_token_iff "bearer  t0ken " plain

abbrev apply_request : Request Body
apply_request = request "POST" "/v1/system/migrations/0001_init.sql/apply" (bearer token) nothing

abbrev migrations : MigrationService (FileAppliedStore Bytes)
migrations = migration_service (λ b. b) directory (file_applied_store applied_codec (λ t. "2026"))

-- The login as it comes in, without an id.
abbrev incoming : Incoming Body
incoming = record {
  request = login_request;
  id_header = " ";
  id_bytes = some (repeat 8 7);
  unix_nano = 5;
}

incoming-filled : (bytes : List ℕ) → incoming.id_bytes ≡ some bytes → 0 < length bytes
unfolding repeat
incoming-filled bytes h =
    subst (λ (o : Option (List ℕ)). 0 < length (elim o [ some b ↦ b | none ↦ bytes ])) h
      (omega arith)

abbrev http_config : HttpConfig
http_config = record {
  addr = ":8080";
  read_timeout = pos 10;
  write_timeout = pos 15;
  shutdown_timeout = pos 20;
}

handler-IsTraced_example :
    IsTraced incoming
      (services start)
      ((new environment http_config deps).handler incoming (services start))
handler-IsTraced_example =
    handler-IsTraced environment http_config deps incoming (services start) incoming-filled

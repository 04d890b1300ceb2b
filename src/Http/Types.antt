-- ===== src/Http/Types.antt =====
-- The interfaces, requests and responses of internal/httpserver/server.go.
use modern_mcs.Prelude.{ℕ, String, Bool, List, Option, Result}
use modern_mcs.Auth.Types.{Session, SessionView}
use modern_mcs.Auth.Types as auth
use modern_mcs.Auth.State.{Randomness}
use modern_mcs.SqlProfile.Types.{Profile}
use modern_mcs.SqlProfile.Types as sqlprofile
use modern_mcs.Migrations.Types.{FileInfo, Status}
use modern_mcs.Migrations.Types as migrations

-- `AuthService`, over the state of an implementation. A method that reads the clock or the random
-- source takes what it reads as an argument.
pub record AuthService (A : Type 0) : Type 0 where
  pub login : ℕ → Randomness → String → String → A → auth.Outcome A Session
  pub validate_token : ℕ → String → A → auth.Outcome A Session
  pub logout : String → A → auth.Outcome A (Unit {0})
  pub change_password : ℕ → String → String → String → A → auth.Outcome A (Unit {0})
  pub list_session_views : ℕ → A → List SessionView × A
  pub revoke_session_by_id : String → A → auth.Outcome A (Unit {0})

-- `SQLProfileService`
pub record SqlProfileService (P : Type 0) : Type 0 where
  pub create : ℕ → Option (List ℕ) → Profile → P → sqlprofile.Outcome P Profile
  pub list : P → List Profile
  pub get : String → P → Result sqlprofile.Error Profile
  pub update : ℕ → String → Profile → P → sqlprofile.Outcome P Profile
  pub delete : String → P → sqlprofile.Outcome P (Unit {0})

-- `MigrationService`
pub record MigrationService (M : Type 0) : Type 0 where
  pub list : M → Result migrations.Error (List FileInfo)
  pub status : M → Result migrations.Error (List Status)
  pub mark_applied : String → ℕ → M → migrations.Outcome M (Unit {0})

-- `Deps`; `none` is a nil interface.
pub record Deps (A P M : Type 0) : Type 0 where
  pub auth : Option (AuthService A)
  pub sql_profiles : Option (SqlProfileService P)
  pub migrations : Option (MigrationService M)
  pub has_audit : Bool

-- The arguments of a call of `AuditLogger.Log`.
pub record Event : Type 0 where
  pub actor : String
  pub action : String
  pub target : String
  pub outcome : String
  pub detail : String

-- The states of the services, and the calls of the audit logger, the latest one first.
pub record World (A P M : Type 0) : Type 0 where
  pub auth : A
  pub profiles : P
  pub migrations : M
  pub audited : List Event

-- What the handlers read of a request, and what its calls of the services read of the clock and of
-- the random source: `validated_at` at the check of the token, `acts_at` behind it.
pub record Request (B : Type 0) : Type 0 where
  pub method : String
  pub path : String
  pub authorization : String
  pub forwarded_for : String
  pub real_ip : String
  pub user_agent : String
  pub remote_addr : String
  pub request_id : String
  pub body : B
  pub validated_at : ℕ
  pub acts_at : ℕ
  pub randomness : Randomness
  pub id_bytes : Option (List ℕ)

pub record Credentials : Type 0 where
  pub username : String
  pub password : String

pub record PasswordChange : Type 0 where
  pub current_password : String
  pub new_password : String

pub record UserPayload : Type 0 where
  pub id : String
  pub username : String
  pub roles : List String
  pub expires_at : String

-- The bodies that the handlers write.
pub data Payload : Type 0 where
  error_body : String → Payload
  fields : List (String × String) → Payload
  logged_in : String → String → UserPayload → Payload
  me : UserPayload → Payload
  session_items : List SessionView → Payload
  profile_items : List Profile → Payload
  profile_body : Profile → Payload
  file_items : List FileInfo → Payload
  status_items : List Status → Payload
  no_body : Payload

pub record Response : Type 0 where
  pub status : ℕ
  pub body : Payload

-- What the handlers use of the packages around them: the decoding of a body, RFC 3339,
-- `net.SplitHostPort`, the texts of errors, and the answer on a path with no API handler.
pub record Environment (B : Type 0) : Type 0 where
  pub decode_credentials : B → Option Credentials
  pub decode_password_change : B → Option PasswordChange
  pub decode_profile : B → Option Profile
  pub format : ℕ → String
  pub split_host_port : String → Option String
  pub auth_error : auth.Error → String
  pub migration_error : migrations.Error → String
  pub fallback : Request B → Response

-- ===== src/Auth/Types.antt =====
-- internal/auth/types.go, and the errors and interfaces of store.go, session_store_postgres.go
-- and service.go.
use modern_mcs.Prelude.{ℕ, String, Bool, true, false, List, Result}
use modern_mcs.Dict.{Dict}

pub record User : Type 0 where
  pub id : String
  pub username : String
  pub password_hash : String
  pub roles : List String

-- Instants and durations are counted in nanoseconds.
pub record Session : Type 0 where
  pub id : String
  pub token : String
  pub user_id : String
  pub username : String
  pub roles : List String
  pub created_at : ℕ
  pub expires_at : ℕ

-- `auth.Session{}`, which comes with an error
abbrev pub no_session : Session
no_session = record {
  id = "";
  token = "";
  user_id = "";
  username = "";
  roles = List.[];
  created_at = 0;
  expires_at = 0;
}

pub record SessionView : Type 0 where
  pub id : String
  pub user_id : String
  pub username : String
  pub roles : List String
  pub created_at : ℕ
  pub expires_at : ℕ

pub data Error : Type 0 where
  user_not_found invalid_credentials invalid_token weak_password : Error
  -- `errors.New` and `fmt.Errorf` with no error inside, or one of another package
  message : String → Error
  -- `fmt.Errorf("…: %w", err)`
  wrap : String → Error → Error

-- `errors.Is(err, ErrUserNotFound)`
unfoldable pub is_user_not_found : Error → Bool
is_user_not_found user_not_found = true
is_user_not_found (wrap text e) = is_user_not_found e
is_user_not_found _ = false

-- `errors.Is(err, ErrInvalidCredentials)`
unfoldable pub is_invalid_credentials : Error → Bool
is_invalid_credentials invalid_credentials = true
is_invalid_credentials (wrap text e) = is_invalid_credentials e
is_invalid_credentials _ = false

-- `errors.Is(err, ErrInvalidToken)`
unfoldable pub is_invalid_token : Error → Bool
is_invalid_token invalid_token = true
is_invalid_token (wrap text e) = is_invalid_token e
is_invalid_token _ = false

-- `errors.Is(err, ErrWeakPassword)`
unfoldable pub is_weak_password : Error → Bool
is_weak_password weak_password = true
is_weak_password (wrap text e) = is_weak_password e
is_weak_password _ = false

-- An operation returns its result, and the new state beside it also where it fails.
abbrev pub Outcome : Type 0 → Type 0 → Type 0
Outcome S A = Result Error A × S

-- `UserStore`, over the state of an implementation
pub record UserStore (U : Type 0) : Type 0 where
  pub get_by_username : U → String → Result Error User
  pub put : U → User → Outcome U (Unit {0})

-- `SessionStore`
pub record SessionStore (T : Type 0) : Type 0 where
  pub load : T → Result Error (Dict Session)
  pub save : T → Dict Session → Outcome T (Unit {0})

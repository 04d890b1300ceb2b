-- ===== src/SqlProfile/Types.antt =====
-- internal/sqlprofile/types.go, and the errors of service.go.
use modern_mcs.Prelude.{ℕ, ℤ, String, Bool, Result}

-- Instants are counted in nanoseconds; a port is a signed number, as it comes from a client.
pub record Profile : Type 0 where
  pub id : String
  pub name : String
  pub db_type : String
  pub host : String
  pub port : ℤ
  pub username : String
  pub database : String
  pub commands : String
  pub use_ssl : Bool
  pub created_at : ℕ
  pub modified_at : ℕ

-- `Profile.Clone`; a struct is copied as a whole.
abbrev pub clone : Profile → Profile
clone p = p

pub data Error : Type 0 where
  not_found : Error
  -- `ErrInvalidInput` and the message behind it
  invalid_input : String → Error
  message : String → Error

abbrev pub Outcome : Type 0 → Type 0 → Type 0
Outcome S A = Result Error A × S

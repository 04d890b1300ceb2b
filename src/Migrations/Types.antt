-- ===== src/Migrations/Types.antt =====
-- The types of internal/migrations/service.go, and what the service reads of its directory.
use modern_mcs.Prelude.{ℕ, String, Bool, List, Option, Result}
use modern_mcs.Dict.{Dict}

pub record FileInfo : Type 0 where
  pub name : String
  pub checksum : String

pub record Status : Type 0 where
  pub name : String
  pub checksum : String
  pub applied : Bool
  pub applied_at : String

-- `appliedState`
abbrev pub AppliedState : Type 0
AppliedState = Dict String

-- An entry of `os.ReadDir`.
pub record DirEntry : Type 0 where
  pub name : String
  pub is_dir : Bool

-- What `os.Stat` answers.
pub data Stat : Type 0 where
  exists not_exist failed : Stat

-- The migrations directory: `none` where `os.ReadDir` fails, and where a file cannot be opened or
-- read; `content` is a file's bytes.
pub record Directory : Type 0 where
  pub entries : Option (List DirEntry)
  pub content : String → Option (List ℕ)
  pub stat : String → Stat

pub data Error : Type 0 where
  invalid_name does_not_exist : Error
  message : String → Error

abbrev pub Outcome : Type 0 → Type 0 → Type 0
Outcome S A = Result Error A × S

-- `appliedStore`, over the state of an implementation
pub record AppliedStore (S : Type 0) : Type 0 where
  pub load : S → Result Error AppliedState
  pub set_applied : S → String → ℕ → Outcome S (Unit {0})

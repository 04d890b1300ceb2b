-- ===== src/Disk.antt =====
-- What the services use of package `os`: one file each, which they read whole and write whole.
-- A disk says what every file holds and which operations on it fail; directories are not modelled
-- beyond the failure of `MkdirAll`.
use modern_mcs.Prelude.{
  ◌≡◌, refl, ◌⊎◌, inl, inr, String, Bool, Option, none, some, ◌==◌, if◌then◌else◌,
}

-- What `os.ReadFile` finds: no file, a file that cannot be read, or its bytes.
pub data Content (B : Type 0) : Type 0 where
  missing unreadable : Content B
  bytes : B → Content B

pub record Disk (B : Type 0) : Type 0 where
  pub file : String → Content B
  -- `os.MkdirAll(filepath.Dir(path))` fails
  pub mkdir_fails : String → Bool
  -- `os.WriteFile` fails and leaves this in place of the file
  pub write_fault : String → Option (Content B)

pub Content-cases :
    {B : Type 0} (c : Content B) → (c ≡ missing) ⊎ (c ≡ unreadable) ⊎ ((b : B) × (c ≡ bytes b))
Content-cases missing = inl refl
Content-cases unreadable = inr (inl refl)
Content-cases (bytes b) = inr (inr (b, refl))

module _ {B : Type 0} where
  abbrev pub put_file : String → Content B → Disk B → Disk B
  put_file path content d = record d {
    file = λ other. if other == path then content else d.file other;
  }

  -- `os.WriteFile`
  unfoldable pub write_file : String → B → Disk B → Bool × Disk B
  write_file path b d = elim (d.write_fault path) [
    | none ↦ (Bool.true, put_file path (bytes b) d)
    | some left ↦ (Bool.false, put_file path left d)
  ]

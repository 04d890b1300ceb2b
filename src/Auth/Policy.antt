-- ===== src/Auth/Policy.antt =====
-- The password policy, `validatePasswordPolicy` of internal/auth/service.go.
pub mod Laws
use Prim.Native.String
use Prim.Native.String.{[], ◌∷◌}
use modern_mcs.Prelude.{
  ℕ, String, code, Bool, true, false, not, ◌&&◌, ◌||◌, ◌≡◌, ltb, Result, ok, err, ◌==◌,
  if◌then◌else◌,
}
use modern_mcs.Text.{trim_space}
use modern_mcs.Auth.Types.{Error, weak_password}

-- The Unicode tables behind `unicode.IsUpper`, `IsLower`, `IsDigit`, `IsPunct` and `IsSymbol`, by
-- the number of the rune. A rune has one general category, so it is in one of the classes at most.
pub record RuneTables : Type 0 where
  pub is_upper : ℕ → Bool
  pub is_lower : ℕ → Bool
  pub is_digit : ℕ → Bool
  pub is_punct : ℕ → Bool
  pub is_symbol : ℕ → Bool
  pub upper_only :
      (r : ℕ) → is_upper r ≡ true → (is_lower r || is_digit r || is_punct r || is_symbol r) ≡ false
  pub lower_only : (r : ℕ) → is_lower r ≡ true → (is_digit r || is_punct r || is_symbol r) ≡ false
  pub digit_only : (r : ℕ) → is_digit r ≡ true → (is_punct r || is_symbol r) ≡ false

abbrev pub min_password_length : ℕ
min_password_length = 12

abbrev pub max_password_length : ℕ
max_password_length = 128

-- The four variables of the loop.
pub record Seen : Type 0 where
  pub has_upper : Bool
  pub has_lower : Bool
  pub has_digit : Bool
  pub has_special : Bool

abbrev pub seen_nothing : Seen
seen_nothing = record {
  has_upper = false;
  has_lower = false;
  has_digit = false;
  has_special = false;
}

module _ (tables : RuneTables) where
  open tables use {is_upper, is_lower, is_digit, is_punct, is_symbol}

  -- The `switch` on one rune.
  unfoldable pub see : Seen → ℕ → Seen
  see seen r =
      if is_upper r
      then record seen { has_upper = true }
      else if is_lower r
      then record seen { has_lower = true }
      else if is_digit r
      then record seen { has_digit = true }
      else if is_punct r || is_symbol r
      then record seen { has_special = true }
      else seen

  -- The loop over the runes.
  unfoldable pub see_all : Seen → String → Seen
  unfolding see
  see_all seen [] = seen
  see_all seen (c ∷ s) = see_all (see seen (code c)) s

  unfoldable pub validate_password_policy : String → Result Error (Unit {0})
  unfolding see_all
  validate_password_policy password =
      if not (trim_space password == password)
      then err weak_password
      else if ltb (String.len password) min_password_length
          || ltb max_password_length (String.len password)
      then err weak_password
      else (let seen = see_all seen_nothing password in
          if not seen.has_upper || not seen.has_lower || not seen.has_digit || not seen.has_special
          then err weak_password
          else ok tt)

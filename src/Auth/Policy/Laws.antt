-- ===== src/Auth/Policy/Laws.antt =====
-- What the password policy accepts.
use Prim.Native.String
use Prim.Native.String.{[], ◌∷◌}
use modern_mcs.Prelude.{
  ℕ, ◌≤◌, String, code, Bool, true, false, ◌||◌, ◌≡◌, ◌↔◌, arith, ok, err, eq_iff,
}
use modern_mcs.Text.{trim_space}
use modern_mcs.Auth.Types.{Error, weak_password}
use modern_mcs.Auth.Policy.{
  RuneTables, Seen, seen_nothing, see, see_all, validate_password_policy, min_password_length,
  max_password_length,
}

-- Some rune of the text is in the class.
pub any_rune : (ℕ → Bool) → String → Bool
any_rune p [] = false
any_rune p (c ∷ s) = p (code c) || any_rune p s

module _ (tables : RuneTables) where
  open tables use {
    is_upper, is_lower, is_digit, is_punct, is_symbol, upper_only, lower_only, digit_only,
  }

  abbrev pub is_special : ℕ → Bool
  is_special r = is_punct r || is_symbol r

  -- The classes of the text, whatever was seen before it.
  see_all_lem :
      (seen : Seen) (s : String)
      → see_all tables seen s ≡ record {
        has_upper = seen.has_upper || any_rune is_upper s;
        has_lower = seen.has_lower || any_rune is_lower s;
        has_digit = seen.has_digit || any_rune is_digit s;
        has_special = seen.has_special || any_rune is_special s;
      }
  unfolding see_all any_rune
  see_all_lem seen [] = ground arith
  see_all_lem seen (c ∷ s) = ground (
    arith,
    see_all_lem (see tables seen (code c)) s,
    upper_only (code c),
    lower_only (code c),
    digit_only (code c),
  )

  -- The requirements on a password, as the documentation of the policy would list them.
  pub record IsStrong (password : String) : Type 0 where
    pub trimmed : trim_space password ≡ password
    pub long_enough : min_password_length ≤ String.len password
    pub short_enough : String.len password ≤ max_password_length
    pub upper : any_rune is_upper password ≡ true
    pub lower : any_rune is_lower password ≡ true
    pub digit : any_rune is_digit password ≡ true
    pub special : any_rune is_special password ≡ true

  -- The policy accepts exactly the strong passwords.
  pub validate_password_policy_iff :
      (password : String) → (validate_password_policy tables password ≡ ok tt) ↔ IsStrong password
  unfolding validate_password_policy
  validate_password_policy_iff password = (
    λ h. ground (arith, see_all_lem seen_nothing password, eq_iff (trim_space password) password),
    λ h. ground (arith, see_all_lem seen_nothing password, eq_iff (trim_space password) password),
  )

  -- It has no other error.
  pub validate_password_policy_error :
      (password : String) {e : Error}
      → validate_password_policy tables password ≡ err e
      → e ≡ weak_password
  unfolding validate_password_policy
  validate_password_policy_error password h = ground arith

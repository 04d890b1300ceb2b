-- ===== src/Config/Number.antt =====
-- `strconv.Atoi`, and the product of a number of seconds and `time.Second` in 64 bits.
use Prim.Native.String.{[], ◌∷◌}
use modern_mcs.Prelude.{
  ℕ, ◌+◌, ◌-◌, ◌*◌, ◌%◌, ◌^◌, suc, code, String, Bool, ◌&&◌, Option, none, some, ℤ, pos, negsuc,
  ltb, leb, eqb, if◌then◌else◌,
}

-- The digits of a text after those that make `acc`; `none` at another character or at no digit.
unfoldable pub digits_from : ℕ → String → Option ℕ
digits_from acc [] = some acc
digits_from acc (c ∷ s) =
    if leb b'0' (code c) && leb (code c) b'9'
    then digits_from (acc * 10 + (code c - b'0')) s
    else none

unfoldable pub digits : String → Option ℕ
unfolding digits_from
digits [] = none
digits (c ∷ s) = digits_from 0 (c ∷ s)

-- A magnitude with its sign, in the range of `int` on 64 bits.
abbrev pub in_range : Bool → ℕ → Option ℤ
in_range Bool.false n = if ltb n (2 ^ 63) then some (pos n) else none
in_range Bool.true n =
    if eqb n 0 then some (pos 0) else if leb n (2 ^ 63) then some (negsuc (n - 1)) else none

abbrev bind_range : Bool → Option ℕ → Option ℤ
bind_range negative none = none
bind_range negative (some n) = in_range negative n

-- `strconv.Atoi`: an optional sign and digits.
unfoldable pub atoi : String → Option ℤ
unfolding digits
atoi [] = none
atoi (c ∷ s) =
    if eqb (code c) b'-'
    then bind_range Bool.true (digits s)
    else if eqb (code c) b'+'
    then bind_range Bool.false (digits s)
    else bind_range Bool.false (digits (c ∷ s))

-- The `int64` with a bit pattern.
abbrev pub to_int64 : ℕ → ℤ
to_int64 u = if ltb u (2 ^ 63) then pos u else negsuc (2 ^ 64 - 1 - u)

-- `time.Duration(n) * time.Second`, which wraps around.
unfoldable pub seconds : ℤ → ℤ
seconds (pos n) = to_int64 (n * 1_000_000_000 % 2 ^ 64)
seconds (negsuc n) = to_int64 ((2 ^ 64 - suc n * 1_000_000_000 % 2 ^ 64) % 2 ^ 64)

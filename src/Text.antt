-- ===== src/Text.antt =====
-- The functions of Go's `strings` and `encoding/hex` that the program calls, over texts that are
-- sequences of Unicode scalar values (every valid UTF-8 text); `len` counts the bytes of the UTF-8.
pub mod Trim
pub mod Hex
pub mod Affix
pub mod Decimal
pub mod Path
use Prim.Native.String
use Prim.Native.String.{[], ◌∷◌}
use modern_mcs.Prelude.{
  ℕ, Char, code, String, Bool, true, false, ◌&&◌, ◌||◌, List, Option, none, some, ◌==◌, leb, eqb,
  if◌then◌else◌,
}

-- `unicode.IsSpace`: the White_Space property.
unfoldable pub is_space : ℕ → Bool
is_space c =
    leb 9 c && leb c 13
    || eqb c 32
    || eqb c 0x85
    || eqb c 0xa0
    || eqb c 0x1680
    || leb 0x2000 c && leb c 0x200a
    || eqb c 0x2028
    || eqb c 0x2029
    || eqb c 0x202f
    || eqb c 0x205f
    || eqb c 0x3000

unfoldable pub trim_left : String → String
trim_left [] = []
trim_left (c ∷ s) = if is_space (code c) then trim_left s else c ∷ s

-- A character in front of a text that is trimmed on the right.
unfoldable pub push_trimmed : Char → String → String
push_trimmed c [] = if is_space (code c) then [] else c ∷ []
push_trimmed c (d ∷ s) = c ∷ d ∷ s

unfoldable pub trim_right : String → String
unfolding push_trimmed
trim_right [] = []
trim_right (c ∷ s) = push_trimmed c (trim_right s)

-- `strings.TrimSpace`
unfoldable pub trim_space : String → String
unfolding trim_left trim_right
trim_space s = trim_right (trim_left s)

-- The character of the second text at the place that `c` has in the first, and else `c`.
unfoldable pub translate : String → String → Char → Char
translate [] to c = c
translate (a ∷ from) [] c = c
translate (a ∷ from) (b ∷ to) c = if eqb (code c) (code a) then b else translate from to c

unfoldable pub lower_char : Char → Char
unfolding translate
lower_char c = translate "ABCDEFGHIJKLMNOPQRSTUVWXYZ" "abcdefghijklmnopqrstuvwxyz" c

-- `strings.ToLower` on the ASCII letters; the module Lib says what it leaves out.
unfoldable pub to_lower : String → String
unfolding lower_char
to_lower [] = []
to_lower (c ∷ s) = lower_char c ∷ to_lower s

-- `strings.EqualFold` against a text with no letter whose case folding leaves ASCII.
unfoldable pub equal_fold : String → String → Bool
unfolding to_lower
equal_fold s t = to_lower s == to_lower t

-- `strings.HasPrefix`
unfoldable pub has_prefix : String → String → Bool
has_prefix s [] = true
has_prefix [] (d ∷ p) = false
has_prefix (c ∷ s) (d ∷ p) = eqb (code c) (code d) && has_prefix s p

-- `strings.HasSuffix`
unfoldable pub has_suffix : String → String → Bool
has_suffix [] p = [] == p
has_suffix (c ∷ s) p = (c ∷ s) == p || has_suffix s p

-- The text without as many characters as the other has.
unfoldable pub drop_chars : String → String → String
drop_chars s [] = s
drop_chars [] (d ∷ p) = []
drop_chars (c ∷ s) (d ∷ p) = drop_chars s p

-- `strings.TrimPrefix`
unfoldable pub trim_prefix : String → String → String
unfolding has_prefix drop_chars
trim_prefix s p = if has_prefix s p then drop_chars s p else s

-- `strings.TrimSuffix`
unfoldable pub trim_suffix : String → String → String
trim_suffix [] p = []
trim_suffix (c ∷ s) p = if (c ∷ s) == p then [] else c ∷ trim_suffix s p

-- `strings.Contains(s, c)` for a text of one character
unfoldable pub contains_char : String → ℕ → Bool
contains_char [] k = false
contains_char (c ∷ s) k = eqb (code c) k || contains_char s k

-- `strings.SplitN(s, sep, 2)` for a separator of one character: the parts before and after the
-- first separator, if there is one.
abbrev prepend_head : Char → Option (String × String) → Option (String × String)
prepend_head c none = none
prepend_head c (some (a, b)) = some (c ∷ a, b)

unfoldable pub cut : String → ℕ → Option (String × String)
cut [] k = none
cut (c ∷ s) k = if eqb (code c) k then some ([], s) else prepend_head c (cut s k)

-- ===== src/Text/Hex.antt =====
-- `hex.EncodeToString`, and the decoding that undoes it.
use Prim.Native.Nat.{zero}
use Prim.Native.String
use Prim.Native.String.{[], ◌∷◌}
use Prim.Native.String.count
use modern_mcs.Prelude.{
  not, false, ℕ, suc, ◌+◌, ◌*◌, ◌/◌, ◌%◌, ◌<◌, Char, code, String, ◌≡◌, ◌≢◌, refl, ap, true, arith,
  eqb, if◌then◌else◌, List, All, length, Bool, ◌&&◌, sym, ◌∙◌,
}
use modern_mcs.Text.{is_space}
use modern_mcs.Text.Trim.{HasNoSpace}
use modern_mcs.Prelude.{[] as nil, ◌∷◌ as cons}

-- The character at a place of a text, counted in characters.
unfoldable pub nth_char : String → ℕ → Char
nth_char [] i = "?"
nth_char (c ∷ s) zero = c
nth_char (c ∷ s) (suc i) = nth_char s i

abbrev hextable : String
hextable = "0123456789abcdef"

unfoldable pub encode_to_string : List ℕ → String
unfolding nth_char
encode_to_string nil = []
encode_to_string (cons b bs) =
    nth_char hextable (b / 16) ∷ nth_char hextable (b % 16) ∷ encode_to_string bs

-- The place of the first character of a text with a given code.
index_char : String → ℕ → ℕ
index_char [] k = 0
index_char (c ∷ s) k = let rest = suc (index_char s k) in if eqb (code c) k then 0 else rest

pub decode_string : String → List ℕ
unfolding index_char
decode_string [] = nil
decode_string (c ∷ []) = nil
decode_string (c ∷ d ∷ s) =
    cons (16 * index_char hextable (code c) + index_char hextable (code d)) (decode_string s)

all_digits : ℕ → Bool
all_digits zero = true
all_digits (suc n) = eqb (index_char hextable (code (nth_char hextable n))) n && all_digits n

all_digits_sound :
    (m n : ℕ) → all_digits m ≡ true → n < m → index_char hextable (code (nth_char hextable n)) ≡ n
unfolding all_digits
all_digits_sound zero n h lt = absurd (omega arith)
all_digits_sound (suc m) n h lt = ground (arith, all_digits_sound m n)

digits_table : all_digits 16 ≡ true
unfolding all_digits index_char nth_char
digits_table = refl

index_char-nth_char : (n : ℕ) → n < 16 → index_char hextable (code (nth_char hextable n)) ≡ n
index_char-nth_char n h = all_digits_sound 16 n digits_table h

-- Decoding undoes encoding, for bytes.
pub decode_string-encode_to_string :
    (bs : List ℕ) → All (λ b. b < 256) bs → decode_string (encode_to_string bs) ≡ bs
unfolding decode_string encode_to_string
decode_string-encode_to_string nil h = refl
decode_string-encode_to_string (cons b bs) (hb, h) =
    simp
      (
        index_char-nth_char (b / 16) (omega arith),
        index_char-nth_char (b % 16) (omega arith),
        decode_string-encode_to_string bs h,
      )
      (ap (λ x. cons x bs) (omega arith))

-- Two byte strings with one encoding are one.
pub encode_to_string_inj :
    (xs bs : List ℕ)
    → All (λ b. b < 256) xs
    → All (λ b. b < 256) bs
    → encode_to_string xs ≡ encode_to_string bs
    → xs ≡ bs
encode_to_string_inj xs bs ha hb e =
    sym (decode_string-encode_to_string xs ha)
    ∙ ap decode_string e
    ∙ decode_string-encode_to_string bs hb

-- Each byte takes two characters.
pub count-encode_to_string : (bs : List ℕ) → String.count (encode_to_string bs) ≡ 2 * length bs
unfolding encode_to_string
count-encode_to_string nil = refl
count-encode_to_string (cons b bs) = omega (arith, count-encode_to_string bs, count.cons)

pub encode_to_string-ne-empty : (bs : List ℕ) → 0 < length bs → encode_to_string bs ≢ ""
unfolding encode_to_string
encode_to_string-ne-empty nil h e = omega arith
encode_to_string-ne-empty (cons b bs) h e = cc

no_spaces : ℕ → Bool
no_spaces zero = true
no_spaces (suc n) = not (is_space (code (nth_char hextable n))) && no_spaces n

no_spaces_sound :
    (m n : ℕ) → no_spaces m ≡ true → n < m → is_space (code (nth_char hextable n)) ≡ false
unfolding no_spaces
no_spaces_sound zero n h lt = absurd (omega arith)
no_spaces_sound (suc m) n h lt = ground (arith, no_spaces_sound m n)

spaces_table : no_spaces 16 ≡ true
unfolding no_spaces nth_char is_space
spaces_table = refl

-- The text of bytes has no space.
pub encode_to_string-HasNoSpace :
    (bs : List ℕ) → All (λ b. b < 256) bs → HasNoSpace (encode_to_string bs)
unfolding encode_to_string
encode_to_string-HasNoSpace nil h = tt
encode_to_string-HasNoSpace (cons b bs) (byte, h) = (
  no_spaces_sound 16 (b / 16) spaces_table (omega arith),
  (no_spaces_sound 16 (b % 16) spaces_table (omega arith), encode_to_string-HasNoSpace bs h),
)

-- ===== src/Text/Affix.antt =====
-- Prefixes and suffixes of a text that is put together.
use Prim.Native.String
use Prim.Native.String.{[], ◌∷◌}
use Prim.Native.String.append
use Prim.Native.String.count
use modern_mcs.Prelude.{
  ◌+◌, Char, String, ◌≡◌, ◌≢◌, refl, ap, inl, inr, true, false, arith, ◌==◌, eq_iff, eq_refl,
  Bool-cases,
}
use modern_mcs.Text.{has_prefix, drop_chars, trim_prefix, has_suffix, trim_suffix, contains_char}

pub any_prefix : (s : String) → has_prefix s [] ≡ true
unfolding has_prefix
any_prefix [] = refl
any_prefix (c ∷ s) = refl

pub has_prefix-append : (p s : String) → has_prefix (String.◌++◌ p s) p ≡ true
unfolding has_prefix
has_prefix-append [] s = any_prefix (String.◌++◌ [] s)
has_prefix-append (c ∷ p) s = rw append.cons (ground (arith, has_prefix-append p s))

pub drop_chars-append : (p s : String) → drop_chars (String.◌++◌ p s) p ≡ s
unfolding drop_chars
drop_chars-append [] s = append.nil s
drop_chars-append (c ∷ p) s = rw append.cons (drop_chars-append p s)

pub trim_prefix-append : (p s : String) → trim_prefix (String.◌++◌ p s) p ≡ s
unfolding trim_prefix
trim_prefix-append p s = rw (has_prefix-append p s) (drop_chars-append p s)

count-append : (s t : String) → String.count (String.◌++◌ s t) ≡ String.count s + String.count t
count-append [] t = omega (arith, ap String.count (append.nil t), count.nil)
count-append (c ∷ s) t = rw (append.cons, count.cons) (omega (arith, count-append s t, count.cons))

longer-ne : (c : Char) (s p : String) → String.◌++◌ (c ∷ s) p ≢ p
longer-ne c s p e = omega (arith, ap String.count e, count-append (c ∷ s) p, count.cons c s)

has_suffix_refl : (p : String) → has_suffix p p ≡ true
unfolding has_suffix
has_suffix_refl [] = refl
has_suffix_refl (c ∷ p) = ground (arith, eq_refl (c ∷ p))

pub has_suffix-append : (s p : String) → has_suffix (String.◌++◌ s p) p ≡ true
unfolding has_suffix
has_suffix-append [] p = rw append.nil (has_suffix_refl p)
has_suffix-append (c ∷ s) p = rw append.cons (ground (arith, has_suffix-append s p))

trim_suffix_all : (p : String) → trim_suffix p p ≡ []
unfolding trim_suffix
trim_suffix_all [] = refl
trim_suffix_all (c ∷ p) = ground (arith, eq_refl (c ∷ p))

pub trim_suffix-append : (s p : String) → trim_suffix (String.◌++◌ s p) p ≡ s
unfolding trim_suffix
trim_suffix-append [] p = rw append.nil (trim_suffix_all p)
trim_suffix-append (c ∷ s) p = rw append.cons (
    ground (
      arith,
      trim_suffix-append s p,
      append.cons c s p,
      longer-ne c s p,
      eq_iff (c ∷ String.◌++◌ s p) p,
    ))

-- A text that does not hold the character that the suffix ends in is left as it is.
pub trim_suffix-absent : (s : String) → contains_char s b'/' ≡ false → trim_suffix s "/" ≡ s
unfolding trim_suffix contains_char
trim_suffix-absent [] h = refl
trim_suffix-absent (c ∷ s) h = elim (Bool-cases ((c ∷ s) == "/")) [
  | inl same ↦
      let found : contains_char (c ∷ s) b'/' ≡ true =
        ap (λ t. contains_char t b'/') ((eq_iff (c ∷ s) "/").0 same) in
      let bad : ⊥ = ground (arith, found, h) in absurd bad
  | inr differs ↦ ground (arith, trim_suffix-absent s, differs, h)
]

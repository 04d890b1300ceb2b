-- ===== src/Text/Trim.antt =====
-- Laws of `trim_space`.
use Prim.Native.String.{[], ◌∷◌}
use modern_mcs.Prelude.{Char, code, String, ◌≡◌, refl, ap, ◌∙◌, false, inl, inr, Bool-cases}
use modern_mcs.Text.{is_space, trim_left, push_trimmed, trim_right, trim_space}

push_trimmed_fixed :
    (c : Char) (s : String) → trim_right s ≡ s → trim_right (push_trimmed c s) ≡ push_trimmed c s
unfolding trim_right push_trimmed
push_trimmed_fixed c [] h = elim (Bool-cases (is_space (code c))) [
  | inl e ↦ rw e
  | inr e ↦ rw e (rw e)
]
push_trimmed_fixed c (d ∷ s) h = ap (push_trimmed c) h

trim_right_idem : (s : String) → trim_right (trim_right s) ≡ trim_right s
unfolding trim_right
trim_right_idem [] = refl
trim_right_idem (c ∷ s) = push_trimmed_fixed c (trim_right s) (trim_right_idem s)

-- The text is empty or begins with a character that is no space.
abbrev IsTrimmedLeft : String → Type 0
IsTrimmedLeft [] = Unit
IsTrimmedLeft (c ∷ s) = is_space (code c) ≡ false

trim_left-IsTrimmedLeft : (s : String) → IsTrimmedLeft (trim_left s)
unfolding trim_left
trim_left-IsTrimmedLeft [] = tt
trim_left-IsTrimmedLeft (c ∷ s) = elim (Bool-cases (is_space (code c))) [
  | inl e ↦ rw e (trim_left-IsTrimmedLeft s)
  | inr e ↦ rw e e
]

push_trimmed-IsTrimmedLeft :
    (c : Char) (s : String) → is_space (code c) ≡ false → IsTrimmedLeft (push_trimmed c s)
unfolding push_trimmed
push_trimmed-IsTrimmedLeft c [] h = rw h h
push_trimmed-IsTrimmedLeft c (d ∷ s) h = h

trim_right-IsTrimmedLeft : (s : String) → IsTrimmedLeft s → IsTrimmedLeft (trim_right s)
unfolding trim_right
trim_right-IsTrimmedLeft [] h = tt
trim_right-IsTrimmedLeft (c ∷ s) h = push_trimmed-IsTrimmedLeft c (trim_right s) h

trim_left_fixed : (s : String) → IsTrimmedLeft s → trim_left s ≡ s
unfolding trim_left
trim_left_fixed [] h = refl
trim_left_fixed (c ∷ s) h = rw h

-- Trimming twice is trimming once.
pub trim_space_idem : (s : String) → trim_space (trim_space s) ≡ trim_space s
unfolding trim_space
trim_space_idem s =
    let clean = trim_right-IsTrimmedLeft (trim_left s) (trim_left-IsTrimmedLeft s) in
    ap trim_right (trim_left_fixed (trim_right (trim_left s)) clean) ∙ trim_right_idem (trim_left s)

-- No character of the text is a space.
abbrev pub HasNoSpace : String → Type 0
HasNoSpace [] = Unit
HasNoSpace (c ∷ s) = (is_space (code c) ≡ false) × HasNoSpace s

trim_right-fixed : (s : String) → HasNoSpace s → trim_right s ≡ s
unfolding trim_right push_trimmed
trim_right-fixed [] h = refl
trim_right-fixed (c ∷ []) (first, h) = rw first refl
trim_right-fixed (c ∷ d ∷ s) (first, h) = rw (trim_right-fixed (d ∷ s) h) refl

-- Such a text is not trimmed.
pub trim_space-fixed : (s : String) → HasNoSpace s → trim_space s ≡ s
unfolding trim_space trim_left
trim_space-fixed [] h = trim_right-fixed [] h
trim_space-fixed (c ∷ s) (first, h) = rw first (trim_right-fixed (c ∷ s) (first, h))

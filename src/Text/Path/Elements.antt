-- ===== src/Text/Path/Elements.antt =====
-- Laws of the elements of a path.
use mathlib.Core.List.{reverse_aux}
use Prim.Native.String
use Prim.Native.String.{[] as empty, ◌∷◌ as char}
use Prim.Native.String.append
use modern_mcs.Prelude.{
  Char, code, String, ◌≡◌, refl, ap, ◌∙◌, inl, inr, Bool, true, false, ◌||◌, arith, List, [], ◌∷◌,
  ◌++◌, All, ◌==◌, eqb, Bool-cases,
}
use modern_mcs.Text.{has_prefix, contains_char}
use modern_mcs.Text.Path.{add_first, split_path, join_path, clean_step, clean_onto, clean_elements}

abbrev pub HasNoSlash : String → Type 0
HasNoSlash e = contains_char e b'/' ≡ false

-- An element that is not empty, no `.` and no `..`, and has no slash.
abbrev pub IsNormal : String → Type 0
IsNormal e = ((e == "") ≡ false) × ((e == ".") ≡ false) × ((e == "..") ≡ false) × HasNoSlash e

add_first-HasNoSlash :
    (c : Char) (ss : List String)
    → eqb (code c) b'/' ≡ false
    → All HasNoSlash ss
    → All HasNoSlash (add_first c ss)
unfolding contains_char
add_first-HasNoSlash c [] h all = (ground arith, tt)
add_first-HasNoSlash c (s ∷ ss) h (first, all) = (ground arith, all)

split_path-HasNoSlash : (s : String) → All HasNoSlash (split_path s)
unfolding split_path contains_char
split_path-HasNoSlash empty = (refl, tt)
split_path-HasNoSlash (char c s) = elim (Bool-cases (eqb (code c) b'/')) [
  | inl e ↦ rw e (refl, split_path-HasNoSlash s)
  | inr e ↦ rw e (add_first-HasNoSlash c (split_path s) e (split_path-HasNoSlash s))
]

split_path_cons : (s : String) → (e : String) × (es : List String) × (split_path s ≡ e ∷ es)
unfolding split_path
split_path_cons empty = (empty, [], refl)
split_path_cons (char c s) = elim (Bool-cases (eqb (code c) b'/')) [
  | inl e ↦ (empty, split_path s, rw e refl)
  | inr e ↦ let (x, xs, h) = split_path_cons s in (char c x, xs, rw e (rw h refl))
]

pub split_path-append :
    (a b : String) → split_path (String.◌++◌ a (char "/" b)) ≡ split_path a ++ split_path b
unfolding split_path
split_path-append empty b = rw append.nil refl
split_path-append (char c a) b = elim (Bool-cases (eqb (code c) b'/')) [
  | inl e ↦ rw (append.cons, e) (ap (λ es. empty ∷ es) (split_path-append a b))
  | inr e ↦
      let (x, xs, h) = split_path_cons a in
      rw (append.cons, e) (ap (add_first c) (split_path-append a b) ∙ rw h refl)
]

split_path-one : (e : String) → HasNoSlash e → split_path e ≡ e ∷ []
unfolding split_path contains_char
split_path-one empty h = refl
split_path-one (char c s) h = ground (arith, split_path-one s)

-- The elements of a joined path.
pub split_path-join_path :
    (e : String) (es : List String)
    → All HasNoSlash (e ∷ es)
    → split_path (join_path (e ∷ es)) ≡ e ∷ es
unfolding join_path
split_path-join_path e [] (h, all) = split_path-one e h
split_path-join_path e (f ∷ es) (h, all) =
    ap (λ s. split_path (String.◌++◌ e s)) (append.cons "/" empty _ ∙ ap (char "/") (append.nil _))
    ∙ split_path-append e (join_path (f ∷ es))
    ∙ rw (split_path-one e h, split_path-join_path f es all) refl

pub clean_onto-append :
    (rooted : Bool) (out xs ys : List String)
    → clean_onto rooted out (xs ++ ys) ≡ clean_onto rooted (clean_onto rooted out xs) ys
unfolding clean_onto
clean_onto-append rooted out [] ys = refl
clean_onto-append rooted out (x ∷ xs) ys = clean_onto-append rooted (clean_step rooted out x) xs ys

clean_step-normal :
    (rooted : Bool) (out : List String) (e : String)
    → IsNormal e
    → clean_step rooted out e ≡ e ∷ out
unfolding clean_step
clean_step-normal rooted [] e normal = ground arith
clean_step-normal rooted (last ∷ out) e normal = ground arith

-- Normal elements all stay.
pub clean_onto-normal :
    (rooted : Bool) (out es : List String)
    → All IsNormal es
    → clean_onto rooted out es ≡ reverse_aux es out
unfolding clean_onto
clean_onto-normal rooted out [] all = refl
clean_onto-normal rooted out (e ∷ es) (normal, all) =
    ap (λ o. clean_onto rooted o es) (clean_step-normal rooted out e normal)
    ∙ clean_onto-normal rooted (e ∷ out) es all

made_IsNormal :
    (e : String) → (e == "" || e == ".") ≡ false → (e == "..") ≡ false → HasNoSlash e → IsNormal e
made_IsNormal e named down h = (ground arith, ground arith, down, h)

clean_step-IsNormal :
    (out : List String) (e : String)
    → All IsNormal out
    → HasNoSlash e
    → All IsNormal (clean_step true out e)
unfolding clean_step
clean_step-IsNormal [] e all h = elim (Bool-cases (e == "" || e == ".")) [
  | inl idle ↦ rw idle tt
  | inr named ↦ elim (Bool-cases (e == "..")) [
    | inl up ↦ rw (named, up) tt
    | inr down ↦ rw (named, down) (made_IsNormal e named down h, tt)
  ]
]
clean_step-IsNormal (last ∷ out) e (normal, all) h = elim (Bool-cases (e == "" || e == ".")) [
  | inl idle ↦ rw idle (normal, all)
  | inr named ↦ elim (Bool-cases (e == "..")) [
    | inl up ↦ let proper : (last == "..") ≡ false = normal.2 in rw (named, up, proper) all
    | inr down ↦ rw (named, down) (made_IsNormal e named down h, (normal, all))
  ]
]

clean_onto-IsNormal :
    (out es : List String)
    → All IsNormal out
    → All HasNoSlash es
    → All IsNormal (clean_onto true out es)
unfolding clean_onto
clean_onto-IsNormal out [] all none = all
clean_onto-IsNormal out (e ∷ es) all (h, rest) =
    clean_onto-IsNormal (clean_step true out e) es (clean_step-IsNormal out e all h) rest

reverse_aux-IsNormal :
    (xs r : List String) → All IsNormal xs → All IsNormal r → All IsNormal (reverse_aux xs r)
reverse_aux-IsNormal [] r all rest = rest
reverse_aux-IsNormal (x ∷ xs) r (normal, all) rest =
    reverse_aux-IsNormal xs (x ∷ r) all (normal, rest)

-- A cleaned path from the root has normal elements only.
pub clean_elements-IsNormal :
    (p : String) → has_prefix p "/" ≡ true → All IsNormal (clean_elements p)
unfolding clean_elements
clean_elements-IsNormal p rooted = rw rooted (
    reverse_aux-IsNormal (clean_onto true [] (split_path p)) []
      (clean_onto-IsNormal [] (split_path p) tt (split_path-HasNoSlash p)) tt)

pub AllNormal-HasNoSlash : (es : List String) → All IsNormal es → All HasNoSlash es
AllNormal-HasNoSlash [] all = tt
AllNormal-HasNoSlash (e ∷ es) ((_, _, _, h), all) = (h, AllNormal-HasNoSlash es all)

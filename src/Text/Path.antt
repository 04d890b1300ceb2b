-- ===== src/Text/Path.antt =====
-- `path.Clean`, and `filepath.Join` of two elements, on a system whose separator is the slash.
pub mod Elements
pub mod Below
use Prim.Native.String
use Prim.Native.String.{[] as empty, ◌∷◌ as char}
use mathlib.Core.List.{reverse}
use modern_mcs.Prelude.{
  ℕ, Char, code, String, Bool, true, false, ◌||◌, ◌&&◌, List, [], ◌∷◌, ◌==◌, eqb, if◌then◌else◌,
}
use modern_mcs.Text.{has_prefix}

abbrev pub add_first : Char → List String → List String
add_first c [] = char c empty ∷ []
add_first c (s ∷ ss) = char c s ∷ ss

-- `strings.Split(s, "/")`
unfoldable pub split_path : String → List String
split_path empty = empty ∷ []
split_path (char c s) =
    let rest = split_path s in if eqb (code c) b'/' then empty ∷ rest else add_first c rest

-- `strings.Join(elems, "/")`
unfoldable pub join_path : List String → String
join_path [] = ""
join_path (s ∷ []) = s
join_path (s ∷ t ∷ ts) = String.◌++◌ s (String.◌++◌ "/" (join_path (t ∷ ts)))

-- An element that goes behind those in front of it, the last one of which stands first. `..` takes one
-- away; where there is none, it is dropped in a path that begins at the root.
unfoldable pub clean_step : Bool → List String → String → List String
clean_step rooted [] e =
    if e == "" || e == "." then [] else if e == ".." && rooted then [] else e ∷ []
clean_step rooted (last ∷ out) e =
    if e == "" || e == "."
    then last ∷ out
    else if e == ".."
    then if last == ".." then e ∷ last ∷ out else out
    else e ∷ last ∷ out

unfoldable pub clean_onto : Bool → List String → List String → List String
unfolding clean_step
clean_onto rooted out [] = out
clean_onto rooted out (e ∷ es) = clean_onto rooted (clean_step rooted out e) es

-- The elements of a cleaned path.
unfoldable pub clean_elements : String → List String
unfolding clean_onto split_path has_prefix
clean_elements p = reverse (clean_onto (has_prefix p "/") [] (split_path p))

abbrev pub render : Bool → List String → String
render true es = String.◌++◌ "/" (join_path es)
render false [] = "."
render false (e ∷ es) = join_path (e ∷ es)

-- `path.Clean`
unfoldable pub clean : String → String
unfolding clean_elements join_path
clean p = render (has_prefix p "/") (clean_elements p)

-- `filepath.Join(a, b)`
unfoldable pub join : String → String → String
unfolding clean
join a b =
    if a == ""
    then if b == "" then "" else clean b
    else if b == ""
    then clean a
    else clean (String.◌++◌ a (String.◌++◌ "/" b))

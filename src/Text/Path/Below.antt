-- ===== src/Text/Path/Below.antt =====
-- Laws of cleaned paths: what is joined behind a directory stays below it.
use mathlib.Core.List.{reverse, reverse_aux-eq, reverse_aux-reverse_aux-nil}
use Prim.Native.String
use Prim.Native.String.{[] as empty, ◌∷◌ as char}
use Prim.Native.String.append
use modern_mcs.Prelude.{
  Char, String, ◌≡◌, ◌≢◌, refl, ap, ◌∙◌, true, false, List, [], ◌∷◌, ◌++◌, All, ◌==◌, ne→not-eq,
}
use modern_mcs.Text.{has_prefix, trim_prefix}
use modern_mcs.Text.Affix.{any_prefix, trim_prefix-append}
use modern_mcs.Text.Path.{split_path, join_path, clean_onto, clean_elements, render, clean, join}
use modern_mcs.Text.Path.Elements.{
  IsNormal, split_path-append, split_path-join_path, clean_onto-append, clean_onto-normal,
  AllNormal-HasNoSlash, clean_elements-IsNormal,
}

has_prefix-behind :
    (a b : String)
    → (a == "") ≡ false
    → has_prefix (String.◌++◌ a (char "/" b)) "/" ≡ has_prefix a "/"
unfolding has_prefix
has_prefix-behind empty b h = cc
has_prefix-behind (char c a) b h =
    rw (append.cons, any_prefix (String.◌++◌ a (char "/" b)), any_prefix a) refl

-- The elements of a directory and, behind them, normal elements.
clean_elements-append :
    (dir : String) (e : String) (es : List String)
    → (dir == "") ≡ false
    → All IsNormal (e ∷ es)
    → clean_elements (String.◌++◌ dir (char "/" (join_path (e ∷ es))))
      ≡ clean_elements dir ++ (e ∷ es)
unfolding clean_elements
clean_elements-append dir e es named all =
    let rooted = has_prefix dir "/" in
    let dir_out = clean_onto rooted [] (split_path dir) in
    ap
      (λ b.
        reverse (clean_onto b [] (split_path (String.◌++◌ dir (char "/" (join_path (e ∷ es)))))))
      (has_prefix-behind dir (join_path (e ∷ es)) named)
    ∙ ap (λ l. reverse (clean_onto rooted [] l))
        (split_path-append dir (join_path (e ∷ es))
          ∙ ap (λ l. split_path dir ++ l)
              (split_path-join_path e es (AllNormal-HasNoSlash (e ∷ es) all)))
    ∙ ap (λ l. reverse l)
        (clean_onto-append rooted [] (split_path dir) (e ∷ es)
          ∙ clean_onto-normal rooted dir_out (e ∷ es) all)
    ∙ reverse_aux-reverse_aux-nil (e ∷ es) dir_out
    ∙ reverse_aux-eq dir_out (e ∷ es)

-- What stands below a directory: the elements of the directory, and normal ones behind them.
abbrev pub IsBelow : String → String → Type 0
IsBelow dir file =
    (es : List String) × All IsNormal es
    × (file ≡ render (has_prefix dir "/") (clean_elements dir ++ es))

slash_append : (s : String) → String.◌++◌ "/" s ≡ char "/" s
slash_append s = append.cons "/" empty s ∙ ap (char "/") (append.nil s)

cons-ne-empty : (c : Char) (s : String) → (char c s == "") ≡ false
cons-ne-empty c s = ne→not-eq (char c s) "" (λ e. cc)

join_path-ne-empty :
    (e : String) (es : List String) → (e == "") ≡ false → (join_path (e ∷ es) == "") ≡ false
unfolding join_path
join_path-ne-empty e [] h = h
join_path-ne-empty empty (f ∷ es) h = cc
join_path-ne-empty (char c e) (f ∷ es) h = rw append.cons (cons-ne-empty c _)

clean_lem : (p : String) → clean p ≡ render (has_prefix p "/") (clean_elements p)
unfolding clean
clean_lem p = refl

join-normal :
    (dir e : String) (es : List String)
    → dir ≢ ""
    → All IsNormal (e ∷ es)
    → join dir (join_path (e ∷ es)) ≡ render (has_prefix dir "/") (clean_elements dir ++ (e ∷ es))
unfolding join
join-normal dir e es named all =
    let given = ne→not-eq dir "" named in
    let whole = String.◌++◌ dir (char "/" (join_path (e ∷ es))) in
    rw (given, join_path-ne-empty e es all.0.0, slash_append)
      (clean_lem whole
        ∙ ap (λ b. render b (clean_elements whole))
            (has_prefix-behind dir (join_path (e ∷ es)) given)
        ∙ ap (render (has_prefix dir "/")) (clean_elements-append dir e es given all))

-- A path that was cleaned from the root, and is not the root, stands below the directory that it is
-- joined to.
pub join-IsBelow :
    (dir p : String)
    → dir ≢ ""
    → has_prefix p "/" ≡ true
    → clean p ≢ "/"
    → IsBelow dir (join dir (trim_prefix (clean p) "/"))
unfolding clean
join-IsBelow dir p named rooted deep =
    let whole : clean p ≡ String.◌++◌ "/" (join_path (clean_elements p)) = rw rooted refl in
    let trimmed : trim_prefix (clean p) "/" ≡ join_path (clean_elements p) =
      ap (λ s. trim_prefix s "/") whole ∙ trim_prefix-append "/" (join_path (clean_elements p)) in
    below (clean_elements p) (clean_elements-IsNormal p rooted) whole trimmed
  where
    below :
        (es : List String)
        → All IsNormal es
        → clean p ≡ String.◌++◌ "/" (join_path es)
        → trim_prefix (clean p) "/" ≡ join_path es
        → IsBelow dir (join dir (trim_prefix (clean p) "/"))
    below [] all whole trimmed = absurd (deep whole)
    below (e ∷ es) all whole trimmed =
        (e ∷ es, all, ap (join dir) trimmed ∙ join-normal dir e es named all)

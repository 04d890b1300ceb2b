-- ===== src/Migrations/Sort.antt =====
-- `sort.Slice` by name. The order of texts is that of their bytes.
use mathlib.Core.List.{Perm, Memᴰ}
use mathlib.Core.List.Perm
use Prim.Native.Nat.{Ordering, compare as compare_ℕ}
use Prim.Native.String
use Prim.Native.String.{compare}
use Prim.Native.String.compare
use text.Mathlib.Text.{is_lt}
use modern_mcs.Prelude.{
  ◌⊎◌, ℕ, String, ◌≡◌, code, arith, List, [], ◌∷◌, Bool, true, false, Bool-cases, inl, inr,
  if◌then◌else◌,
}
use modern_mcs.Migrations.Types.{FileInfo}

-- `<` on strings
abbrev pub name_lt : String → String → Bool
name_lt s t = is_lt (compare s t)

compare_ℕ_swap : (m n : ℕ) → compare_ℕ m n ≡ Ordering.lt → compare_ℕ n m ≡ Ordering.gt
compare_ℕ_swap m n h = ground arith

compare_ℕ_eq : (m n : ℕ) → compare_ℕ m n ≡ Ordering.eq → compare_ℕ n m ≡ Ordering.eq
compare_ℕ_eq m n h = ground arith

then_swap :
    (a b a' b' : Ordering)
    → (a ≡ Ordering.lt → a' ≡ Ordering.gt)
    → (a ≡ Ordering.eq → a' ≡ Ordering.eq)
    → (b ≡ Ordering.lt → b' ≡ Ordering.gt)
    → String.then a b ≡ Ordering.lt
    → String.then a' b' ≡ Ordering.gt
then_swap a b a' b' p q r h = ground (arith, p, q, r)

compare_swap : (s t : String) → compare s t ≡ Ordering.lt → compare t s ≡ Ordering.gt
compare_swap String.[] String.[] h = let bad = rw compare.nil-nil at h in cc
compare_swap String.[] (String.◌∷◌ d t) h = rw compare.cons-nil
compare_swap (String.◌∷◌ c s) String.[] h = let bad = rw compare.cons-nil at h in cc
compare_swap (String.◌∷◌ c s) (String.◌∷◌ d t) h = rw compare.cons-cons (
    then_swap (compare_ℕ (code c) (code d)) (compare s t) (compare_ℕ (code d) (code c))
      (compare t s) (compare_ℕ_swap (code c) (code d)) (compare_ℕ_eq (code c) (code d))
      (compare_swap s t) (rw compare.cons-cons at h))

name_lt_asym : (s t : String) → name_lt s t ≡ true → name_lt t s ≡ false
name_lt_asym s t h = ground (arith, compare_swap s t)

unfoldable pub insert_by_name : FileInfo → List FileInfo → List FileInfo
insert_by_name f [] = f ∷ []
insert_by_name f (g ∷ gs) = if name_lt g.name f.name then g ∷ insert_by_name f gs else f ∷ g ∷ gs

unfoldable pub sort_by_name : List FileInfo → List FileInfo
unfolding insert_by_name
sort_by_name [] = []
sort_by_name (f ∷ fs) = insert_by_name f (sort_by_name fs)

-- No file stands right behind one with a later name.
abbrev pub IsSortedByName : List FileInfo → Type 0
IsSortedByName [] = Unit
IsSortedByName (f ∷ []) = Unit
IsSortedByName (f ∷ g ∷ gs) = (name_lt g.name f.name ≡ false) × IsSortedByName (g ∷ gs)

insert-IsSortedByName :
    (f : FileInfo) (gs : List FileInfo) → IsSortedByName gs → IsSortedByName (insert_by_name f gs)
unfolding insert_by_name
insert-IsSortedByName f [] s = tt
insert-IsSortedByName f (g ∷ []) s = elim (Bool-cases (name_lt g.name f.name)) [
  | inl e ↦ rw e (name_lt_asym g.name f.name e, tt)
  | inr e ↦ rw e (e, tt)
]
insert-IsSortedByName f (g ∷ h ∷ hs) (first, s) = elim (Bool-cases (name_lt g.name f.name)) [
  | inr e ↦ rw e (e, (first, s))
  | inl e ↦
      rw e
        (behind f g h hs first (name_lt_asym g.name f.name e) (insert-IsSortedByName f (h ∷ hs) s))
]
  where
    behind :
        (f g h : FileInfo) (hs : List FileInfo)
        → name_lt h.name g.name ≡ false
        → name_lt f.name g.name ≡ false
        → IsSortedByName (insert_by_name f (h ∷ hs))
        → IsSortedByName (g ∷ insert_by_name f (h ∷ hs))
    behind f g h hs first after s = elim (Bool-cases (name_lt h.name f.name)) [
      | inl e ↦ rw e (first, rw e at s)
      | inr e ↦ rw e (after, rw e at s)
    ]

pub sort_by_name-IsSortedByName : (fs : List FileInfo) → IsSortedByName (sort_by_name fs)
unfolding sort_by_name
sort_by_name-IsSortedByName [] = tt
sort_by_name-IsSortedByName (f ∷ fs) =
    insert-IsSortedByName f (sort_by_name fs) (sort_by_name-IsSortedByName fs)

insert-perm : (f : FileInfo) (gs : List FileInfo) → Perm (insert_by_name f gs) (f ∷ gs)
unfolding insert_by_name
insert-perm f [] = Perm.refl _
insert-perm f (g ∷ gs) = elim (Bool-cases (name_lt g.name f.name)) [
  | inl e ↦ rw e (Perm.trans (Perm.cons g (insert-perm f gs)) (Perm.swap f g gs))
  | inr e ↦ rw e (Perm.refl _)
]

pub sort_by_name-perm : (fs : List FileInfo) → Perm (sort_by_name fs) fs
unfolding sort_by_name
sort_by_name-perm [] = Perm.refl _
sort_by_name-perm (f ∷ fs) =
    Perm.trans (insert-perm f (sort_by_name fs)) (Perm.cons f (sort_by_name-perm fs))

mem-insert_by_name_of :
    (x p : FileInfo) (ps : List FileInfo) → (x ≡ p) ⊎ Memᴰ x ps → Memᴰ x (insert_by_name p ps)
unfolding insert_by_name
mem-insert_by_name_of x p [] (inl e) = Memᴰ.head e
mem-insert_by_name_of x p [] (inr m) = elim m [ ]
mem-insert_by_name_of x p (q ∷ qs) h = elim (Bool-cases (name_lt q.name p.name)) [
  | inr e ↦ rw e (elim h [ inl same ↦ Memᴰ.head same | inr m ↦ Memᴰ.tail m ])
  | inl e ↦ rw e (mem-later x p q qs (mem-insert_by_name_of x p qs) h)
]
  where
    mem-later :
        (x p q : FileInfo) (qs : List FileInfo)
        → ((x ≡ p) ⊎ Memᴰ x qs → Memᴰ x (insert_by_name p qs))
        → (x ≡ p) ⊎ Memᴰ x (q ∷ qs)
        → Memᴰ x (q ∷ insert_by_name p qs)
    mem-later x p q qs later (inl same) = Memᴰ.tail (later (inl same))
    mem-later x p q qs later (inr (Memᴰ.head e)) = Memᴰ.head e
    mem-later x p q qs later (inr (Memᴰ.tail m)) = Memᴰ.tail (later (inr m))

of_mem-insert_by_name :
    (x p : FileInfo) (ps : List FileInfo) → Memᴰ x (insert_by_name p ps) → (x ≡ p) ⊎ Memᴰ x ps
unfolding insert_by_name
of_mem-insert_by_name x p [] (Memᴰ.head e) = inl e
of_mem-insert_by_name x p [] (Memᴰ.tail m) = inr m
of_mem-insert_by_name x p (q ∷ qs) m = elim (Bool-cases (name_lt q.name p.name)) [
  | inr e ↦ split-cons x p (q ∷ qs) (rw e at m)
  | inl e ↦ mem-later x p q qs (of_mem-insert_by_name x p qs) (rw e at m)
]
  where
    split-cons : (x p : FileInfo) (ps : List FileInfo) → Memᴰ x (p ∷ ps) → (x ≡ p) ⊎ Memᴰ x ps
    split-cons x p ps (Memᴰ.head e) = inl e
    split-cons x p ps (Memᴰ.tail m) = inr m

    mem-later :
        (x p q : FileInfo) (qs : List FileInfo)
        → (Memᴰ x (insert_by_name p qs) → (x ≡ p) ⊎ Memᴰ x qs)
        → Memᴰ x (q ∷ insert_by_name p qs)
        → (x ≡ p) ⊎ Memᴰ x (q ∷ qs)
    mem-later x p q qs later (Memᴰ.head e) = inr (Memᴰ.head e)
    mem-later x p q qs later (Memᴰ.tail m) = elim (later m) [
      | inl same ↦ inl same
      | inr m' ↦ inr (Memᴰ.tail m')
    ]

pub mem-sort_by_name_of : (x : FileInfo) (ps : List FileInfo) → Memᴰ x ps → Memᴰ x (sort_by_name ps)
unfolding sort_by_name
mem-sort_by_name_of x [] m = m
mem-sort_by_name_of x (p ∷ ps) (Memᴰ.head e) = mem-insert_by_name_of x p (sort_by_name ps) (inl e)
mem-sort_by_name_of x (p ∷ ps) (Memᴰ.tail m) =
    mem-insert_by_name_of x p (sort_by_name ps) (inr (mem-sort_by_name_of x ps m))

pub of_mem-sort_by_name : (x : FileInfo) (ps : List FileInfo) → Memᴰ x (sort_by_name ps) → Memᴰ x ps
unfolding sort_by_name
of_mem-sort_by_name x [] m = m
of_mem-sort_by_name x (p ∷ ps) m = elim (of_mem-insert_by_name x p (sort_by_name ps) m) [
  | inl e ↦ Memᴰ.head e
  | inr later ↦ Memᴰ.tail (of_mem-sort_by_name x ps later)
]

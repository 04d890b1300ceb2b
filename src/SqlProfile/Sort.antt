-- ===== src/SqlProfile/Sort.antt =====
-- `sort.Slice` by the time of creation. Go leaves the order of equal times open; here a profile
-- goes in front of those that are not created before it.
use mathlib.Core.List.{Perm, Memᴰ}
use mathlib.Core.List.Perm
use modern_mcs.Prelude.{
  ℕ, ◌≤◌, ◌≡◌, ◌⊎◌, List, [], ◌∷◌, arith, ltb, Bool-cases, inl, inr, if◌then◌else◌,
}
use modern_mcs.SqlProfile.Types.{Profile}

unfoldable pub insert_by_created : Profile → List Profile → List Profile
insert_by_created p [] = p ∷ []
insert_by_created p (q ∷ qs) =
    if ltb q.created_at p.created_at then q ∷ insert_by_created p qs else p ∷ q ∷ qs

unfoldable pub sort_by_created : List Profile → List Profile
unfolding insert_by_created
sort_by_created [] = []
sort_by_created (p ∷ ps) = insert_by_created p (sort_by_created ps)

-- No profile stands in front of one that was created before it.
abbrev pub IsBelow : ℕ → List Profile → Type 0
IsBelow n [] = Unit
IsBelow n (p ∷ ps) = (n ≤ p.created_at) × IsBelow n ps

abbrev pub IsSortedByCreated : List Profile → Type 0
IsSortedByCreated [] = Unit
IsSortedByCreated (p ∷ ps) = IsBelow p.created_at ps × IsSortedByCreated ps

IsBelow-le : (m n : ℕ) (ps : List Profile) → m ≤ n → IsBelow n ps → IsBelow m ps
IsBelow-le m n [] h b = tt
IsBelow-le m n (p ∷ ps) h (here, b) = (omega arith, IsBelow-le m n ps h b)

insert-IsBelow :
    (n : ℕ) (p : Profile) (ps : List Profile)
    → n ≤ p.created_at
    → IsBelow n ps
    → IsBelow n (insert_by_created p ps)
unfolding insert_by_created
insert-IsBelow n p [] h b = (h, tt)
insert-IsBelow n p (q ∷ qs) h (here, b) = elim (Bool-cases (ltb q.created_at p.created_at)) [
  | inl e ↦ rw e (here, insert-IsBelow n p qs h b)
  | inr e ↦ rw e (h, (here, b))
]

insert-IsSortedByCreated :
    (p : Profile) (ps : List Profile)
    → IsSortedByCreated ps
    → IsSortedByCreated (insert_by_created p ps)
unfolding insert_by_created
insert-IsSortedByCreated p [] s = (tt, tt)
insert-IsSortedByCreated p (q ∷ qs) (b, s) = elim (Bool-cases (ltb q.created_at p.created_at)) [
  | inl e ↦
      rw e (insert-IsBelow q.created_at p qs (ground arith) b, insert-IsSortedByCreated p qs s)
  | inr e ↦ rw e ((ground arith, IsBelow-le p.created_at q.created_at qs (ground arith) b), (b, s))
]

pub sort_by_created-IsSortedByCreated : (ps : List Profile) → IsSortedByCreated (sort_by_created ps)
unfolding sort_by_created
sort_by_created-IsSortedByCreated [] = tt
sort_by_created-IsSortedByCreated (p ∷ ps) =
    insert-IsSortedByCreated p (sort_by_created ps) (sort_by_created-IsSortedByCreated ps)

insert-perm : (p : Profile) (ps : List Profile) → Perm (insert_by_created p ps) (p ∷ ps)
unfolding insert_by_created
insert-perm p [] = Perm.refl _
insert-perm p (q ∷ qs) = elim (Bool-cases (ltb q.created_at p.created_at)) [
  | inl e ↦ rw e (Perm.trans (Perm.cons q (insert-perm p qs)) (Perm.swap p q qs))
  | inr e ↦ rw e (Perm.refl _)
]

pub sort_by_created-perm : (ps : List Profile) → Perm (sort_by_created ps) ps
unfolding sort_by_created
sort_by_created-perm [] = Perm.refl _
sort_by_created-perm (p ∷ ps) =
    Perm.trans (insert-perm p (sort_by_created ps)) (Perm.cons p (sort_by_created-perm ps))

mem-insert_by_created_of :
    (x p : Profile) (ps : List Profile) → (x ≡ p) ⊎ Memᴰ x ps → Memᴰ x (insert_by_created p ps)
unfolding insert_by_created
mem-insert_by_created_of x p [] (inl e) = Memᴰ.head e
mem-insert_by_created_of x p [] (inr m) = elim m [ ]
mem-insert_by_created_of x p (q ∷ qs) h = elim (Bool-cases (ltb q.created_at p.created_at)) [
  | inr e ↦ rw e (elim h [ inl same ↦ Memᴰ.head same | inr m ↦ Memᴰ.tail m ])
  | inl e ↦ rw e (mem-later x p q qs (mem-insert_by_created_of x p qs) h)
]
  where
    mem-later :
        (x p q : Profile) (qs : List Profile)
        → ((x ≡ p) ⊎ Memᴰ x qs → Memᴰ x (insert_by_created p qs))
        → (x ≡ p) ⊎ Memᴰ x (q ∷ qs)
        → Memᴰ x (q ∷ insert_by_created p qs)
    mem-later x p q qs later (inl same) = Memᴰ.tail (later (inl same))
    mem-later x p q qs later (inr (Memᴰ.head e)) = Memᴰ.head e
    mem-later x p q qs later (inr (Memᴰ.tail m)) = Memᴰ.tail (later (inr m))

of_mem-insert_by_created :
    (x p : Profile) (ps : List Profile) → Memᴰ x (insert_by_created p ps) → (x ≡ p) ⊎ Memᴰ x ps
unfolding insert_by_created
of_mem-insert_by_created x p [] (Memᴰ.head e) = inl e
of_mem-insert_by_created x p [] (Memᴰ.tail m) = inr m
of_mem-insert_by_created x p (q ∷ qs) m = elim (Bool-cases (ltb q.created_at p.created_at)) [
  | inr e ↦ split-cons x p (q ∷ qs) (rw e at m)
  | inl e ↦ mem-later x p q qs (of_mem-insert_by_created x p qs) (rw e at m)
]
  where
    split-cons : (x p : Profile) (ps : List Profile) → Memᴰ x (p ∷ ps) → (x ≡ p) ⊎ Memᴰ x ps
    split-cons x p ps (Memᴰ.head e) = inl e
    split-cons x p ps (Memᴰ.tail m) = inr m

    mem-later :
        (x p q : Profile) (qs : List Profile)
        → (Memᴰ x (insert_by_created p qs) → (x ≡ p) ⊎ Memᴰ x qs)
        → Memᴰ x (q ∷ insert_by_created p qs)
        → (x ≡ p) ⊎ Memᴰ x (q ∷ qs)
    mem-later x p q qs later (Memᴰ.head e) = inr (Memᴰ.head e)
    mem-later x p q qs later (Memᴰ.tail m) = elim (later m) [
      | inl same ↦ inl same
      | inr m' ↦ inr (Memᴰ.tail m')
    ]

pub mem-sort_by_created_of :
    (x : Profile) (ps : List Profile) → Memᴰ x ps → Memᴰ x (sort_by_created ps)
unfolding sort_by_created
mem-sort_by_created_of x [] m = m
mem-sort_by_created_of x (p ∷ ps) (Memᴰ.head e) =
    mem-insert_by_created_of x p (sort_by_created ps) (inl e)
mem-sort_by_created_of x (p ∷ ps) (Memᴰ.tail m) =
    mem-insert_by_created_of x p (sort_by_created ps) (inr (mem-sort_by_created_of x ps m))

pub of_mem-sort_by_created :
    (x : Profile) (ps : List Profile) → Memᴰ x (sort_by_created ps) → Memᴰ x ps
unfolding sort_by_created
of_mem-sort_by_created x [] m = m
of_mem-sort_by_created x (p ∷ ps) m = elim (of_mem-insert_by_created x p (sort_by_created ps) m) [
  | inl e ↦ Memᴰ.head e
  | inr later ↦ Memᴰ.tail (of_mem-sort_by_created x ps later)
]

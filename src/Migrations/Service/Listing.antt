-- ===== src/Migrations/Service/Listing.antt =====
-- What `List` and `Status` of the migration service return.
use mathlib.Core.List.{Memᴰ}
use Prim.Native.String
use modern_mcs.Prelude.{
  ℕ, String, ◌≡◌, refl, sym, ap, subst, ◌∙◌, ◌⊎◌, ◌↔◌, inl, inr, true, false, arith, List, [], ◌∷◌,
  map, none, some, ok, err, Result-cases, Option-cases, Bool-cases,
}
use modern_mcs.Text.Hex.{encode_to_string}
use modern_mcs.Migrations.Types.{
  FileInfo, Status, AppliedState, AppliedStore, DirEntry, Directory, Error, message,
}
use modern_mcs.Migrations.Sort.{
  sort_by_name, IsSortedByName, sort_by_name-IsSortedByName, mem-sort_by_name_of,
  of_mem-sort_by_name,
}
use modern_mcs.Migrations.Service.{file_sha256, is_skipped, collect, list, status_of, status}

module _ (sum256 : List ℕ → List ℕ) (dir : Directory) where
  -- A file that an entry of the directory gives rise to.
  abbrev pub IsFileOf : FileInfo → DirEntry → Type 0
  IsFileOf f e =
      (is_skipped e ≡ false) × (f.name ≡ e.name) × (file_sha256 sum256 dir e.name ≡ some f.checksum)

  collect_cases :
      (e : DirEntry) (es : List DirEntry) (fs : List FileInfo)
      → collect sum256 dir (e ∷ es) ≡ ok fs
      → ((is_skipped e ≡ true) × (collect sum256 dir es ≡ ok fs))
        ⊎ ((sum : String) × (rest : List FileInfo) × (is_skipped e ≡ false)
            × (file_sha256 sum256 dir e.name ≡ some sum)
            × (collect sum256 dir es ≡ ok rest)
            × (record { name = e.name; checksum = sum } ∷ rest ≡ fs))
  unfolding collect
  collect_cases e es fs h = elim (Bool-cases (is_skipped e)) [
    | inl skip ↦ inl (skip, rw skip at h)
    | inr kept ↦ elim (Option-cases (file_sha256 sum256 dir e.name)) [
      | inl fails ↦ let bad = rw (kept, fails) at h in cc
      | inr (sum, summed) ↦ elim (Result-cases (collect sum256 dir es)) [
        | inr (e', failed) ↦ let bad = rw (kept, summed, failed) at h in cc
        | inl (rest, collected) ↦
            inr (
              sum,
              rest,
              kept,
              summed,
              collected,
              ground (arith, rw (kept, summed, collected) at h),
            )
      ]
    ]
  ]

  of_mem-collect :
      (f : FileInfo) (es : List DirEntry) (fs : List FileInfo)
      → collect sum256 dir es ≡ ok fs
      → Memᴰ f fs
      → (e : DirEntry) × Memᴰ e es × IsFileOf f e
  unfolding collect
  of_mem-collect f [] fs h m =
      let none_left : Memᴰ f [] = subst (Memᴰ f) (ground arith) m in elim none_left [ ]
  of_mem-collect f (e ∷ es) fs h m = elim (collect_cases e es fs h) [
    | inl (skip, later) ↦
        let (e', m', is_file) = of_mem-collect f es fs later m in (e', Memᴰ.tail m', is_file)
    | inr (sum, rest, kept, summed, later, same) ↦ elim (subst (Memᴰ f) (sym same) m) [
      | Memᴰ.head at ↦ (
        e,
        Memᴰ.head refl,
        (kept, ap (λ g. g.name) at, summed ∙ ap (λ g. some g.checksum) (sym at)),
      )
      | Memᴰ.tail m' ↦
          let (e', m'', is_file) = of_mem-collect f es rest later m' in (e', Memᴰ.tail m'', is_file)
    ]
  ]

  mem-collect :
      (f : FileInfo) (e : DirEntry) (es : List DirEntry) (fs : List FileInfo)
      → collect sum256 dir es ≡ ok fs
      → Memᴰ e es
      → IsFileOf f e
      → Memᴰ f fs
  mem-collect f e [] fs h m is_file = elim m [ ]
  mem-collect f e (d ∷ es) fs h m is_file = elim (collect_cases d es fs h) [
    | inl (skip, later) ↦ elim m [
      | Memᴰ.head at ↦ let bad : ⊥ = ground (arith, at, skip, is_file) in absurd bad
      | Memᴰ.tail m' ↦ mem-collect f e es fs later m' is_file
    ]
    | inr (sum, rest, kept, summed, later, same) ↦ elim m [
      | Memᴰ.head at ↦ subst (Memᴰ f) same (Memᴰ.head (ground (arith, at, summed, is_file)))
      | Memᴰ.tail m' ↦ subst (Memᴰ f) same (Memᴰ.tail (mem-collect f e es rest later m' is_file))
    ]
  ]

  list_cases :
      (fs : List FileInfo)
      → list sum256 dir ≡ ok fs
      → (es : List DirEntry) × (found : List FileInfo) × (dir.entries ≡ some es)
        × (collect sum256 dir es ≡ ok found)
        × (sort_by_name found ≡ fs)
  unfolding list
  list_cases fs h = elim (Option-cases dir.entries) [
    | inl fails ↦ let bad = rw (fails, list) at h in cc
    | inr (es, read) ↦ elim (Result-cases (collect sum256 dir es)) [
      | inr (e, failed) ↦ let bad = rw (read, failed, list) at h in cc
      | inl (found, collected) ↦
          (es, found, read, collected, ground (arith, rw (read, collected, list) at h))
    ]
  ]

  -- Where `List` succeeds, its files are in the order of their names, and they are exactly those of
  -- the entries of the directory that are no directories and end in `.sql`, each with the checksum of
  -- its content.
  pub list_ok :
      (fs : List FileInfo)
      → list sum256 dir ≡ ok fs
      → (es : List DirEntry) × (dir.entries ≡ some es)
        × IsSortedByName fs
        × ((f : FileInfo) → Memᴰ f fs ↔ ((e : DirEntry) × Memᴰ e es × IsFileOf f e))
  list_ok fs h =
      let (es, found, read, collected, sorted) = list_cases fs h in
      (
        es,
        read,
        subst IsSortedByName sorted (sort_by_name-IsSortedByName found),
        λ f. (
          λ m.
              of_mem-collect f es found collected
                (of_mem-sort_by_name f found (subst (Memᴰ f) (sym sorted) m)),
          λ (e, m, is_file).
              subst (Memᴰ f) sorted
                (mem-sort_by_name_of f found (mem-collect f e es found collected m is_file)),
        ),
      )

  abbrev IsUnreadable : List DirEntry → Type 0
  IsUnreadable es =
      (e : DirEntry) × Memᴰ e es × (is_skipped e ≡ false) × (dir.content e.name ≡ none)

  collect_total :
      (es : List DirEntry)
      → ((fs : List FileInfo) × (collect sum256 dir es ≡ ok fs))
        ⊎ (((e : Error) × (collect sum256 dir es ≡ err e)) × IsUnreadable es)
  unfolding collect file_sha256
  collect_total [] = inl ([], refl)
  collect_total (e ∷ es) = elim (Bool-cases (is_skipped e)) [
    | inl skip ↦ elim (collect_total es) [
      | inl (fs, collected) ↦ inl (fs, rw skip collected)
      | inr ((e', failed), (d, m, k, why)) ↦ inr ((e', rw skip failed), (d, Memᴰ.tail m, k, why))
    ]
    | inr kept ↦ elim (Option-cases (dir.content e.name)) [
      | inl gone ↦ inr (
        (message (String.◌++◌ "hash migration " e.name), rw (kept, gone, file_sha256) refl),
        (e, Memᴰ.head refl, kept, gone),
      )
      | inr (b, found) ↦ elim (collect_total es) [
        | inl (fs, collected) ↦ inl (
          record { name = e.name; checksum = encode_to_string (sum256 b) } ∷ fs,
          rw (kept, found, collected, file_sha256) refl,
        )
        | inr ((e', failed), (d, m, k, why)) ↦
            inr ((e', rw (kept, found, failed, file_sha256) refl), (d, Memᴰ.tail m, k, why))
      ]
    ]
  ]

  collect_unreadable :
      (e : DirEntry) (es : List DirEntry) (fs : List FileInfo)
      → collect sum256 dir es ≡ ok fs
      → Memᴰ e es
      → is_skipped e ≡ false
      → dir.content e.name ≡ none
      → ⊥
  unfolding file_sha256
  collect_unreadable e [] fs h m kept gone = elim m [ ]
  collect_unreadable e (d ∷ es) fs h m kept gone = elim (collect_cases d es fs h) [
    | inl (skip, later) ↦ elim m [
      | Memᴰ.head at ↦ ground (arith, at, skip, kept)
      | Memᴰ.tail m' ↦ collect_unreadable e es fs later m' kept gone
    ]
    | inr (sum, rest, kept', summed, later, same) ↦ elim m [
      | Memᴰ.head at ↦ ground (arith, at, summed, gone)
      | Memᴰ.tail m' ↦ collect_unreadable e es rest later m' kept gone
    ]
  ]

  -- `List` fails exactly where the directory cannot be read, or the content of one of its `.sql`
  -- files cannot.
  pub list_error : ((e : Error) × (list sum256 dir ≡ err e)) ↔ (
      (dir.entries ≡ none)
      ⊎ ((es : List DirEntry) × (dir.entries ≡ some es)
          × ((e : DirEntry) × Memᴰ e es × (is_skipped e ≡ false) × (dir.content e.name ≡ none))))
  unfolding list
  list_error = (
    λ (e, h). elim (Option-cases dir.entries) [
      | inl fails ↦ inl fails
      | inr (es, read) ↦ elim (collect_total es) [
        | inl (fs, collected) ↦ let bad = rw (read, collected, list) at h in cc
        | inr ((_, _), unreadable) ↦ inr (es, read, unreadable)
      ]
    ],
    λ h. elim h [
      | inl fails ↦ (message "read migrations dir", rw fails refl)
      | inr (es, read, (d, m, kept, gone)) ↦ elim (Result-cases (collect sum256 dir es)) [
        | inr (e, failed) ↦ (e, rw (read, list) (rw failed refl))
        | inl (fs, collected) ↦ absurd (collect_unreadable d es fs collected m kept gone)
      ]
    ],
  )

  module _ {S : Type 0} (store : AppliedStore S) where
    pub status_cases :
        (s : S) (st : List Status)
        → status sum256 dir store s ≡ ok st
        → (fs : List FileInfo) × (applied : AppliedState) × (list sum256 dir ≡ ok fs)
          × (store.load s ≡ ok applied)
          × (map (status_of sum256 dir applied) fs ≡ st)
    unfolding status
    status_cases s st h = elim (Result-cases (list sum256 dir)) [
      | inr (e, failed) ↦ let bad = rw (failed, status) at h in cc
      | inl (fs, listed) ↦ elim (Result-cases (store.load s)) [
        | inr (e, failed) ↦ let bad = rw (listed, failed, status) at h in cc
        | inl (applied, loaded) ↦
            (fs, applied, listed, loaded, ground (arith, rw (listed, loaded, status) at h))
      ]
    ]

    pub status_ok :
        (s : S) (fs : List FileInfo) (applied : AppliedState)
        → list sum256 dir ≡ ok fs
        → store.load s ≡ ok applied
        → status sum256 dir store s ≡ ok (map (status_of sum256 dir applied) fs)
    unfolding status
    status_ok s fs applied listed loaded = rw (listed, loaded, status) refl

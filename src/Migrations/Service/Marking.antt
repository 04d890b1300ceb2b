-- ===== src/Migrations/Service/Marking.antt =====
-- What `MarkApplied` of the migration service does, and what `Status` reports afterwards.
use modern_mcs.Prelude.{
  ℕ, String, ◌≡◌, refl, sym, ap, ◌∙◌, ◌⊎◌, inl, inr, Bool, true, false, not, ◌||◌, arith, List, [],
  ◌∷◌, map, some, ok, err, Bool-cases, ◌==◌, eq_iff, if◌then◌else◌,
}
use modern_mcs.Text.{trim_space, has_suffix, contains_char}
use modern_mcs.Dict.{lookup}
use modern_mcs.Migrations.Types.{
  FileInfo, Status, AppliedState, AppliedStore, Directory, Stat, invalid_name, does_not_exist,
  message,
}
use modern_mcs.Migrations.Store.{IsAppliedStore}
use modern_mcs.Migrations.Service.Listing.{status_cases, status_ok}
use modern_mcs.Migrations.Service.{status_of, status, mark_applied}

-- A name that `MarkApplied` takes for one of a migration.
abbrev pub is_migration_name : String → Bool
is_migration_name name = not (name == "" || not (has_suffix name ".sql") || contains_char name b'/')

-- The status of a file after the name was marked at a time.
abbrev pub marked : String → String → Status → Status
marked name at st = if name == st.name then record st { applied = true; applied_at = at } else st

Stat-cases : (st : Stat) → (st ≡ Stat.not_exist) ⊎ (st ≡ Stat.failed) ⊎ (st ≡ Stat.exists)
Stat-cases Stat.not_exist = inl refl
Stat-cases Stat.failed = inr (inl refl)
Stat-cases Stat.exists = inr (inr refl)

status_of-marked :
    (sum256 : List ℕ → List ℕ) (dir : Directory) (name at : String) (before after : AppliedState)
    → ((k : String) → lookup k after ≡ (if name == k then some at else lookup k before))
    → (fs : List FileInfo)
    → map (status_of sum256 dir after) fs
      ≡ map (marked name at) (map (status_of sum256 dir before) fs)
status_of-marked sum256 dir name at before after changed [] = refl
status_of-marked sum256 dir name at before after changed (f ∷ fs) = ground (
  arith,
  eq_iff name f.name,
  changed f.name,
  status_of-marked sum256 dir name at before after changed fs,
)

module _ (sum256 : List ℕ → List ℕ) (dir : Directory) {S : Type 0} (store : AppliedStore S)
    (given : String) (at : ℕ) (s : S) where
  -- `MarkApplied` succeeds only for the trimmed name of a migration that exists, and then it is
  -- `SetApplied` of that name; on every other branch the store is not touched, and the error is the
  -- one that the name, or the answer of `os.Stat`, calls for.
  pub mark_applied_cases :
      ((is_migration_name (trim_space given) ≡ false)
        × (mark_applied sum256 dir store given at s ≡ (err invalid_name, s)))
      ⊎ ((is_migration_name (trim_space given) ≡ true)
          × (dir.stat (trim_space given) ≡ Stat.not_exist)
          × (mark_applied sum256 dir store given at s ≡ (err does_not_exist, s)))
      ⊎ ((is_migration_name (trim_space given) ≡ true)
          × (dir.stat (trim_space given) ≡ Stat.failed)
          × (mark_applied sum256 dir store given at s ≡ (err (message "stat migration"), s)))
      ⊎ ((is_migration_name (trim_space given) ≡ true)
          × (dir.stat (trim_space given) ≡ Stat.exists)
          × (mark_applied sum256 dir store given at s ≡ store.set_applied s (trim_space given) at))
  unfolding mark_applied
  mark_applied_cases = elim (Bool-cases (is_migration_name (trim_space given))) [
    | inr bad ↦ inl (bad, ground arith)
    | inl good ↦ inr (elim (Stat-cases (dir.stat (trim_space given))) [
      | inl absent ↦ inl (good, absent, ground arith)
      | inr (inl fails) ↦ inr (inl (good, fails, ground arith))
      | inr (inr there) ↦ inr (inr (good, there, ground arith))
    ])
  ]

  module _ {format : ℕ → String} {Valid : S → Type 0}
      (sound : IsAppliedStore store format Valid) where
    -- Over a store that keeps its promise: after `MarkApplied` has succeeded, `Status` reports what it reported before, except that the
    -- file of the trimmed name is applied at the given time.
    pub status-mark_applied :
        (before : List Status)
        → Valid s
        → status sum256 dir store s ≡ ok before
        → (mark_applied sum256 dir store given at s).0 ≡ ok tt
        → status sum256 dir store (mark_applied sum256 dir store given at s).1
          ≡ ok (map (marked (trim_space given) (format at)) before)
    status-mark_applied before valid reported h = elim mark_applied_cases [
      | inl (bad, refused) ↦ let no = rw refused at h in cc
      | inr (inl (good, absent, refused)) ↦ let no = rw refused at h in cc
      | inr (inr (inl (good, fails, refused))) ↦ let no = rw refused at h in cc
      | inr (inr (inr (good, there, set))) ↦
          let (fs, applied, listed, loaded, mapped) =
            status_cases sum256 dir store s before reported in
          let (old, new, loaded', loaded_new, changed) =
            sound.load-set_applied s (trim_space given) at valid (rw set at h) in
          let same : applied ≡ old = ground (arith, loaded, loaded') in
          rw set (
            status_ok sum256 dir store (store.set_applied s (trim_space given) at).1 fs new listed
              loaded_new
            ∙ ap ok (
                status_of-marked sum256 dir (trim_space given) (format at) old new changed fs
                ∙ ap
                    (λ a.
                      map (marked (trim_space given) (format at)) (map (status_of sum256 dir a) fs))
                    (sym same)
                ∙ ap (map (marked (trim_space given) (format at))) mapped))
    ]

-- ===== src/SqlProfile/Service/Writes.antt =====
-- What `Create`, `Update` and `Delete` do to each id, and that a failure changes no profile.
use modern_mcs.Prelude.{
  ℕ, String, ◌≡◌, refl, ap, sym, ◌∙◌, ◌⊎◌, inl, inr, arith, List, [], ◌∷◌, Option, none, some, ok,
  err, Result-cases, Option-cases, ◌==◌, if◌then◌else◌,
}
use modern_mcs.Dict.{Dict, lookup, insert, erase}
use modern_mcs.Dict.Laws.{lookup-insert, lookup-erase}
use modern_mcs.Codec.{Codec}
use modern_mcs.SqlProfile.Types.{Profile, Error, not_found, message}
use modern_mcs.SqlProfile.Service.{
  Service, validate, generate_id, clone_profiles, new_profile, merge_profile, persist_locked,
  commit, create, update, delete,
}

clone_profiles-eq : (d : Dict Profile) → clone_profiles d ≡ d
unfolding clone_profiles
clone_profiles-eq [] = refl
clone_profiles-eq ((k, v) ∷ d) = rw (clone_profiles-eq d)

module _ {B : Type 0} (json : Codec (List Profile) B) where
  profiles-persist_locked : (s : Service B) → (persist_locked json s).1.profiles ≡ s.profiles
  unfolding persist_locked
  profiles-persist_locked s = ground arith

  module _ {A : Type 0} (a : A) (changed : Dict Profile) (s : Service B) where
    pub commit_ok :
        (x : A)
        → (commit json a changed s).0 ≡ ok x
        → (x ≡ a)
          × ((commit json a changed s).1.profiles ≡ changed)
          × ((persist_locked json (record s { profiles = changed })).0 ≡ ok tt)
          × ((commit json a changed s).1
              ≡ (persist_locked json (record s { profiles = changed })).1)
    unfolding commit
    commit_ok x h = ground (arith, profiles-persist_locked (record s { profiles = changed }))

    pub commit_err :
        (e : Error)
        → (commit json a changed s).0 ≡ err e
        → (commit json a changed s).1.profiles ≡ s.profiles
    unfolding commit
    commit_err e h = ground (arith, clone_profiles-eq s.profiles)

    -- An error of a commit is the error of its write.
    pub persist_locked-commit :
        (e : Error)
        → (commit json a changed s).0 ≡ err e
        → (persist_locked json (record s { profiles = changed })).0 ≡ err e
    unfolding commit
    persist_locked-commit e h = ground arith

  module _ (now : ℕ) (random : Option (List ℕ)) (p : Profile) (s : Service B) where
    pub create_cases :
        ((e : Error) × (create json now random p s ≡ (err e, s)))
        ⊎ ((validate p ≡ ok tt)
            × (id : String) × (generate_id 12 random ≡ ok id)
            × (create json now random p s
                ≡ commit json
                    (new_profile id now p)
                    (insert id (new_profile id now p) s.profiles)
                    s))
    unfolding create
    create_cases = elim (Result-cases (validate p)) [
      | inr (e, invalid) ↦ inl (e, rw (invalid, create))
      | inl (_, valid) ↦ elim (Result-cases (generate_id 12 random)) [
        | inr (e, failed) ↦ inl (message "generate id", rw (valid, create) (rw (failed, create)))
        | inl (id, made) ↦ inr (valid, id, made, rw (valid, create) (rw (made, create)))
      ]
    ]

    -- A profile that was created is the valid input in its normal form, under a fresh id and with
    -- both times now; afterwards that id has it, and every other id has what it had.
    pub create_ok :
        (q : Profile)
        → (create json now random p s).0 ≡ ok q
        → (validate p ≡ ok tt)
          × (generate_id 12 random ≡ ok q.id)
          × (q ≡ new_profile q.id now p)
          × ((id : String)
              → lookup id (create json now random p s).1.profiles
                ≡ (if q.id == id then some q else lookup id s.profiles))
    unfolding new_profile
    create_ok q h = elim create_cases [
      | inl (e, refused) ↦ cc
      | inr (valid, id, made, commits) ↦
          let (same, after, _, _) = commit_ok _ _ s q (rw commits at h) in
          let same_id : q.id ≡ id = ap (λ (x : Profile). x.id) same in
          (
            valid,
            made ∙ ap ok (sym same_id),
            same ∙ ap (λ (i : String). new_profile i now p) (sym same_id),
            λ k. rw commits (rw (after, lookup-insert, same)),
          )
    ]

  module _ (now : ℕ) (id : String) (p : Profile) (s : Service B) where
    pub update_cases :
        ((e : Error) × (update json now id p s ≡ (err e, s)))
        ⊎ ((validate p ≡ ok tt)
            × (existing : Profile) × (lookup id s.profiles ≡ some existing)
            × (update json now id p s
                ≡ commit json
                    (merge_profile now p existing)
                    (insert id (merge_profile now p existing) s.profiles)
                    s))
    unfolding update
    update_cases = elim (Result-cases (validate p)) [
      | inr (e, invalid) ↦ inl (e, rw (invalid, update))
      | inl (_, valid) ↦ elim (Option-cases (lookup id s.profiles)) [
        | inl absent ↦ inl (not_found, rw (valid, update) (rw (absent, update)))
        | inr (existing, found) ↦
            inr (valid, existing, found, rw (valid, update) (rw (found, update)))
      ]
    ]

    -- A profile that was updated keeps its id and its time of creation and takes the rest from the
    -- valid input; afterwards its id has it, and every other id has what it had.
    pub update_ok :
        (q : Profile)
        → (update json now id p s).0 ≡ ok q
        → (validate p ≡ ok tt)
          × (existing : Profile) × (lookup id s.profiles ≡ some existing)
          × (q ≡ record (new_profile existing.id now p) { created_at = existing.created_at })
          × ((k : String)
              → lookup k (update json now id p s).1.profiles
                ≡ (if id == k then some q else lookup k s.profiles))
    unfolding merge_profile new_profile
    update_ok q h = elim update_cases [
      | inl (e, refused) ↦ cc
      | inr (valid, existing, found, commits) ↦
          let (same, after, _, _) = commit_ok _ _ s q (rw commits at h) in
          (valid, existing, found, same, λ k. rw commits (rw (after, lookup-insert, same)))
    ]

  module _ (id : String) (s : Service B) where
    pub delete_cases :
        (delete json id s ≡ (err not_found, s))
        ⊎ ((existing : Profile) × (lookup id s.profiles ≡ some existing)
            × (delete json id s ≡ commit json tt (erase id s.profiles) s))
    unfolding delete
    delete_cases = elim (Option-cases (lookup id s.profiles)) [
      | inl absent ↦ inl (rw (absent, delete))
      | inr (existing, found) ↦ inr (existing, found, rw (found, delete))
    ]

    -- A delete that succeeds had a profile under the id, and takes it away and no other.
    pub delete_ok :
        (delete json id s).0 ≡ ok tt
        → (existing : Profile) × (lookup id s.profiles ≡ some existing)
          × ((k : String)
              → lookup k (delete json id s).1.profiles
                ≡ (if id == k then none else lookup k s.profiles))
    delete_ok h = elim delete_cases [
      | inl refused ↦ let bad = rw refused at h in cc
      | inr (existing, found, commits) ↦
          let (_, after, _, _) = commit_ok tt (erase id s.profiles) s tt (rw commits at h) in
          (existing, found, λ k. rw commits (rw (after, lookup-erase)))
    ]

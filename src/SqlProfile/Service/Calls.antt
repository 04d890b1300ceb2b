-- ===== src/SqlProfile/Service/Calls.antt =====
-- The calls that change profiles, as one type, and what holds over any history of them.
use modern_mcs.Prelude.{
  ℕ, String, ◌≡◌, refl, inl, inr, arith, List, [], ◌∷◌, Option, none, some, Result, ok, err,
  Result-cases, eq_iff,
}
use modern_mcs.Dict.{Dict, lookup, insert, erase}
use modern_mcs.Dict.Laws.{
  lookup-insert, lookup-erase, HasDistinctKeys, insert-HasDistinctKeys, erase-HasDistinctKeys,
}
use modern_mcs.Codec.{Codec}
use modern_mcs.SqlProfile.Types.{Profile, Error}
use modern_mcs.SqlProfile.Service.{
  Service, validate, new_profile, merge_profile, commit, create, update, delete,
}
use modern_mcs.SqlProfile.Service.Valid.{validate-new_profile, validate-merge_profile}
use modern_mcs.SqlProfile.Service.Writes.{
  commit_ok, commit_err, create_cases, update_cases, delete_cases,
}

pub data Call : Type 0 where
  creates : ℕ → Option (List ℕ) → Profile → Call
  updates : ℕ → String → Profile → Call
  deletes : String → Call

-- Whether a call failed, and with which error.
abbrev pub error_of {ℓ} : {A : Type ℓ} → Result Error A → Option Error
error_of (ok a) = none
error_of (err e) = some e

-- What an id has: a profile that is valid and stands under its own id.
pub record IsProfileMap (d : Dict Profile) : Type 0 where
  pub distinct : HasDistinctKeys d
  pub keyed : (id : String) (p : Profile) → lookup id d ≡ some p → p.id ≡ id
  pub valid : (id : String) (p : Profile) → lookup id d ≡ some p → validate p ≡ ok tt

insert-IsProfileMap :
    (id : String) (q : Profile) (d : Dict Profile)
    → q.id ≡ id
    → validate q ≡ ok tt
    → IsProfileMap d
    → IsProfileMap (insert id q d)
insert-IsProfileMap id q d own fine m = record {
  distinct = insert-HasDistinctKeys id q d m.distinct;
  keyed = λ k p h. ground (arith, lookup-insert id k q d, eq_iff id k, m.keyed k p);
  valid = λ k p h. ground (arith, lookup-insert id k q d, eq_iff id k, m.valid k p);
}

erase-IsProfileMap : (id : String) (d : Dict Profile) → IsProfileMap d → IsProfileMap (erase id d)
erase-IsProfileMap id d m = record {
  distinct = erase-HasDistinctKeys id d m.distinct;
  keyed = λ k p h. ground (arith, lookup-erase id k d, m.keyed k p);
  valid = λ k p h. ground (arith, lookup-erase id k d, m.valid k p);
}

module _ {B : Type 0} (json : Codec (List Profile) B) where
  unfoldable pub perform : Call → Service B → Option Error × Service B
  perform (creates now random p) s = let (r, s') = create json now random p s in (error_of r, s')
  perform (updates now id p) s = let (r, s') = update json now id p s in (error_of r, s')
  perform (deletes id) s = let (r, s') = delete json id s in (error_of r, s')

  commit_error :
      {A : Type 0} (a : A) (changed : Dict Profile) (s : Service B) (e : Error)
      → error_of (commit json a changed s).0 ≡ some e
      → (commit json a changed s).1.profiles ≡ s.profiles
  commit_error a changed s e h = elim (Result-cases (commit json a changed s).0) [
    | inl (x, good) ↦ let bad = rw good at h in cc
    | inr (e', failed) ↦ commit_err json a changed s e' failed
  ]

  commit-IsProfileMap :
      {A : Type 0} (a : A) (changed : Dict Profile) (s : Service B)
      → IsProfileMap s.profiles
      → IsProfileMap changed
      → IsProfileMap (commit json a changed s).1.profiles
  commit-IsProfileMap a changed s m m' = elim (Result-cases (commit json a changed s).0) [
    | inl (x, good) ↦ rw ((commit_ok json a changed s x good).1) m'
    | inr (e, failed) ↦ rw (commit_err json a changed s e failed) m
  ]

  -- A call that fails leaves every profile as it was, also where the write failed.
  pub perform_failed :
      (c : Call) (s : Service B) (e : Error)
      → (perform c s).0 ≡ some e
      → (perform c s).1.profiles ≡ s.profiles
  unfolding perform
  perform_failed (creates now random p) s e h = elim (create_cases json now random p s) [
    | inl (e', refused) ↦ rw refused
    | inr (valid, id, made, commits) ↦ rw commits (commit_error _ _ s e (rw commits at h))
  ]
  perform_failed (updates now id p) s e h = elim (update_cases json now id p s) [
    | inl (e', refused) ↦ rw refused
    | inr (valid, existing, found, commits) ↦ rw commits (commit_error _ _ s e (rw commits at h))
  ]
  perform_failed (deletes id) s e h = elim (delete_cases json id s) [
    | inl refused ↦ rw refused
    | inr (existing, found, commits) ↦ rw commits (commit_error _ _ s e (rw commits at h))
  ]

  -- Every call keeps the profiles valid and under their own ids.
  pub perform-IsProfileMap :
      (c : Call) (s : Service B) → IsProfileMap s.profiles → IsProfileMap (perform c s).1.profiles
  unfolding perform new_profile merge_profile
  perform-IsProfileMap (creates now random p) s m = elim (create_cases json now random p s) [
    | inl (e', refused) ↦ rw refused m
    | inr (valid, id, made, commits) ↦ rw commits (
        commit-IsProfileMap _ _ s m
          (insert-IsProfileMap id _ s.profiles refl (validate-new_profile id now p valid) m))
  ]
  perform-IsProfileMap (updates now id p) s m = elim (update_cases json now id p s) [
    | inl (e', refused) ↦ rw refused m
    | inr (valid, existing, found, commits) ↦ rw commits (
        commit-IsProfileMap _ _ s m (
          insert-IsProfileMap id _ s.profiles (m.keyed id existing found)
            (validate-merge_profile now p existing valid) m))
  ]
  perform-IsProfileMap (deletes id) s m = elim (delete_cases json id s) [
    | inl refused ↦ rw refused m
    | inr (existing, found, commits) ↦
        rw commits (commit-IsProfileMap _ _ s m (erase-IsProfileMap id s.profiles m))
  ]

  unfoldable pub perform_all : List Call → Service B → Service B
  perform_all [] s = s
  perform_all (c ∷ cs) s = perform_all cs (perform c s).1

  -- After any history of calls, failed ones among them, the profiles are valid and stand under their
  -- own ids, once each, if they did before.
  pub perform_all-IsProfileMap :
      (cs : List Call) (s : Service B)
      → IsProfileMap s.profiles
      → IsProfileMap (perform_all cs s).profiles
  unfolding perform_all
  perform_all-IsProfileMap [] s m = m
  perform_all-IsProfileMap (c ∷ cs) s m =
      perform_all-IsProfileMap cs (perform c s).1 (perform-IsProfileMap c s m)

-- ===== src/SqlProfile/Spec/File.antt =====
-- The service of internal/sqlprofile/service.go refines the specification.
use mathlib.Core.Path.{fun_ext}
use modern_mcs.Prelude.{
  ℕ, String, ◌≡◌, refl, ap, sym, subst, ◌∙◌, ◌⊎◌, inl, inr, arith, Option, List, Result, ok, err,
  Result-cases, Option-cases,
}
use modern_mcs.Dict.{Dict, lookup}
use modern_mcs.Dict.Laws.{lookup-insert, lookup-erase}
use modern_mcs.Disk.{Disk}
use modern_mcs.Codec.{Codec}
use modern_mcs.SqlProfile.Types.{Profile, Error, message}
use modern_mcs.SqlProfile.Service.{
  Service, validate, generate_id, new_profile, merge_profile, persist_locked, commit, create,
  update, delete,
}
use modern_mcs.SqlProfile.Service.Calls.{Call, creates, updates, deletes}
use modern_mcs.SqlProfile.Service.Writes.{commit_ok, commit_err}
use modern_mcs.SqlProfile.Spec.{
  View, Answer, fails, answer_profile, answer_unit, Step, created, updated, deleted, invalid,
  missing, failed, perform_on, Refines,
}
use modern_mcs.Http.Wiring.{sql_profile_service}

module _ {B : Type 0} where
  -- What the map of the service has.
  abbrev pub file_view : Service B → View
  file_view s = λ id. lookup id s.profiles

  -- The disk may change in any way.
  abbrev pub file_enter : Disk B → Service B → Service B
  file_enter disk s = record s { disk = disk }

module _ {B : Type 0} (json : Codec (List Profile) B) where
  abbrev FileStep : View → Call → Answer → View → Type 0
  FileStep = Step (λ id. id) (λ t. t) ⊥

  persist_locked_error :
      (s : Service B) (e : Error)
      → (persist_locked json s).0 ≡ err e
      → (text : String) × (e ≡ message text)
  unfolding persist_locked
  persist_locked_error s e h = ground arith

  commit_error :
      {A : Type 0} (a : A) (changed : Dict Profile) (s : Service B) (e : Error)
      → (commit json a changed s).0 ≡ err e
      → (text : String) × (e ≡ message text)
  unfolding commit
  commit_error {A = A} a changed s e h =
      elim (Result-cases (persist_locked json (record s { profiles = changed })).0) [
        | inl (u, good) ↦ let bad = rw (good, commit) at h in cc
        | inr (e', broke) ↦
            let (text, same) = persist_locked_error (record s { profiles = changed }) e' broke in
            (
              text,
              sym (
                    ap (λ (r : Result Error A). elim r [ ok x ↦ e | err x ↦ x ])
                      (rw (broke, commit) at h))
                  ∙ same,
            )
      ]

  -- A commit does what it is for, or fails and changes nothing.
  commit_cases :
      {A : Type 0} (a : A) (changed : Dict Profile) (s : Service B)
      → (((commit json a changed s).0 ≡ ok a) × ((commit json a changed s).1.profiles ≡ changed))
        ⊎ ((text : String) × ((commit json a changed s).0 ≡ err (message text))
            × ((commit json a changed s).1.profiles ≡ s.profiles))
  commit_cases a changed s = elim (Result-cases (commit json a changed s).0) [
    | inl (x, good) ↦
        let (same, after, _, _) = commit_ok json a changed s x good in
        inl (good ∙ ap ok same, after)
    | inr (e, broke) ↦
        let (text, same) = commit_error a changed s e broke in
        inr (text, broke ∙ ap err same, commit_err json a changed s e broke)
  ]

  step_at :
      {m : View} {c : Call} {a : Answer} {d d' : Dict Profile}
      → d' ≡ d
      → FileStep m c a (λ id. lookup id d)
      → FileStep m c a (λ id. lookup id d')
  step_at {m = m} {c = c} {a = a} e st =
      subst (λ (x : Dict Profile). FileStep m c a (λ id. lookup id x)) (sym e) st

  -- A commit as a step of the call that makes it.
  commit_step :
      {A : Type 0} (c : Call) (answer : Result Error A → Answer) (a : A) (changed : Dict Profile)
      (s : Service B) (m : View)
      → ((text : String) → answer (err (message text)) ≡ fails (message text))
      → ((id : String) → lookup id changed ≡ m id)
      → FileStep (file_view s) c (answer (ok a)) m
      → FileStep
          (file_view s)
          c
          (answer (commit json a changed s).0)
          (file_view (commit json a changed s).1)
  commit_step c answer a changed s m errors same st = elim (commit_cases a changed s) [
    | inl (good, after) ↦
        rw good
          (step_at after (subst (FileStep (file_view s) c (answer (ok a))) (sym (fun_ext same)) st))
    | inr (text, broke, after) ↦ rw broke (
        step_at after (
          subst (λ (x : Answer). FileStep (file_view s) c x (file_view s)) (sym (errors text))
            (failed text)))
  ]

  create_step :
      (now : ℕ) (random : Option (List ℕ)) (p : Profile) (s : Service B)
      → FileStep
          (file_view s)
          (creates now random p)
          (answer_profile (create json now random p s).0)
          (file_view (create json now random p s).1)
  unfolding create
  create_step now random p s = elim (Result-cases (validate p)) [
    | inr (e, bad) ↦ rw (bad, create) (invalid p refl bad)
    | inl (_, fine) ↦ elim (Result-cases (generate_id 12 random)) [
      | inr (e, broke) ↦ rw (fine, create) (rw (broke, create) (failed "generate id"))
      | inl (id, made) ↦
          rw (fine, create)
            (rw (made, create)
              (commit_step _ answer_profile (new_profile id now p) _ s _ (λ text. refl)
                (λ k. lookup-insert id k (new_profile id now p) s.profiles)
                (created p id fine made)))
    ]
  ]

  update_step :
      (now : ℕ) (id : String) (p : Profile) (s : Service B)
      → FileStep
          (file_view s)
          (updates now id p)
          (answer_profile (update json now id p s).0)
          (file_view (update json now id p s).1)
  unfolding update
  update_step now id p s = elim (Result-cases (validate p)) [
    | inr (e, bad) ↦ rw (bad, update) (invalid p refl bad)
    | inl (_, fine) ↦ elim (Option-cases (lookup id s.profiles)) [
      | inl absent ↦ rw (fine, update) (rw (absent, update) (missing id refl (inr absent)))
      | inr (existing, found) ↦
          let q = merge_profile now p existing in
          rw (fine, update)
            (rw (found, update)
              (commit_step _ answer_profile q _ s _ (λ text. refl)
                (λ k. lookup-insert id k q s.profiles) (updated p existing fine found)))
    ]
  ]

  delete_step :
      (id : String) (s : Service B)
      → FileStep
          (file_view s)
          (deletes id)
          (answer_unit (delete json id s).0)
          (file_view (delete json id s).1)
  unfolding delete
  delete_step id s = elim (Option-cases (lookup id s.profiles)) [
    | inl absent ↦ rw (absent, delete) (missing id refl (inr absent))
    | inr (existing, found) ↦
        rw (found, delete)
          (commit_step _ answer_unit tt _ s _ (λ text. refl) (λ k. lookup-erase id k s.profiles)
            (deleted existing found))
  ]

  call_step :
      (c : Call) (s : Service B)
      → FileStep
          (file_view s)
          c
          (perform_on (sql_profile_service json) c s).0
          (file_view (perform_on (sql_profile_service json) c s).1)
  unfolding perform_on
  call_step (creates now random p) s = create_step now random p s
  call_step (updates now id p) s = update_step now id p s
  call_step (deletes id) s = delete_step id s

  -- The service on a file, or in memory, takes only steps of the specification, whatever the disk
  -- does: it takes an id as it is given, keeps instants exactly, and an error always means that
  -- nothing was changed.
  pub file-Refines : Refines (sql_profile_service json) file_view file_enter (λ id. id) (λ t. t) ⊥
  file-Refines = record { view-enter = λ disk s. refl; step = call_step }

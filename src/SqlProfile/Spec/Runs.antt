-- ===== src/SqlProfile/Spec/Runs.antt =====
-- Histories of calls of a service that refines the specification.
use modern_mcs.Prelude.{
  ℕ, String, ◌≡◌, refl, subst, arith, some, List, [], ◌∷◌, ok, eq_iff, ◌==◌, Bool-cases, inl, inr,
}
use modern_mcs.SqlProfile.Types.{Profile}
use modern_mcs.SqlProfile.Service.{validate, new_profile, merge_profile}
use modern_mcs.SqlProfile.Service.Calls.{Call}
use modern_mcs.SqlProfile.Service.Valid.{validate-new_profile, validate-merge_profile}
use modern_mcs.SqlProfile.Spec.{
  View, assign, Answer, Step, created, updated, deleted, invalid, missing, failed, unanswered,
  perform_on, Refines,
}
use modern_mcs.Http.Types.{SqlProfileService}

-- The steps of a history of calls, with their answers.
pub data Runs (canon : String → String) (keeps : ℕ → ℕ) (Lossy : Type 0)
    : View → List (Call × Answer) → View → Type 0 where
  stop : {m : View} → Runs canon keeps Lossy m [] m
  next :
      {m m' m'' : View} {c : Call} {a : Answer} {trace : List (Call × Answer)}
      → Step canon keeps Lossy m c a m'
      → Runs canon keeps Lossy m' trace m''
      → Runs canon keeps Lossy m ((c, a) ∷ trace) m''

-- Every profile is valid and stands under its own id.
abbrev pub IsSound : View → Type 0
IsSound m = (id : String) (p : Profile) → m id ≡ some p → (validate p ≡ ok tt) × (p.id ≡ id)

assign-IsSound :
    (id : String) (q : Profile) (m : View)
    → validate q ≡ ok tt
    → q.id ≡ id
    → IsSound m
    → IsSound (assign id (some q) m)
assign-IsSound id q m fine own sound k p h = elim (Bool-cases (id == k)) [
  | inr e ↦ sound k p (rw e at h)
  | inl e ↦ ground (arith, eq_iff id k)
]

module _ {S W : Type 0} (svc : SqlProfileService S) (enter : W → S → S) where
  -- The answers of a history of calls, and the state it ends in; before each call the world
  -- becomes the given one.
  unfoldable pub perform_history : List (W × Call) → S → List (Call × Answer) × S
  perform_history [] s = ([], s)
  perform_history ((w, c) ∷ calls) s =
      let (a, s') = perform_on svc c (enter w s) in
      let (trace, last) = perform_history calls s' in ((c, a) ∷ trace, last)

module _ {canon : String → String} {keeps : ℕ → ℕ} {Lossy : Type 0} where
  pub Step-IsSound :
      {m m' : View} {c : Call} {a : Answer}
      → Step canon keeps Lossy m c a m'
      → IsSound m
      → IsSound m'
  unfolding new_profile merge_profile
  Step-IsSound (created {m = m} {now = now} p id fine made) sound =
      assign-IsSound id _ m (validate-new_profile id (keeps now) p fine) refl sound
  Step-IsSound (updated {m = m} {now = now} {id = id} p existing fine found) sound =
      assign-IsSound (canon id) _ m (validate-merge_profile (keeps now) p existing fine)
        (sound (canon id) existing found).1 sound
  Step-IsSound (deleted {m = m} {id = id} existing found) sound = λ k p h. sound k p (ground arith)
  Step-IsSound (invalid p given bad) sound = sound
  Step-IsSound (missing id given absent) sound = sound
  Step-IsSound (failed text) sound = sound
  Step-IsSound (unanswered text lossy st) sound = Step-IsSound st sound

  pub Runs-IsSound :
      {m m' : View} {trace : List (Call × Answer)}
      → Runs canon keeps Lossy m trace m'
      → IsSound m
      → IsSound m'
  Runs-IsSound stop sound = sound
  Runs-IsSound (next st runs) sound = Runs-IsSound runs (Step-IsSound st sound)

  module _ {S W : Type 0} (svc : SqlProfileService S) (view : S → View) (enter : W → S → S)
      (refines : Refines svc view enter canon keeps Lossy) where
    -- Every history of calls of a service that refines the specification is a run of the
    -- specification, with the same answers, from what the ids had before to what they have after.
    pub run_refines :
        (calls : List (W × Call)) (s : S)
        → Runs canon keeps Lossy
            (view s)
            (perform_history svc enter calls s).0
            (view (perform_history svc enter calls s).1)
    unfolding perform_history
    run_refines [] s = stop
    run_refines ((w, c) ∷ calls) s =
        next
          (subst
            (λ (m : View).
              Step canon keeps Lossy m c (perform_on svc c (enter w s)).0
                (view (perform_on svc c (enter w s)).1))
            (refines.view-enter w s) (refines.step c (enter w s)))
          (run_refines calls (perform_on svc c (enter w s)).1)

    -- In any history of calls of a service that refines the specification, whatever fails, every
    -- profile stays valid and under its own id.
    pub run-IsSound :
        (calls : List (W × Call)) (s : S)
        → IsSound (view s)
        → IsSound (view (perform_history svc enter calls s).1)
    run-IsSound calls s sound = Runs-IsSound (run_refines calls s) sound

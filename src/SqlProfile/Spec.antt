-- ===== src/SqlProfile/Spec.antt =====
-- What both services of internal/sqlprofile promise, over a function from ids to profiles: service.go
-- and service_postgres.go stand behind one interface, `SQLProfileService` of
-- internal/httpserver/server.go.
pub mod Runs
pub mod File
pub mod Table
pub mod Postgres
pub mod Answers
pub mod FileAnswers
use modern_mcs.Prelude.{
  ℕ, String, ◌≡◌, ◌⊎◌, Option, none, some, List, Result, ok, err, ◌==◌, if◌then◌else◌,
}
use modern_mcs.SqlProfile.Types.{Profile, Error, not_found, message}
use modern_mcs.SqlProfile.Service.{validate, generate_id, new_profile, merge_profile}
use modern_mcs.SqlProfile.Service.Calls.{Call, creates, updates, deletes}
use modern_mcs.Http.Types.{SqlProfileService}

-- The profile that an id has, if it has one.
abbrev pub View : Type 0
View = String → Option Profile

abbrev pub assign : String → Option Profile → View → View
assign id o view = λ other. if id == other then o else view other

-- What a client gets back from a call.
pub data Answer : Type 0 where
  gives : Profile → Answer
  done : Answer
  fails : Error → Answer

abbrev pub answer_profile : Result Error Profile → Answer
answer_profile (ok p) = gives p
answer_profile (err e) = fails e

abbrev pub answer_unit : Result Error (Unit {0}) → Answer
answer_unit (ok u) = done
answer_unit (err e) = fails e

-- The profile that a call comes with, and the id that it names.
abbrev pub profile_of : Call → Option Profile
profile_of (creates now random p) = some p
profile_of (updates now id p) = some p
profile_of (deletes id) = none

abbrev pub id_of : Call → Option String
id_of (creates now random p) = none
id_of (updates now id p) = some id
id_of (deletes id) = some id

-- One call. It does what it is for; or it is refused, as invalid or because the id has no profile; or
-- something else fails, and nothing changes; or it does what it is for and the client gets an error
-- all the same. The last way is open only to a service with `Lossy`.
-- `canon` is what the service makes of an id that a client gives, `keeps` what it keeps of an instant.
pub data Step (canon : String → String) (keeps : ℕ → ℕ) (Lossy : Type 0)
    : View → Call → Answer → View → Type 0 where
  created :
      {m : View} {now : ℕ} {random : Option (List ℕ)} (p : Profile) (id : String)
      → validate p ≡ ok tt
      → generate_id 12 random ≡ ok id
      → Step canon keeps Lossy m
          (creates now random p)
          (gives (new_profile id now p))
          (assign id (some (new_profile id (keeps now) p)) m)
  updated :
      {m : View} {now : ℕ} {id : String} (p existing : Profile)
      → validate p ≡ ok tt
      → m (canon id) ≡ some existing
      → Step canon keeps Lossy m
          (updates now id p)
          (gives (merge_profile (keeps now) p existing))
          (assign (canon id) (some (merge_profile (keeps now) p existing)) m)
  deleted :
      {m : View} {id : String} (existing : Profile)
      → m (canon id) ≡ some existing
      → Step canon keeps Lossy m (deletes id) done (assign (canon id) none m)
  invalid :
      {m : View} {c : Call} {e : Error} (p : Profile)
      → profile_of c ≡ some p
      → validate p ≡ err e
      → Step canon keeps Lossy m c (fails e) m
  missing :
      {m : View} {c : Call} (id : String)
      → id_of c ≡ some id
      → (canon id ≡ "") ⊎ (m (canon id) ≡ none)
      → Step canon keeps Lossy m c (fails not_found) m
  failed :
      {m : View} {c : Call} (text : String) → Step canon keeps Lossy m c (fails (message text)) m
  unanswered :
      {m m' : View} {c : Call} {a : Answer} (text : String)
      → Lossy
      → Step canon keeps Lossy m c a m'
      → Step canon keeps Lossy m c (fails (message text)) m'

-- A call of the interface.
unfoldable pub perform_on : {S : Type 0} → SqlProfileService S → Call → S → Answer × S
perform_on svc (creates now random p) s =
    let (r, s') = svc.create now random p s in (answer_profile r, s')
perform_on svc (updates now id p) s = let (r, s') = svc.update now id p s in (answer_profile r, s')
perform_on svc (deletes id) s = let (r, s') = svc.delete id s in (answer_unit r, s')

-- A service that takes only steps of the specification, in the states of `Valid`; the world around
-- it, which says what fails, may change between two calls.
pub record Refines {S W : Type 0} (svc : SqlProfileService S) (view : S → View) (enter : W → S → S)
    (canon : String → String) (keeps : ℕ → ℕ) (Lossy : Type 0) : Type 0 where
  pub view-enter : (w : W) (s : S) → view (enter w s) ≡ view s
  pub step :
      (c : Call) (s : S)
      → Step canon keeps Lossy (view s) c (perform_on svc c s).0 (view (perform_on svc c s).1)

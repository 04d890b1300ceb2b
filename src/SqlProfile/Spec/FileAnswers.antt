-- ===== src/SqlProfile/Spec/FileAnswers.antt =====
-- What the service on a file answers, and what it has then.
use modern_mcs.Prelude.{
  String, ◌≡◌, refl, sym, subst, ◌⊎◌, Result, inl, inr, arith, List, none, some, ok, err,
  Result-cases, Option-cases,
}
use modern_mcs.Dict.{Dict, lookup, insert, erase}
use modern_mcs.Dict.Laws.{lookup-insert, lookup-erase}
use modern_mcs.Codec.{Codec}
use modern_mcs.SqlProfile.Types.{Profile, Error, not_found, message}
use modern_mcs.SqlProfile.Service.{
  Service, validate, generate_id, new_profile, merge_profile, persist_locked, commit, create,
  update, delete,
}
use modern_mcs.SqlProfile.Service.Calls.{Call, creates, updates, deletes}
use modern_mcs.SqlProfile.Spec.{
  View, assign, Answer, gives, done, fails, answer_profile, answer_unit, perform_on,
}
use modern_mcs.SqlProfile.Spec.File.{file_view}
use modern_mcs.Http.Wiring.{sql_profile_service}
use modern_mcs.SqlProfile.Spec.Answers.{created_profile, updated_profile, expected_answer}
use modern_mcs.SqlProfile.Service.Writes.{commit_ok, commit_err, persist_locked-commit}

-- What the ids have after a call, by its answer.
unfoldable pub view_after : Call → Answer → View → View
view_after (creates now random p) a view = elim a [ gives q ↦ assign q.id (some q) view | _ ↦ view ]
view_after (updates now id p) a view = elim a [ gives q ↦ assign id (some q) view | _ ↦ view ]
view_after (deletes id) a view = elim a [ done ↦ assign id none view | _ ↦ view ]

view_after-fails : (c : Call) (e : Error) (view : View) → view_after c (fails e) view ≡ view
unfolding view_after
view_after-fails (creates now random p) e view = refl
view_after-fails (updates now id p) e view = refl
view_after-fails (deletes id) e view = refl

module _ {B : Type 0} (json : Codec (List Profile) B) (s : Service B) where
  -- The answer is the wanted one, or the error of the write of what the ids should have had then;
  -- and the ids have what the answer says.
  abbrev pub IsAnswered : Call → Answer → Answer × Service B → Type 0
  IsAnswered c want r =
      ((r.0 ≡ want)
        ⊎ ((e : Error) × (d : Dict Profile) × ((k : String)
              → lookup k d ≡ view_after c want (file_view s) k)
            × ((persist_locked json (record s { profiles = d })).0 ≡ err e)
            × (r.0 ≡ fails e)))
      × ((k : String) → file_view r.1 k ≡ view_after c r.0 (file_view s) k)

  refused-IsAnswered : (c : Call) (e : Error) → IsAnswered c (fails e) (fails e, s)
  refused-IsAnswered c e = (inl refl, λ k. rw (view_after-fails c e (file_view s)) refl)

  commit-IsAnswered :
      {A : Type 0} (c : Call) (answer : Result Error A → Answer) (a : A) (d : Dict Profile)
      → ((e : Error) → answer (err e) ≡ fails e)
      → ((k : String) → lookup k d ≡ view_after c (answer (ok a)) (file_view s) k)
      → IsAnswered c (answer (ok a)) (answer (commit json a d s).0, (commit json a d s).1)
  commit-IsAnswered c answer a d errors meant = elim (Result-cases (commit json a d s).0) [
    | inl (x, good) ↦
        let (same, after, _, _) = commit_ok json a d s x good in
        rw (good, same, after) (inl refl, meant)
    | inr (e, broke) ↦
        rw (broke, errors e, commit_err json a d s e broke)
          (
            inr (e, d, meant, persist_locked-commit json a d s e broke, refl),
            λ k. rw (view_after-fails c e (file_view s)) refl,
          )
  ]

  abbrev expected : Call → Answer
  expected c = expected_answer gives (λ t. t) (file_view s) (file_view s) c

  abbrev given : Call → Answer × Service B
  given c = perform_on (sql_profile_service json) c s

  refusal-IsAnswered :
      (c : Call) (e : Error)
      → expected c ≡ fails e
      → given c ≡ (fails e, s)
      → IsAnswered c (expected c) (given c)
  refusal-IsAnswered c e wanted refused =
      subst (λ w. IsAnswered c w (given c)) (sym wanted)
        (subst (IsAnswered c (fails e)) (sym refused) (refused-IsAnswered c e))

  written-IsAnswered :
      {A : Type 0} (c : Call) (answer : Result Error A → Answer) (a : A) (d : Dict Profile)
      → ((e : Error) → answer (err e) ≡ fails e)
      → ((k : String) → lookup k d ≡ view_after c (answer (ok a)) (file_view s) k)
      → expected c ≡ answer (ok a)
      → given c ≡ (answer (commit json a d s).0, (commit json a d s).1)
      → IsAnswered c (expected c) (given c)
  written-IsAnswered c answer a d errors meant wanted commits =
      subst (λ w. IsAnswered c w (given c)) (sym wanted)
        (subst (IsAnswered c (answer (ok a))) (sym commits)
          (commit-IsAnswered c answer a d errors meant))

  -- The service on a file, or in memory, answers a creation with the new profile, unless the input
  -- is invalid or there are no random bytes; an update with the updated profile, unless the input
  -- is invalid or the id has no profile; and a deletion likewise; or else with the error of the
  -- write of the changed profiles. A new profile has the input's fields, the name trimmed and the
  -- type of the database trimmed and in lower case, under the id that the random bytes make and
  -- with both times now; an updated one keeps its id and its time of creation. Afterwards the id
  -- that was created or updated has the profile of the answer, one that was deleted has none, and
  -- all others, and all after an error, have what they had.
  pub perform_on-sql_profile_service :
      (c : Call)
      → IsAnswered c
          (expected_answer gives (λ t. t) (file_view s) (file_view s) c)
          (perform_on (sql_profile_service json) c s)
  unfolding perform_on expected_answer create update delete new_profile merge_profile view_after
  perform_on-sql_profile_service (creates now random p) = elim (Result-cases (validate p)) [
    | inr (e, bad) ↦
        refusal-IsAnswered (creates now random p) e (ground (arith, bad)) (ground (arith, bad))
    | inl (_, fine) ↦ elim (Result-cases (generate_id 12 random)) [
      | inr (e, broke) ↦
          refusal-IsAnswered (creates now random p) (message "generate id")
            (ground (arith, fine, broke)) (ground (arith, fine, broke))
      | inl (id, made) ↦
          let q = created_profile id now p in
          written-IsAnswered (creates now random p) answer_profile q (insert id q s.profiles)
            (λ e. refl) (λ k. lookup-insert id k q s.profiles) (ground (arith, fine, made))
            (ground (arith, fine, made))
    ]
  ]
  perform_on-sql_profile_service (updates now id p) = elim (Result-cases (validate p)) [
    | inr (e, bad) ↦
        refusal-IsAnswered (updates now id p) e (ground (arith, bad)) (ground (arith, bad))
    | inl (_, fine) ↦ elim (Option-cases (lookup id s.profiles)) [
      | inl absent ↦
          refusal-IsAnswered (updates now id p) not_found (ground (arith, fine, absent))
            (ground (arith, fine, absent))
      | inr (existing, found) ↦
          let q = updated_profile now p existing in
          written-IsAnswered (updates now id p) answer_profile q (insert id q s.profiles)
            (λ e. refl) (λ k. lookup-insert id k q s.profiles) (ground (arith, fine, found))
            (ground (arith, fine, found))
    ]
  ]
  perform_on-sql_profile_service (deletes id) = elim (Option-cases (lookup id s.profiles)) [
    | inl absent ↦
        refusal-IsAnswered (deletes id) not_found (ground (arith, absent)) (ground (arith, absent))
    | inr (existing, found) ↦
        written-IsAnswered (deletes id) answer_unit tt (erase id s.profiles) (λ e. refl)
          (λ k. lookup-erase id k s.profiles) (ground (arith, found)) (ground (arith, found))
  ]

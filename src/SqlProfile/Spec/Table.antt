-- ===== src/SqlProfile/Spec/Table.antt =====
-- The creations and updates of internal/sqlprofile/service_postgres.go as steps of the specification.
use mathlib.Core.Path.{fun_ext}
use modern_mcs.Prelude.{
  ℕ, String, ◌≡◌, refl, sym, subst, inl, inr, false, arith, Option, none, some, List, ok, err,
  Result-cases, Option-cases, Bool-cases, ◌==◌, eq_iff, if◌then◌else◌,
}
use modern_mcs.Text.{trim_space}
use modern_mcs.Text.Trim.{trim_space_idem}
use modern_mcs.Dict.{lookup, insert}
use modern_mcs.Dict.Laws.{lookup-insert}
use modern_mcs.Postgres.{Clock, Reply-cases}
use modern_mcs.SqlProfile.Types.{Profile, message}
use modern_mcs.SqlProfile.Service.{validate, generate_id, new_profile, merge_profile}
use modern_mcs.SqlProfile.Service.Calls.{Call, creates, updates}
use modern_mcs.SqlProfile.Pg.{
  PgService, pg_get, after_rows, profile_row, insert_profile, pg_create, update_row, update_nothing,
  pg_update,
}
use modern_mcs.SqlProfile.Spec.{
  View, Answer, gives, answer_profile, Step, created, updated, invalid, missing, failed, unanswered,
}

-- What the table has.
abbrev pub pg_view : PgService → View
pg_view s = λ id. lookup id s.rows

module _ (clock : Clock) where
  abbrev pub PgStep : View → Call → Answer → View → Type 0
  PgStep = Step trim_space clock.stored Unit

  insert_step :
      (now : ℕ) (random : Option (List ℕ)) (p : Profile) (id : String) (s : PgService)
      → validate p ≡ ok tt
      → generate_id 12 random ≡ ok id
      → PgStep
          (pg_view s)
          (creates now random p)
          (answer_profile (insert_profile clock (new_profile id now p) s).0)
          (pg_view (insert_profile clock (new_profile id now p) s).1)
  unfolding insert_profile profile_row new_profile
  insert_step now random p id s fine made =
      let q = new_profile id now p in
      let row = new_profile id (clock.stored now) p in
      let st : PgStep (pg_view s) (creates now random p) (gives q)
          (λ k. lookup k (insert id row s.rows)) =
        subst (PgStep (pg_view s) (creates now random p) (gives q))
          (sym (fun_ext (λ k. lookup-insert id k row s.rows))) (created p id fine made) in
      elim (Option-cases (lookup id s.rows)) [
        | inr (taken, found) ↦ rw (found, insert_profile) (failed "insert sql profile")
        | inl free ↦ elim (Reply-cases (s.faults.insert q)) [
          | inl good ↦ rw (free, insert_profile) (rw good st)
          | inr (inl bad) ↦ rw (free, insert_profile) (rw bad (failed "insert sql profile"))
          | inr (inr gone) ↦
              rw (free, insert_profile) (rw gone (unanswered "insert sql profile" tt st))
        ]
      ]

  pub create_step :
      (now : ℕ) (random : Option (List ℕ)) (p : Profile) (s : PgService)
      → PgStep
          (pg_view s)
          (creates now random p)
          (answer_profile (pg_create clock now random p s).0)
          (pg_view (pg_create clock now random p s).1)
  unfolding pg_create
  create_step now random p s = elim (Result-cases (validate p)) [
    | inr (e, bad) ↦ rw (bad, pg_create) (invalid p refl bad)
    | inl (_, fine) ↦ elim (Result-cases (generate_id 12 random)) [
      | inr (e, broke) ↦ rw (fine, pg_create) (rw (broke, pg_create) (failed "generate id"))
      | inl (id, made) ↦
          rw (fine, pg_create) (rw (made, pg_create) (insert_step now random p id s fine made))
    ]
  ]

  -- `Get` of a row that was just written, under the trimmed id.
  get_written :
      (id : String) (p : Profile) (s : PgService)
      → trim_space id ≡ id
      → id == "" ≡ false
      → pg_get id (record s { rows = insert id p s.rows })
        ≡ (if s.faults.get_fails id then err (message "get sql profile") else ok p)
  unfolding pg_get
  get_written id p s trimmed named =
      rw trimmed (ground (arith, named, lookup-insert id id p s.rows, eq_iff id id))

  update_row_step :
      (now : ℕ) (given : String) (p existing : Profile) (s : PgService)
      → validate p ≡ ok tt
      → trim_space given == "" ≡ false
      → lookup (trim_space given) s.rows ≡ some existing
      → PgStep
          (pg_view s)
          (updates now given p)
          (answer_profile (update_row clock now (trim_space given) p existing s).0)
          (pg_view (update_row clock now (trim_space given) p existing s).1)
  unfolding update_row after_rows
  update_row_step now given p existing s fine named found =
      let id = trim_space given in
      let row = merge_profile (clock.stored now) p existing in
      let st : PgStep (pg_view s) (updates now given p) (gives row)
          (λ k. lookup k (insert id row s.rows)) =
        subst (PgStep (pg_view s) (updates now given p) (gives row))
          (sym (fun_ext (λ k. lookup-insert id k row s.rows))) (updated p existing fine found) in
      let get = get_written id row s (trim_space_idem given) named in
      elim (Reply-cases (s.faults.update id p)) [
        | inr (inl bad) ↦ rw (bad, update_row) (failed "update sql profile")
        | inr (inr gone) ↦ rw (gone, update_row) (unanswered "update sql profile" tt st)
        | inl good ↦ elim (Bool-cases s.faults.count_fails) [
          | inl e ↦
              rw (good, update_row)
                (rw (e, after_rows) (unanswered "read update affected rows" tt st))
          | inr e ↦ elim (Bool-cases (s.faults.get_fails id)) [
            | inl g ↦
                rw (good, update_row)
                  (rw (e, after_rows) (rw (get, g) (unanswered "get sql profile" tt st)))
            | inr g ↦ rw (good, update_row) (rw (e, after_rows) (rw (get, g) st))
          ]
        ]
      ]

  update_nothing_step :
      (now : ℕ) (given : String) (p : Profile) (s : PgService)
      → lookup (trim_space given) s.rows ≡ none
      → PgStep
          (pg_view s)
          (updates now given p)
          (answer_profile (update_nothing clock (trim_space given) p s).0)
          (pg_view (update_nothing clock (trim_space given) p s).1)
  unfolding update_nothing after_rows
  update_nothing_step now given p s absent =
      elim (Reply-cases (s.faults.update (trim_space given) p)) [
        | inr (inl bad) ↦ rw (bad, update_nothing) (failed "update sql profile")
        | inr (inr gone) ↦ rw (gone, update_nothing) (failed "update sql profile")
        | inl good ↦ elim (Bool-cases s.faults.count_fails) [
          | inl e ↦
              rw (good, update_nothing) (rw (e, after_rows) (failed "read update affected rows"))
          | inr e ↦ rw (good, update_nothing) (rw (e, after_rows) (missing given refl (inr absent)))
        ]
      ]

  pub update_step :
      (now : ℕ) (given : String) (p : Profile) (s : PgService)
      → PgStep
          (pg_view s)
          (updates now given p)
          (answer_profile (pg_update clock now given p s).0)
          (pg_view (pg_update clock now given p s).1)
  unfolding pg_update
  update_step now given p s = elim (Result-cases (validate p)) [
    | inr (e, bad) ↦ rw (bad, pg_update) (invalid p refl bad)
    | inl (_, fine) ↦ elim (Bool-cases (trim_space given == "")) [
      | inl blank ↦
          rw (fine, pg_update) (rw blank (missing given refl (inl ((eq_iff _ "").0 blank))))
      | inr named ↦ elim (Option-cases (lookup (trim_space given) s.rows)) [
        | inl absent ↦
            rw (fine, pg_update)
              (rw named (rw (absent, pg_update) (update_nothing_step now given p s absent)))
        | inr (existing, found) ↦
            rw (fine, pg_update)
              (rw named
                (rw (found, pg_update) (update_row_step now given p existing s fine named found)))
      ]
    ]
  ]

-- ===== src/SqlProfile/Spec/Postgres.antt =====
-- The service of internal/sqlprofile/service_postgres.go refines the specification.
use mathlib.Core.Path.{fun_ext}
use modern_mcs.Prelude.{
  String, ◌≡◌, refl, sym, subst, inl, inr, false, arith, none, some, Result, ok, err, Option-cases,
  Bool-cases, ◌==◌, eq_iff,
}
use modern_mcs.Text.{trim_space}
use modern_mcs.Dict.{Dict, lookup, erase}
use modern_mcs.Dict.Laws.{lookup-erase}
use modern_mcs.Postgres.{Clock, Reply-cases}
use modern_mcs.SqlProfile.Types.{Profile, Error, not_found, message}
use modern_mcs.SqlProfile.Service.Calls.{Call, creates, updates, deletes}
use modern_mcs.SqlProfile.Pg.{
  PgService, ProfileFaults, pg_list, pg_get, after_rows, pg_create, pg_update, pg_delete,
}
use modern_mcs.SqlProfile.Spec.{
  done, fails, answer_unit, deleted, missing, failed, unanswered, perform_on, Refines,
}
use modern_mcs.Http.Types.{SqlProfileService}
use modern_mcs.SqlProfile.Spec.Table.{pg_view, PgStep, create_step, update_step}

-- Other statements may fail from now on.
abbrev pub pg_enter : ProfileFaults → PgService → PgService
pg_enter faults s = record s { faults = faults }

module _ (clock : Clock) where
  abbrev pub pg_sql_profile_service : SqlProfileService PgService
  pg_sql_profile_service = record {
    create = pg_create clock;
    list = pg_list;
    get = pg_get;
    update = pg_update clock;
    delete = pg_delete clock;
  }

  -- Where no row has the id, deleting it changes nothing.
  erase_nothing :
      (id : String) (rows : Dict Profile)
      → lookup id rows ≡ none
      → (k : String) → lookup k (erase id rows) ≡ lookup k rows
  erase_nothing id rows absent k = ground (arith, lookup-erase id k rows, eq_iff id k)

  -- The `DELETE` and what follows, for an id that is not empty, where `m` is what the ids have when it
  -- was applied and `st` what it does then.
  delete_replies :
      (given : String) (s : PgService) (r : Result Error (Unit {0}))
      (st : PgStep clock
        (pg_view s)
        (deletes given)
        (answer_unit r)
        (λ k. lookup k (erase (trim_space given) s.rows)))
      → trim_space given == "" ≡ false
      → (elim (lookup (trim_space given) s.rows) as (λ o. Result Error (Unit {0})) [
        | none ↦ err not_found
        | some existing ↦ ok tt
      ])
        ≡ r
      → ((text : String)
          → PgStep clock
              (pg_view s)
              (deletes given)
              (fails (message text))
              (λ k. lookup k (erase (trim_space given) s.rows)))
      → PgStep clock
          (pg_view s)
          (deletes given)
          (answer_unit (pg_delete clock given s).0)
          (pg_view (pg_delete clock given s).1)
  unfolding pg_delete after_rows
  delete_replies given s r st named result lose =
      elim (Reply-cases (s.faults.delete (trim_space given))) [
        | inr (inl bad) ↦ rw (named, bad, pg_delete) (failed "delete sql profile")
        | inr (inr gone) ↦ rw (named, gone, pg_delete) (lose "delete sql profile")
        | inl good ↦ elim (Bool-cases s.faults.count_fails) [
          | inl e ↦ rw (named, good, e, pg_delete) (lose "read delete affected rows")
          | inr e ↦ rw (named, good, e, pg_delete) (rw result st)
        ]
      ]

  delete_step :
      (given : String) (s : PgService)
      → PgStep clock
          (pg_view s)
          (deletes given)
          (answer_unit (pg_delete clock given s).0)
          (pg_view (pg_delete clock given s).1)
  unfolding pg_delete
  delete_step given s = elim (Bool-cases (trim_space given == "")) [
    | inl blank ↦ rw (blank, pg_delete) (missing given refl (inl ((eq_iff _ "").0 blank)))
    | inr named ↦ elim (Option-cases (lookup (trim_space given) s.rows)) [
      | inl absent ↦
          let stay = fun_ext (erase_nothing (trim_space given) s.rows absent) in
          delete_replies given s (err not_found)
            (subst (PgStep clock (pg_view s) (deletes given) (fails not_found)) (sym stay)
              (missing given refl (inr absent)))
            named (rw absent refl)
            (λ text.
              subst (PgStep clock (pg_view s) (deletes given) (fails (message text))) (sym stay)
                (failed text))
      | inr (existing, found) ↦
          let gone = fun_ext (λ (k : String). lookup-erase (trim_space given) k s.rows) in
          let st =
            subst (PgStep clock (pg_view s) (deletes given) done) (sym gone)
              (deleted existing found) in
          delete_replies given s (ok tt) st named (rw found refl) (λ text. unanswered text tt st)
    ]
  ]

  call_step :
      (c : Call) (s : PgService)
      → PgStep clock
          (pg_view s)
          c
          (perform_on pg_sql_profile_service c s).0
          (pg_view (perform_on pg_sql_profile_service c s).1)
  unfolding perform_on
  call_step (creates now random p) s = create_step clock now random p s
  call_step (updates now id p) s = update_step clock now id p s
  call_step (deletes id) s = delete_step id s

  -- The service on PostgreSQL takes only steps of the specification, whatever statements fail: it
  -- trims an id that a client gives, keeps instants as a `TIMESTAMPTZ` column does, and an error can
  -- also come after the call did what it is for.
  pub pg-Refines : Refines pg_sql_profile_service pg_view pg_enter trim_space clock.stored Unit
  pg-Refines = record { view-enter = λ faults s. refl; step = call_step }

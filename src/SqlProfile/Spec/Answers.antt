-- ===== src/SqlProfile/Spec/Answers.antt =====
-- What is answered where nothing fails, and that the service on PostgreSQL answers so.
use modern_mcs.Prelude.{
  ℕ, String, ◌≡◌, inl, inr, false, arith, none, some, ok, err, Result-cases, Option-cases, ◌==◌,
  eq_iff, if◌then◌else◌,
}
use modern_mcs.Text.{trim_space, to_lower}
use modern_mcs.Text.Trim.{trim_space_idem}
use modern_mcs.Dict.{lookup}
use modern_mcs.Dict.Laws.{lookup-insert}
use modern_mcs.Postgres.{applied, Clock}
use modern_mcs.SqlProfile.Types.{Profile, not_found, message}
use modern_mcs.SqlProfile.Service.{validate, generate_id, new_profile, merge_profile}
use modern_mcs.SqlProfile.Service.Calls.{Call, creates, updates, deletes}
use modern_mcs.SqlProfile.Pg.{
  PgService, ProfileFaults, pg_get, after_rows, insert_profile, pg_create, update_row,
  update_nothing, pg_update, pg_delete,
}
use modern_mcs.SqlProfile.Spec.{View, Answer, gives, done, fails, perform_on}
use modern_mcs.SqlProfile.Spec.Table.{pg_view}
use modern_mcs.SqlProfile.Spec.Postgres.{pg_sql_profile_service}

-- The profile that a creation is answered with.
abbrev pub created_profile : String → ℕ → Profile → Profile
created_profile id now p = record {
  id = id;
  name = trim_space p.name;
  db_type = to_lower (trim_space p.db_type);
  host = p.host;
  port = p.port;
  username = p.username;
  database = p.database;
  commands = p.commands;
  use_ssl = p.use_ssl;
  created_at = now;
  modified_at = now;
}

-- The profile that an update of `existing` is answered with: all but its id and its time of creation
-- comes from the client.
abbrev pub updated_profile : ℕ → Profile → Profile → Profile
updated_profile now p existing = record (created_profile existing.id now p) {
  created_at = existing.created_at;
}

-- What a client is told. `find` is the profile that an id of a client names, `view` the one that an id
-- has, and `taken` the answer to a creation whose id is there already.
unfoldable pub expected_answer : (Profile → Answer) → (ℕ → ℕ) → View → View → Call → Answer
expected_answer taken keeps find view (creates now random p) = elim (validate p) [
  | err e ↦ fails e
  | ok _ ↦ elim (generate_id 12 random) [
    | err e ↦ fails (message "generate id")
    | ok id ↦ elim (view id) [
      | none ↦ gives (created_profile id now p)
      | some other ↦ taken (created_profile id now p)
    ]
  ]
]
expected_answer taken keeps find view (updates now id p) = elim (validate p) [
  | err e ↦ fails e
  | ok _ ↦ elim (find id) [
    | none ↦ fails not_found
    | some existing ↦ gives (updated_profile (keeps now) p existing)
  ]
]
expected_answer taken keeps find view (deletes id) = elim (find id) [
  | none ↦ fails not_found
  | some existing ↦ done
]

-- The profile that an id names, as `Get` of the service on PostgreSQL looks for it.
abbrev pub named_in : PgService → View
named_in s id = if trim_space id == "" then none else pg_view s (trim_space id)

-- No statement fails.
pub record IsHealthy (faults : ProfileFaults) : Type 0 where
  pub get : (id : String) → faults.get_fails id ≡ false
  pub insert : (p : Profile) → faults.insert p ≡ applied
  pub update : (id : String) (p : Profile) → faults.update id p ≡ applied
  pub delete : (id : String) → faults.delete id ≡ applied
  pub count : faults.count_fails ≡ false

module _ (clock : Clock) where
  -- Where no statement fails, the answer of the service on PostgreSQL is a function of the profiles
  -- that it has: a creation is answered with the new profile, unless the input is invalid, there are
  -- no random bytes or the id is taken; an update with the updated profile, with the time that the
  -- table keeps, unless the input is invalid or the id, without the spaces around it, is empty or has
  -- no profile; and a deletion likewise.
  pub perform_on-pg_sql_profile_service :
      (c : Call) (s : PgService)
      → IsHealthy s.faults
      → (perform_on (pg_sql_profile_service clock) c s).0
        ≡ expected_answer
            (λ p. fails (message "insert sql profile"))
            clock.stored
            (named_in s)
            (pg_view s)
            c
  unfolding perform_on pg_create insert_profile pg_update update_row update_nothing after_rows
      pg_get pg_delete new_profile merge_profile expected_answer
  perform_on-pg_sql_profile_service (creates now random p) s healthy =
      elim (Result-cases (generate_id 12 random)) [
        | inl (id, made) ↦ ground (arith, made, healthy.insert (new_profile id now p))
        | inr (e, bad) ↦ ground (arith, bad)
      ]
  perform_on-pg_sql_profile_service (updates now given p) s healthy =
      elim (Option-cases (lookup (trim_space given) s.rows)) [
        | inl gone ↦ ground (arith, gone, healthy.update (trim_space given) p, healthy.count)
        | inr (existing, found) ↦
            let id = trim_space given in
            let row = merge_profile (clock.stored now) p existing in
            ground (
              arith,
              found,
              healthy.update id p,
              healthy.count,
              healthy.get id,
              trim_space_idem given,
              lookup-insert id id row s.rows,
              eq_iff id id,
            )
      ]
  perform_on-pg_sql_profile_service (deletes given) s healthy =
      ground (arith, healthy.delete (trim_space given), healthy.count)

-- ===== src/Tests/Postgres.antt =====
-- Tables with a few rows, and instances of the theorems on the stores in PostgreSQL.
use modern_mcs.Prelude.{
  ◌≡◌, ◌⊎◌, refl, ap, sym, inl, inr, Bool-cases, eq_iff, [], ◌∷◌, List, none, some, ok, false, ◌==◌,
}
use modern_mcs.Text.{
  trim_space, trim_left, trim_right, push_trimmed, is_space, to_lower, lower_char, translate,
}
use modern_mcs.Dict.{Dict, lookup}
use modern_mcs.Postgres.{Reply, applied, lost, is_taken}
use modern_mcs.Auth.Types.{Session}
use modern_mcs.Auth.Sessions.Table.{
  PgSessionStore, SessionFaults, pg_session_store, pg_save, insert_sessions, clashes, session_row,
}
use modern_mcs.Auth.Sessions.Laws.{IsSessionStore, IsReadable, pg_keeps, pg-IsSessionStore}
use modern_mcs.Auth.Sessions.Atomic.{IsUnchanged, IsReplaced, pg_save_atomic}
use modern_mcs.Auth.Users.Pg.{pg_user_store, pg-IsUserStore}
use modern_mcs.Auth.Users.Laws.{IsUserStore}
use modern_mcs.SqlProfile.Pg.{PgService, ProfileFaults}
use modern_mcs.SqlProfile.Service.{validate}
use modern_mcs.SqlProfile.Service.Calls.{Call, creates, updates, deletes}
use modern_mcs.SqlProfile.Spec.{Refines}
use modern_mcs.SqlProfile.Spec.Runs.{Runs, IsSound, perform_history, run_refines, run-IsSound}
use modern_mcs.SqlProfile.Spec.File.{file_view, file_enter, file-Refines}
use modern_mcs.SqlProfile.Spec.Table.{pg_view}
use modern_mcs.SqlProfile.Spec.Postgres.{pg_enter, pg_sql_profile_service, pg-Refines}
use modern_mcs.SqlProfile.Spec.{perform_on, gives, fails}
use modern_mcs.SqlProfile.Spec.FileAnswers.{IsAnswered, perform_on-sql_profile_service}
use modern_mcs.SqlProfile.Spec.Answers.{
  IsHealthy, expected_answer, named_in, perform_on-pg_sql_profile_service,
}
use modern_mcs.SqlProfile.Types.{message}
use modern_mcs.Http.Wiring.{sql_profile_service}
use modern_mcs.Tests.Fixtures.{Bytes, roles_column, micros, profiles_codec, repeat}
use modern_mcs.Tests.SqlProfile.{input, stored, service}

abbrev one : Session
one = record {
  id = "s1";
  token = "t1";
  user_id = "u1";
  username = "admin";
  roles = "admin" ∷ [];
  created_at = 1234567;
  expires_at = 9234567;
}

abbrev two : Session
two = record one { id = "s2"; token = "t2" }

abbrev both : Dict Session
both = ("t1", one) ∷ ("t2", two) ∷ []

abbrev session_faults : Reply → SessionFaults Bytes
session_faults commit = record {
  schema_fails = false;
  query_fails = false;
  scan_fails = λ token. false;
  iteration_fails = false;
  begin_fails = false;
  clear_fails = false;
  insert_fails = λ token row. false;
  commit = commit;
}

abbrev pub table : Reply → PgSessionStore Bytes
table commit = record { rows = []; faults = session_faults commit }

readable : (commit : Reply) → IsReadable micros roles_column (table commit)
readable commit = record { query = refl; scan = λ token. refl; iteration = refl }

saved : (pg_save micros roles_column (table applied) both).0 ≡ ok tt
unfolding pg_save insert_sessions clashes session_row is_taken lookup
saved = refl

-- Two sessions of one id do not fit into the table.
refused_twins :
    (pg_save micros roles_column (table applied) (("t1", one) ∷ ("t3", one) ∷ [])).1 ≡ table applied
unfolding pg_save insert_sessions clashes session_row is_taken lookup
refused_twins = refl

pg-IsSessionStore_example :
    IsSessionStore
      (pg_session_store micros roles_column)
      (pg_keeps micros roles_column)
      (IsReadable micros roles_column)
pg-IsSessionStore_example = pg-IsSessionStore micros roles_column

pg_save_atomic_example :
    IsUnchanged micros roles_column (table lost) both
    ⊎ IsReplaced micros roles_column (table lost) both
pg_save_atomic_example = pg_save_atomic micros roles_column (table lost) both (readable lost)

pg-IsUserStore_example :
    IsUserStore (pg_user_store roles_column) trim_space (λ s. s.faults.query_fails ≡ false)
pg-IsUserStore_example = pg-IsUserStore roles_column

abbrev profile_faults : ProfileFaults
profile_faults = record {
  schema_fails = false;
  query_fails = false;
  scan_fails = λ id. false;
  breaks_after = none;
  get_fails = λ id. false;
  insert = λ p. applied;
  update = λ id p. applied;
  delete = λ id. applied;
  count_fails = false;
}

-- The answers to changes of rows are lost.
abbrev losing : ProfileFaults
losing = record profile_faults { update = λ id p. lost }

abbrev profiles : PgService
profiles = record { rows = ("p1", stored) ∷ []; faults = profile_faults }

abbrev calls : List (ProfileFaults × Call)
calls =
    (profile_faults, creates 7001 (some (repeat 12 9)) input)
    ∷ (losing, updates 9002 " p1 " (record input { name = "other" }))
    ∷ (profile_faults, deletes "gone")
    ∷ []

stored-fine : validate stored ≡ ok tt
unfolding validate trim_space trim_left trim_right push_trimmed is_space to_lower lower_char
    translate
stored-fine = refl

profiles-IsSound : IsSound (pg_view profiles)
unfolding lookup
profiles-IsSound id p h = elim (Bool-cases ("p1" == id)) [
  | inr e ↦ cc (rw e at h)
  | inl e ↦
      let same : stored ≡ p = ap (λ o. elim o [ some x ↦ x | none ↦ p ]) (rw e at h) in
      (rw (sym same) stored-fine, rw (sym same) ((eq_iff "p1" id).0 e))
]

file-Refines_example :
    Refines (sql_profile_service profiles_codec) file_view file_enter (λ id. id) (λ t. t) ⊥
file-Refines_example = file-Refines profiles_codec

pg-Refines_example :
    Refines (pg_sql_profile_service micros) pg_view pg_enter trim_space micros.stored Unit
pg-Refines_example = pg-Refines micros

run_refines_example :
    Runs trim_space micros.stored Unit
      (pg_view profiles)
      (perform_history (pg_sql_profile_service micros) pg_enter calls profiles).0
      (pg_view (perform_history (pg_sql_profile_service micros) pg_enter calls profiles).1)
run_refines_example =
    run_refines (pg_sql_profile_service micros) pg_view pg_enter (pg-Refines micros) calls profiles

run-IsSound_example :
    IsSound (pg_view (perform_history (pg_sql_profile_service micros) pg_enter calls profiles).1)
run-IsSound_example =
    run-IsSound (pg_sql_profile_service micros) pg_view pg_enter (pg-Refines micros) calls profiles
      profiles-IsSound

healthy : IsHealthy profile_faults
healthy = record {
  get = λ id. refl;
  insert = λ p. refl;
  update = λ id p. refl;
  delete = λ id. refl;
  count = refl;
}

perform_on-pg_sql_profile_service_example :
    (perform_on (pg_sql_profile_service micros) (deletes " p1") profiles).0
    ≡ expected_answer
        (λ p. fails (message "insert sql profile"))
        micros.stored
        (named_in profiles)
        (pg_view profiles)
        (deletes " p1")
perform_on-pg_sql_profile_service_example =
    perform_on-pg_sql_profile_service micros (deletes " p1") profiles healthy

perform_on-sql_profile_service_example :
    IsAnswered profiles_codec service
      (updates 9 "p1" input)
      (expected_answer gives
        (λ t. t)
        (file_view service)
        (file_view service)
        (updates 9 "p1" input))
      (perform_on (sql_profile_service profiles_codec) (updates 9 "p1" input) service)
perform_on-sql_profile_service_example =
    perform_on-sql_profile_service profiles_codec service (updates 9 "p1" input)

-- ===== src/Tests/System.antt =====
-- The command that waits, the audit log and a second start, on concrete data.
use modern_mcs.Prelude.{
  String, ◌≡◌, refl, List, [], ◌∷◌, Option, none, some, Result, ok, err, Bool, true, false, arith,
  eq_iff, ◌≢◌, ◌&&◌, pos, not-eq→ne, leb, ◌==◌, if◌then◌else◌,
}
use modern_mcs.Text.{contains_char, has_prefix, trim_prefix, drop_chars}
use modern_mcs.Text.Path.{
  join, clean, clean_elements, clean_onto, clean_step, split_path, join_path,
}
use modern_mcs.Http.Frontend.{
  Stat, Served, not_found, serve_file, from_directory, index_path, frontend_handler,
  register_frontend_handlers,
}
use modern_mcs.Http.Files.{IsServed, register_frontend_handlers-IsServed}
use modern_mcs.Commands.Wait.{Exit, ready, Surroundings, main, time_limit}
use modern_mcs.Commands.Wait.Ends.{main-ends, main_ready}
use modern_mcs.Config.Number.{seconds}
use modern_mcs.Config.Defs.{Config}
use modern_mcs.Audit.{Event, EventCodec, Faults, Logger, Entry, new_logger}
use modern_mcs.Audit.Journal.{read_log, log_all, logged, read_log-log_all, start}
use modern_mcs.App.{StartError, App, Disks, start_on_files, start_auth, service_config}
use modern_mcs.App.Restart.{login_after_restart}
use modern_mcs.Dict.{Dict, lookup, insert, values}
use modern_mcs.Auth.Types.{Session, invalid_credentials}
use modern_mcs.Text.{trim_space, trim_left, trim_right, push_trimmed, is_space}
use modern_mcs.Disk.{write_file}
use modern_mcs.Auth.State.{new_service}
use modern_mcs.Auth.Persistence.{load_session_state, read_sessions}
use modern_mcs.Auth.Bootstrap.{ensure_bootstrap_user, bootstrap_user}
use modern_mcs.Auth.Types.{is_user_not_found}
use modern_mcs.Auth.Service.{login}
use modern_mcs.SqlProfile.Service.{new_service_with_file, load_state}
use modern_mcs.Auth.Users.File.{
  FileUserStore, new_file_user_store, load as file_load, file_get_by_username, file_put,
  persist_locked, marshal_user, unmarshal_user, add_users,
}
use modern_mcs.SqlProfile.Service as sqlprofile
use modern_mcs.Migrations.Store.{FileAppliedStore}
use modern_mcs.Tests.Fixtures.{
  Bytes, file_platform, users_codec, profiles_codec, empty_disk, steady,
}
use modern_mcs.Tests.Auth.{restarted_service}

-- A server that answers from the fifth second on.
abbrev around : Surroundings
around = record {
  ping = λ start. record { succeeds = leb 5_000_000_000 start; takes = 1_000_000 };
  late = λ start. 1000;
}

main-ends_example : (exit : Exit) × (main around "postgres://" "30" true 0 ≡ some exit)
main-ends_example = main-ends around "postgres://" "30" true 0

default_limit : time_limit "" ≡ some (pos 60_000_000_000)
unfolding time_limit seconds
default_limit = refl

main_ready_example : main around "postgres://" "" true 0 ≡ some ready
main_ready_example =
    main_ready around "postgres://" "" true 0 (pos 60_000_000_000) (not-eq→ne "postgres://" "" refl)
      default_limit refl 5_000_000_000 (λ start h. ground arith) (λ start. omega arith)
      (omega arith)

-- A codec that knows the one event of the test.
abbrev event : Event
event = record {
  at = "noon";
  actor = "admin";
  action = "auth.login";
  target = "";
  outcome = "success";
  detail = "rid=r1";
}

abbrev encode_event : Event → Option String
encode_event e =
    if e.at == "noon"
      && e.actor == "admin"
      && e.action == "auth.login"
      && e.target == ""
      && e.outcome == "success"
      && e.detail == "rid=r1"
    then some "{}"
    else none

decode_event : (e : Event) (text : String) → encode_event e ≡ some text → some event ≡ some e
decode_event e text h = ground (
  arith,
  eq_iff e.at "noon",
  eq_iff e.actor "admin",
  eq_iff e.action "auth.login",
  eq_iff e.target "",
  eq_iff e.outcome "success",
  eq_iff e.detail "rid=r1",
)

one_line :
    (e : Event) (text : String) → encode_event e ≡ some text → contains_char text b'\n' ≡ false
unfolding contains_char
one_line e text h = let same : text ≡ "{}" = ground arith in rw same refl

abbrev events_codec : EventCodec
events_codec = record {
  encode = encode_event;
  decode = λ text. some event;
  decode-encode = decode_event;
  encode_one_line = one_line;
}

abbrev works : Faults
works = record { mkdir_fails = false; open_fails = false; write_fault = none }

abbrev entry : Entry
entry = record {
  now = 5;
  actor = "admin";
  action = "auth.login";
  target = "";
  outcome = "success";
  detail = "rid=r1";
}

-- The second call finds no file that it can open.
abbrev turns : List (Faults × Entry)
turns = (works, entry) ∷ (record works { open_fails = true }, entry) ∷ (works, entry) ∷ []

abbrev logger : Logger
logger = new_logger "audit.log" "" works

read_log-log_all_example :
    read_log events_codec (λ t. "noon") (log_all events_codec (λ t. "noon") turns logger)
    ≡ some (logged events_codec (λ t. "noon") turns logger)
unfolding new_logger
read_log-log_all_example =
    read_log-log_all events_codec (λ t. "noon") turns logger [] (not-eq→ne "audit.log" "" refl)
      (refl, (refl, (refl, tt))) start

abbrev pub config : Config
config = record {
  http = record {
    addr = ":8080";
    read_timeout = pos 10;
    write_timeout = pos 15;
    shutdown_timeout = pos 20;
  };
  database_url = "";
  auth = record {
    bootstrap_username = "a";
    bootstrap_password = "b";
    password_pepper = "c";
    session_ttl = pos 3600;
    session_state_file = "s";
    user_state_file = "u";
  };
  frontend_dist_dir = "w";
  sql_profile_state_file = "p";
  migrations_dir = "m";
  migration_state_file = "n";
  audit_log_file = "l";
}

abbrev disks : Disks Bytes Bytes Bytes Bytes
disks = record {
  users = empty_disk;
  sessions = empty_disk;
  profiles = empty_disk;
  applied = empty_disk;
  audited = "";
  audit_faults = works;
}

abbrev FileApp : Type 0
FileApp =
    App (FileUserStore Bytes) (Dict Session) Bytes (sqlprofile.Service Bytes)
      (FileAppliedStore Bytes)

abbrev spare : FileApp
spare = record {
  auth = restarted_service;
  profiles = record { state_file = ""; profiles = []; disk = empty_disk };
  migrations = record { state_file = ""; disk = empty_disk };
  audit = logger;
}

abbrev pub is_ok {ℓ κ} : {E : Type ℓ} {A : Type κ} → Result E A → Bool
is_ok (ok a) = true
is_ok (err e) = false

abbrev pub value_of {ℓ κ} : {E : Type ℓ} {A : Type κ} → A → Result E A → A
value_of a (ok b) = b
value_of a (err e) = a

pub value_of_ok {ℓ κ} :
    {E : Type ℓ} {A : Type κ} (a : A) (r : Result E A) → is_ok r ≡ true → r ≡ ok (value_of a r)
value_of_ok a (ok b) h = refl
value_of_ok a (err e) h = cc

unfoldable starts : Disks Bytes Bytes Bytes Bytes → Result StartError FileApp
starts d = start_on_files file_platform users_codec profiles_codec config d

abbrev later : Disks Bytes Bytes Bytes Bytes
later = record disks { users = (value_of spare (starts disks)).auth.users.disk }

first_start : is_ok (starts disks) ≡ true
unfolding starts start_on_files start_auth service_config new_file_user_store trim_space trim_left
    trim_right push_trimmed is_space file_load new_service load_session_state read_sessions
    ensure_bootstrap_user file_get_by_username lookup is_user_not_found file_put persist_locked
    write_file new_service_with_file load_state
first_start = refl

second_start : is_ok (starts later) ≡ true
unfolding starts start_on_files start_auth service_config new_file_user_store trim_space trim_left
    trim_right push_trimmed is_space file_load new_service load_session_state read_sessions
    ensure_bootstrap_user file_get_by_username lookup is_user_not_found file_put persist_locked
    write_file new_service_with_file load_state bootstrap_user insert values marshal_user
    unmarshal_user add_users
second_start = refl

login_after_restart_example :
    login file_platform 9 (steady 171) "a" "b" (value_of spare (starts later)).auth
    ≡ (err invalid_credentials, (value_of spare (starts later)).auth)
unfolding starts trim_space trim_left trim_right push_trimmed is_space
login_after_restart_example =
    login_after_restart file_platform users_codec refl config profiles_codec disks later
      (value_of spare (starts disks)) (value_of spare (starts later)) (not-eq→ne "a" "" refl)
      (value_of_ok spare (starts disks) first_start) refl
      (value_of_ok spare (starts later) second_start) 9 (steady 171) "a" "b"

-- A directory with an index and one more file.
abbrev frontend : Stat
frontend path =
    if path == "web/index.html"
    then some false
    else if path == "web/app.js"
    then some false
    else if path == "web"
    then some true
    else none

abbrev frontend_of : String → Served
frontend_of = frontend_handler frontend "web"

frontend_there : register_frontend_handlers frontend " web" ≡ some frontend_of
unfolding register_frontend_handlers trim_space trim_left trim_right push_trimmed is_space join
    clean clean_elements clean_onto clean_step split_path join_path has_prefix
frontend_there = refl

-- A file, a path that climbs above the root, and a path of the API.
served :
    (frontend_of "/app.js" ≡ from_directory "web/app.js")
    × (frontend_of "/../../etc/passwd" ≡ serve_file "web/index.html")
    × (frontend_of "/v1/unknown" ≡ not_found)
unfolding frontend_handler join clean clean_elements clean_onto clean_step split_path join_path
    has_prefix trim_prefix drop_chars
served = (refl, refl, refl)

register_frontend_handlers-IsServed_example :
    (trim_space " web" ≢ "")
    × (frontend (index_path (trim_space " web")) ≢ none)
    × IsServed frontend (trim_space " web") "/../x/../app.js" (frontend_of "/../x/../app.js")
unfolding has_prefix
register_frontend_handlers-IsServed_example =
    register_frontend_handlers-IsServed frontend " web" frontend_of "/../x/../app.js" frontend_there
      refl

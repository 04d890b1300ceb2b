-- ===== src/Tests/SecondStart.antt =====
-- Two starts over one table of users.
use modern_mcs.Prelude.{◌≡◌, refl, [], none, some, ok, false}
use modern_mcs.Text.{trim_space, trim_left, trim_right, push_trimmed, is_space}
use modern_mcs.Dict.{lookup}
use modern_mcs.Postgres.{applied, is_taken}
use modern_mcs.Auth.Sessions.Table.{PgSessionStore, pg_session_store}
use modern_mcs.Auth.Users.Pg.{pg_user_store, pg-IsUserStore}
use modern_mcs.Auth.Types.{user_not_found, is_user_not_found}
use modern_mcs.Auth.State as auth
use modern_mcs.Auth.State.{Platform, new_service, generate_token}
use modern_mcs.Auth.Persistence.{load_session_state}
use modern_mcs.Auth.Service.{login, open_session, new_session, hash_password}
use modern_mcs.Auth.Bootstrap.{ensure_bootstrap_user, bootstrap_user}
use modern_mcs.Auth.Sessions.Table.{pg_load, scan_sessions}
use modern_mcs.Dict.{insert}
use modern_mcs.Prelude.{err, true, Result}
use modern_mcs.Auth.Users.Pg.{PgUserStore, pg_get_by_username, pg_put, upsert_user, row_user}
use modern_mcs.Postgres.{decode_list}
use modern_mcs.Text.Hex.{encode_to_string, nth_char}
use modern_mcs.App.{StartError, start_auth, service_config}
use modern_mcs.App.Start.{first_user, login_after_second_start}
use modern_mcs.Tests.System.{config, is_ok, value_of, value_of_ok}
use modern_mcs.Tests.Postgres.{table}
use modern_mcs.Tests.Fixtures.{
  Bytes, roles_column, micros, repeat, session_codec, checksum, checksum_length, checksum_bytes,
  weight, ascii_tables, empty_disk, steady,
}

-- The auth service over PostgreSQL.
abbrev pg_platform : Platform (PgUserStore Bytes) (PgSessionStore Bytes) Bytes
pg_platform = record {
  users = pg_user_store roles_column;
  session_store = pg_session_store micros roles_column;
  json = session_codec;
  sum256 = checksum;
  sum256_length = checksum_length;
  sum256_bytes = checksum_bytes;
  tables = ascii_tables;
}

abbrev no_users : PgUserStore Bytes
no_users = record {
  rows = [];
  faults = record { schema_fails = false; query_fails = false; upsert = λ username row. applied };
}

abbrev spare : auth.Service (PgUserStore Bytes) (PgSessionStore Bytes) Bytes
spare = record {
  users = no_users;
  pepper = "";
  ttl = 0;
  state_file = "";
  session_store = none;
  sessions = [];
  disk = empty_disk;
}

unfoldable starts :
    PgUserStore Bytes
    → Result StartError (auth.Service (PgUserStore Bytes) (PgSessionStore Bytes) Bytes)
starts users = start_auth pg_platform config users (some (table applied)) empty_disk

no_first_user : pg_get_by_username roles_column no_users "a" ≡ err user_not_found
unfolding pg_get_by_username trim_space trim_left trim_right push_trimmed is_space lookup
no_first_user = refl

first_start : is_ok (starts no_users) ≡ true
unfolding starts start_auth service_config new_service load_session_state pg_load scan_sessions
    ensure_bootstrap_user bootstrap_user pg_get_by_username trim_space trim_left trim_right
    push_trimmed is_space lookup is_user_not_found pg_put upsert_user is_taken hash_password
    encode_to_string nth_char checksum weight repeat
first_start = refl

second_start : is_ok (starts (value_of spare (starts no_users)).users) ≡ true
unfolding starts start_auth service_config new_service load_session_state pg_load scan_sessions
    ensure_bootstrap_user bootstrap_user pg_get_by_username trim_space trim_left trim_right
    push_trimmed is_space lookup is_user_not_found pg_put upsert_user is_taken hash_password
    encode_to_string nth_char checksum weight repeat insert row_user decode_list
second_start = refl

fresh : generate_token 32 (steady 171).for_token ≡ ok (encode_to_string (repeat 32 171))
unfolding generate_token
fresh = refl

abbrev second_service : auth.Service (PgUserStore Bytes) (PgSessionStore Bytes) Bytes
second_service = value_of spare (starts (value_of spare (starts no_users)).users)

login_after_second_start_example :
    login pg_platform 9 (steady 171) "a" "b" second_service
    ≡ open_session pg_platform
        (new_session pg_platform 9
          (steady 171)
          (encode_to_string (repeat 32 171))
          (first_user pg_platform (pg-IsUserStore roles_column) config)
          second_service)
        second_service
unfolding starts
login_after_second_start_example =
    login_after_second_start pg_platform (pg-IsUserStore roles_column) config no_users
      (some (table applied)) (some (table applied)) empty_disk empty_disk
      (value_of spare (starts no_users)) second_service refl no_first_user
      (value_of_ok spare (starts no_users) first_start)
      (value_of_ok spare (starts (value_of spare (starts no_users)).users) second_start) 9
      (steady 171) (encode_to_string (repeat 32 171)) fresh

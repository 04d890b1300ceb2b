-- ===== src/Tests/Auth.antt =====
-- A service with one user, and instances of the theorems on users, passwords and logins.
use mathlib.Core.Option
use modern_mcs.Prelude.{
  ◌+◌, String, ◌≡◌, ◌≢◌, ◌↔◌, refl, [], ◌∷◌, none, some, ok, err, not-eq→ne, eq_iff, ◌==◌,
  if◌then◌else◌, arith,
}
use modern_mcs.Text.{trim_space, trim_left, trim_right, push_trimmed, is_space}
use modern_mcs.Text.Hex.{encode_to_string, nth_char}
use modern_mcs.Dict.{lookup, insert, values}
use modern_mcs.Disk.{write_file}
use modern_mcs.Dict.Laws.{HasDistinctKeys}
use modern_mcs.Auth.Types.{
  User, Session, invalid_credentials, weak_password, user_not_found, is_user_not_found, message,
}
use modern_mcs.Auth.Policy.{validate_password_policy, see_all, see}
use modern_mcs.Auth.Policy.Laws.{IsStrong, validate_password_policy_iff}
use modern_mcs.Auth.Users.Memory.{
  InMemoryUserStore, new_in_memory_user_store, memory_get_by_username, memory_put,
}
use modern_mcs.Auth.Users.Laws.{IsKeyed, memory-IsUserStore}
use modern_mcs.Auth.Users.File.{
  FileUserStore, persist_locked, new_file_user_store, load, add_users, marshal_user, unmarshal_user,
}
use modern_mcs.Auth.Users.Reload.{new_file_user_store-persist_locked, without_hash}
use modern_mcs.Auth.Bootstrap.{ensure_bootstrap_user, login-ensure_bootstrap_user}
use modern_mcs.Auth.Lockout.{login_after_reload}
use modern_mcs.Auth.Service.NewPassword.{login_new_password, login_old_password}
use modern_mcs.Auth.Service.Password.{IsChange, change_password_ok}
use modern_mcs.Auth.State.{is_expired, Service, generate_token, must_id}
use modern_mcs.Auth.Persistence.{persist_sessions_locked, write_sessions}
use modern_mcs.Auth.Service.{
  change_password, validate_token, replace_password, hash_password, verify_password, new_session,
  open_session, login,
}
use modern_mcs.Auth.Service.Login.{IsLogin, login-IsLogin}
use modern_mcs.Tests.Fixtures.{
  Bytes, ascii_tables, users_codec, file_platform, platform, steady, repeat, checksum, weight,
  empty_disk, full_disk,
}
use modern_mcs.Dict.{Dict}

abbrev pub secret : String
secret = "Sup3r-Secret!"

abbrev pub admin : User
admin = record {
  id = "bootstrap-admin";
  username = "admin";
  password_hash = hash_password platform "pepper" secret;
  roles = "admin" ∷ [];
}

abbrev pub start : Service InMemoryUserStore (Dict Session) Bytes
start = record {
  users = record { users = ("admin", admin) ∷ [] };
  pepper = "pepper";
  ttl = 1000;
  state_file = "sessions.json";
  session_store = none;
  sessions = [];
  disk = empty_disk;
}

abbrev pub token : String
token = encode_to_string (repeat 32 171)

abbrev pub session : Session
session = new_session platform 100 (steady 171) token admin start

pub start-login : (login platform 100 (steady 171) "admin" secret start).0 ≡ ok session
unfolding login memory_get_by_username lookup verify_password hash_password generate_token
    open_session persist_sessions_locked write_sessions new_session must_id write_file checksum
    weight repeat encode_to_string nth_char insert
start-login = refl

login-IsLogin_example :
    IsLogin platform 100 (steady 171) "admin" secret start session
    × ((t : String)
        → lookup t (login platform 100 (steady 171) "admin" secret start).1.sessions
          ≡ (if session.token == t then some session else lookup t start.sessions))
login-IsLogin_example =
    login-IsLogin platform 100 (steady 171) "admin" secret start session start-login

validate_password_policy_iff_example :
    (validate_password_policy ascii_tables secret ≡ ok tt) ↔ IsStrong ascii_tables secret
validate_password_policy_iff_example = validate_password_policy_iff ascii_tables secret

accepted : validate_password_policy ascii_tables secret ≡ ok tt
unfolding validate_password_policy see_all see trim_space trim_left trim_right push_trimmed is_space
accepted = refl

refused : validate_password_policy ascii_tables "no digits here!" ≡ err weak_password
unfolding validate_password_policy see_all see trim_space trim_left trim_right push_trimmed is_space
refused = refl

-- The same service on a disk that takes no write.
abbrev full : Service InMemoryUserStore (Dict Session) Bytes
full = record start { disk = full_disk }

full-login :
    (login platform 100 (steady 171) "admin" secret full).0 ≡ err (message "write session state")
unfolding login memory_get_by_username lookup verify_password hash_password generate_token
    open_session persist_sessions_locked write_sessions new_session must_id write_file checksum
    weight repeat encode_to_string nth_char insert
full-login = refl

abbrev fresh_secret : String
fresh_secret = "An0ther-Secret!"

-- The service with the session of the login.
abbrev pub entered : Service InMemoryUserStore (Dict Session) Bytes
entered = record start { sessions = (token, session) ∷ [] }

changed : (change_password platform 200 token secret fresh_secret entered).0 ≡ ok tt
unfolding change_password validate_password_policy see_all see trim_space trim_left trim_right
    push_trimmed is_space validate_token lookup replace_password memory_get_by_username memory_put
    verify_password hash_password checksum weight repeat encode_to_string nth_char new_session
    is_expired insert
changed = refl

change_password_ok_example : IsChange platform 200 token secret fresh_secret entered
change_password_ok_example =
    change_password_ok platform 200 token secret fresh_secret entered changed

in_force : (validate_token platform 200 token entered).0 ≡ ok session
unfolding validate_token lookup encode_to_string nth_char repeat new_session is_expired
in_force = refl

known : memory_get_by_username entered.users session.username ≡ ok admin
unfolding memory_get_by_username lookup new_session
known = refl

users-IsKeyed : IsKeyed entered.users.users
unfolding lookup
users-IsKeyed name user h = ground (arith, eq_iff "admin" name)

abbrev changed_service : Service InMemoryUserStore (Dict Session) Bytes
changed_service = (change_password platform 200 token secret fresh_secret entered).1

abbrev later_token : String
later_token = encode_to_string (repeat 32 205)

made : generate_token 32 (steady 205).for_token ≡ ok later_token
unfolding generate_token
made = refl

abbrev changed_admin : User
changed_admin = record admin { password_hash = hash_password platform "pepper" fresh_secret }

login_new_password_example :
    login platform 300 (steady 205) session.username fresh_secret changed_service
    ≡ open_session platform
        (new_session platform 300 (steady 205) later_token changed_admin changed_service)
        changed_service
login_new_password_example =
    login_new_password platform memory-IsUserStore 200 token secret fresh_secret entered
      users-IsKeyed changed session in_force admin known 300 (steady 205) later_token made

hashes-differ :
    hash_password platform "pepper" secret ≢ hash_password platform "pepper" fresh_secret
unfolding hash_password checksum weight repeat encode_to_string nth_char
hashes-differ = not-eq→ne _ _ refl

login_old_password_example :
    login platform 300 (steady 205) session.username secret changed_service
    ≡ (err invalid_credentials, changed_service)
login_old_password_example =
    login_old_password platform memory-IsUserStore 200 token secret fresh_secret entered
      users-IsKeyed changed session in_force admin known 300 (steady 205) hashes-differ

-- A store on a file with one user, written and read back.
abbrev pub filed : FileUserStore Bytes
filed = record { path = "users.json"; users = ("admin", admin) ∷ []; disk = empty_disk }

filed-distinct : HasDistinctKeys filed.users
unfolding lookup
filed-distinct = (refl, tt)

filed-trimmed : trim_space filed.path ≡ filed.path
unfolding trim_space trim_left trim_right push_trimmed is_space
filed-trimmed = refl

filed-written : (persist_locked users_codec filed).0 ≡ ok tt
unfolding persist_locked write_file
filed-written = refl

new_file_user_store-persist_locked_example :
    (s' : FileUserStore Bytes) × (new_file_user_store users_codec "users.json"
        (persist_locked users_codec filed).1.disk
      ≡ ok s')
    × ((name : String)
        → trim_space name ≢ ""
        → lookup name s'.users ≡ Option.map without_hash (lookup name filed.users))
new_file_user_store-persist_locked_example =
    new_file_user_store-persist_locked users_codec filed users-IsKeyed filed-distinct filed-trimmed
      (not-eq→ne "users.json" "" refl) filed-written

abbrev pub reloaded : FileUserStore Bytes
reloaded = record {
  path = "users.json";
  users = ("admin", record admin { password_hash = "" }) ∷ [];
  disk = (persist_locked users_codec filed).1.disk;
}

reloaded-ok :
    new_file_user_store users_codec "users.json" (persist_locked users_codec filed).1.disk
    ≡ ok reloaded
unfolding new_file_user_store persist_locked write_file load add_users marshal_user unmarshal_user
    trim_space trim_left trim_right push_trimmed is_space insert values
reloaded-ok = refl

abbrev pub restarted_service : Service (FileUserStore Bytes) (Dict Session) Bytes
restarted_service = record {
  users = reloaded;
  pepper = "pepper";
  ttl = 1000;
  state_file = "sessions.json";
  session_store = none;
  sessions = [];
  disk = empty_disk;
}

login_after_reload_example :
    login file_platform 400 (steady 171) "admin" secret restarted_service
    ≡ (err invalid_credentials, restarted_service)
login_after_reload_example =
    login_after_reload file_platform users_codec refl "users.json"
      (persist_locked users_codec filed).1.disk restarted_service reloaded-ok 400 (steady 171)
      "admin" secret

-- The service before it has a user.
abbrev bare : Service InMemoryUserStore (Dict Session) Bytes
bare = record start { users = new_in_memory_user_store }

bare-absent : memory_get_by_username bare.users "admin" ≡ err user_not_found
unfolding memory_get_by_username lookup new_in_memory_user_store
bare-absent = refl

bare-IsKeyed : IsKeyed bare.users.users
unfolding new_in_memory_user_store lookup
bare-IsKeyed name user h = cc

bare-put : (ensure_bootstrap_user platform "admin" secret bare).0 ≡ ok tt
unfolding ensure_bootstrap_user memory_get_by_username lookup new_in_memory_user_store
    is_user_not_found memory_put
bare-put = refl

abbrev bootstrapped : Service InMemoryUserStore (Dict Session) Bytes
bootstrapped = (ensure_bootstrap_user platform "admin" secret bare).1

login-ensure_bootstrap_user_example :
    (ensure_bootstrap_user platform "admin" secret bootstrapped ≡ (ok tt, bootstrapped))
    × (login platform 300 (steady 205) "admin" secret bootstrapped
        ≡ open_session platform
            (record {
              id = must_id 16 (steady 205).for_id (steady 205).unix_nano;
              token = later_token;
              user_id = "bootstrap-admin";
              username = "admin";
              roles = "admin" ∷ [];
              created_at = 300;
              expires_at = 300 + bare.ttl;
            })
            bootstrapped)
login-ensure_bootstrap_user_example =
    login-ensure_bootstrap_user platform "admin" secret memory-IsUserStore bare bare-IsKeyed
      bare-absent bare-put 300 (steady 205) later_token made

-- ===== src/Tests/Sessions.antt =====
-- Instances of the theorems on sessions, for the service of the tests.
use modern_mcs.Prelude.{
  String, ◌≡◌, ◌⊎◌, ◌↔◌, refl, List, [], ◌∷◌, All, none, some, ok, err, false, not-eq→ne, ◌==◌,
  if◌then◌else◌, ◌≤◌, arith,
}
use modern_mcs.Text.Hex.{encode_to_string, nth_char}
use modern_mcs.Dict.{Dict, lookup, insert, keep, values}
use modern_mcs.Dict.Laws.{HasDistinctKeys}
use modern_mcs.Disk.{write_file}
use modern_mcs.Auth.Types.{Session, invalid_token}
use modern_mcs.Auth.Users.Memory.{InMemoryUserStore, memory_get_by_username}
use modern_mcs.Auth.State.{Service, generate_token, must_id, is_expired}
use modern_mcs.Auth.Persistence.{persist_sessions_locked, write_sessions}
use modern_mcs.Auth.Service.{
  verify_password, hash_password, open_session, new_session, login, validate_token, logout,
  delete_token, list_sessions, revoke_session_by_id,
}
use modern_mcs.Auth.Service.Tokens.{validate_token_iff}
use modern_mcs.Auth.Service.Listing.{revoke_session_by_id_lem}
use modern_mcs.Auth.Service.Run.{
  Call, step, logs_in, validates, lists, IsFair, IsFilled, IsSessionMap, run, run-IsSessionMap,
}
use modern_mcs.Auth.Service.Origin.{IssuedIn, run-IssuedIn}
use modern_mcs.Auth.Service.Durability.{IsStored, IsDurable, login-IsDurable, logout-IsDurable}
use modern_mcs.Tests.Fixtures.{
  Bytes, platform, steady, repeat, checksum, weight, memory_sessions-IsSessionStore,
}
use modern_mcs.Tests.Auth.{secret, start, token, session, start-login, entered}

validate_token_iff_example :
    ((validate_token platform 200 token entered).0 ≡ ok session)
    ↔ ((lookup token entered.sessions ≡ some session) × (200 ≤ session.expires_at))
validate_token_iff_example = validate_token_iff platform entered 200 token session

abbrev after_login : Service InMemoryUserStore (Dict Session) Bytes
after_login = (login platform 100 (steady 171) "admin" secret start).1

entered-distinct : HasDistinctKeys entered.sessions
unfolding lookup
entered-distinct = (refl, tt)

entered-named : lookup "" entered.sessions ≡ none
unfolding lookup encode_to_string nth_char repeat
entered-named = refl

revoke_session_by_id_lem_example :
    ((revoke_session_by_id platform session.id entered ≡ (err invalid_token, entered))
      × ((t : String) (sess : Session)
          → lookup t entered.sessions ≡ some sess
          → (sess.id == session.id) ≡ false))
    ⊎ ((token' : String) × (sess : Session) × (lookup token' entered.sessions ≡ some sess)
        × (sess.id ≡ session.id)
        × ((t : String)
            → lookup t (revoke_session_by_id platform session.id entered).1.sessions
              ≡ (if token' == t then none else lookup t entered.sessions)))
revoke_session_by_id_lem_example =
    revoke_session_by_id_lem platform entered session.id entered-distinct entered-named

-- A history: a login, a check of its token, a listing.
abbrev history : List Call
history = logs_in 100 (steady 171) "admin" secret ∷ validates 200 token ∷ lists 300 ∷ []

pub steady-IsFilled : IsFilled (steady 171)
unfolding repeat
steady-IsFilled b read = ground (arith, read)

history-IsFair : All IsFair history
history-IsFair = (steady-IsFilled, (tt, (tt, tt)))

start-IsSessionMap : IsSessionMap start.sessions
unfolding lookup
start-IsSessionMap = record { distinct = tt; keyed = λ t sess h. ground (arith, h); named = refl }

run-IsSessionMap_example : IsSessionMap (run platform start history).sessions
run-IsSessionMap_example = run-IsSessionMap platform start history start-IsSessionMap history-IsFair

issued : lookup token (run platform start history).sessions ≡ some session
unfolding run step login memory_get_by_username lookup verify_password hash_password generate_token
    open_session persist_sessions_locked write_sessions new_session must_id write_file checksum
    weight repeat encode_to_string nth_char insert validate_token is_expired list_sessions keep
    values
issued = refl

run-IssuedIn_example :
    (lookup token start.sessions ≡ some session) ⊎ IssuedIn platform token session start history
run-IssuedIn_example =
    run-IssuedIn platform token session start history start-IsSessionMap history-IsFair issued

start-IsStored : IsStored platform memory_sessions-IsSessionStore start
start-IsStored = record {
  named = λ nowhere. not-eq→ne "sessions.json" "" refl;
  readable = λ store there. tt;
}

entered-IsStored : IsStored platform memory_sessions-IsSessionStore entered
entered-IsStored = record {
  named = λ nowhere. not-eq→ne "sessions.json" "" refl;
  readable = λ store there. tt;
}

login-IsDurable_example : IsDurable platform (λ token sess. sess) after_login
login-IsDurable_example =
    login-IsDurable platform memory_sessions-IsSessionStore 100 (steady 171) "admin" secret start
      session start-IsStored start-login

left : (logout platform token entered).0 ≡ ok tt
unfolding logout lookup encode_to_string nth_char repeat delete_token persist_sessions_locked
    write_sessions write_file new_session
left = refl

logout-IsDurable_example : IsDurable platform (λ token sess. sess) (logout platform token entered).1
logout-IsDurable_example =
    logout-IsDurable platform memory_sessions-IsSessionStore token entered entered-IsStored left

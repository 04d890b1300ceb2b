-- ===== src/Auth/Service.antt =====
-- internal/auth/service.go: the sessions in memory, which every change writes to a session store
-- or to a file, and the passwords. A method takes the service and returns its result beside the new
-- service. The clock and the random source of a call are arguments. Each method is one step, also
-- where the code holds the lock of the sessions for a part of it only, as in `Login`,
-- `ValidateToken` and `ChangePassword`.
pub mod Frame
pub mod Login
pub mod Tokens
pub mod Listing
pub mod Password
pub mod NewPassword
pub mod Lifetime
pub mod Run
pub mod Origin
pub mod Durability
use Prim.Native.String
use modern_mcs.Prelude.{
  ℕ, ◌+◌, String, Bool, true, false, not, ◌≡◌, All, length, List, [], ◌∷◌, map, ◌<◌, Option, none,
  some, Result, ok, err, ltb, ◌==◌, any, if◌then◌else◌, ℤ, pos_part,
}
use modern_mcs.Text.Hex.{encode_to_string}
use modern_mcs.Text.Decimal.{decimal}
use modern_mcs.Dict.{Dict, lookup, insert, erase, values, keep, find_key}
use modern_mcs.Disk.{Content, missing, unreadable, bytes, Disk, write_file}
use modern_mcs.Codec.{MapCodec}
use modern_mcs.Auth.Types.{
  User, Session, SessionView, Error, invalid_credentials, invalid_token, weak_password, message,
  wrap, Outcome, UserStore, SessionStore,
}
use modern_mcs.Auth.Policy.{RuneTables, validate_password_policy}
use modern_mcs.Auth.State.{
  Platform, Service, ServiceConfig, Randomness, generate_token, must_id, is_expired, view_of,
  new_service,
}
use modern_mcs.Auth.Persistence.{
  save_sessions, write_sessions, persist_sessions_locked, read_sessions, load_session_state,
}

module _ {U T B : Type 0} (p : Platform U T B) where
  abbrev Action : Type 0 → Type 0
  Action A = Service U T B → Outcome (Service U T B) A

  unfoldable pub hash_password : String → String → String
  hash_password pepper password =
      encode_to_string (p.sum256 (String.◌++◌ pepper (String.◌++◌ ":" password)))

  -- `subtle.ConstantTimeCompare` is 1 exactly on equal texts.
  unfoldable pub verify_password : String → String → String → Bool
  unfolding hash_password
  verify_password pepper password stored_hash = hash_password pepper password == stored_hash

  -- The end of `Login`, from the session on.
  unfoldable pub open_session : Session → Action Session
  unfolding persist_sessions_locked
  open_session sess s =
      let (r, s') =
        persist_sessions_locked p (record s { sessions = insert sess.token sess s.sessions }) in
      elim r [
        | ok _ ↦ (ok sess, s')
        | err e ↦ (err e, record s' { sessions = erase sess.token s'.sessions })
      ]

  unfoldable pub new_session : ℕ → Randomness → String → User → Service U T B → Session
  unfolding must_id
  new_session now random token u s = record {
    id = must_id 16 random.for_id random.unix_nano;
    token = token;
    user_id = u.id;
    username = u.username;
    roles = u.roles;
    created_at = now;
    expires_at = now + s.ttl;
  }

  unfoldable pub login : ℕ → Randomness → String → String → Action Session
  unfolding open_session new_session verify_password
  login now random username password s = elim (p.users.get_by_username s.users username) [
    | err e ↦ (err invalid_credentials, s)
    | ok u ↦
        if not (verify_password s.pepper password u.password_hash)
        then (err invalid_credentials, s)
        else elim (generate_token 32 random.for_token) [
          | err e ↦ (err (wrap "generate token" e), s)
          | ok token ↦ open_session (new_session now random token u s) s
        ]
  ]

  -- The expired branch of `ValidateToken`, which drops the error of the write.
  unfoldable pub drop_token : String → Service U T B → Service U T B
  unfolding persist_sessions_locked
  drop_token token s =
      (persist_sessions_locked p (record s { sessions = erase token s.sessions })).1

  unfoldable pub validate_token : ℕ → String → Action Session
  unfolding drop_token is_expired
  validate_token now token s = elim (lookup token s.sessions) [
    | none ↦ (err invalid_token, s)
    | some sess ↦
        if is_expired now sess then (err invalid_token, drop_token token s) else (ok sess, s)
  ]

  -- `delete(s.sessions, token)` and the write, whose error is returned.
  unfoldable pub delete_token : String → Action (Unit {0})
  unfolding persist_sessions_locked
  delete_token token s = persist_sessions_locked p (record s { sessions = erase token s.sessions })

  unfoldable pub logout : String → Action (Unit {0})
  unfolding delete_token
  logout token s = elim (lookup token s.sessions) [
    | none ↦ (err invalid_token, s)
    | some _ ↦ delete_token token s
  ]

  unfoldable pub revoke_token : String → Action (Unit {0})
  unfolding delete_token
  revoke_token token s = elim (lookup token s.sessions) [
    | none ↦ (err invalid_token, s)
    | some _ ↦ delete_token token s
  ]

  -- The loop finds no token, or the empty one, which counts as none.
  unfoldable pub revoke_session_by_id : String → Action (Unit {0})
  unfolding delete_token
  revoke_session_by_id session_id s = elim (find_key (λ sess. sess.id == session_id) s.sessions) [
    | none ↦ (err invalid_token, s)
    | some token ↦ if token == "" then (err invalid_token, s) else delete_token token s
  ]

  unfoldable pub list_sessions : ℕ → Service U T B → List Session × Service U T B
  unfolding persist_sessions_locked is_expired
  list_sessions now s =
      let live = keep (λ sess. not (is_expired now sess)) s.sessions in
      let s' = record s { sessions = live } in
      (
        values live,
        if any (is_expired now) (values s.sessions) then (persist_sessions_locked p s').1 else s',
      )

  unfoldable pub list_session_views : ℕ → Service U T B → List SessionView × Service U T B
  unfolding list_sessions view_of
  list_session_views now s = let (sessions, s') = list_sessions now s in (map view_of sessions, s')

  -- The end of `ChangePassword`, from the session's user on.
  unfoldable pub replace_password : User → String → String → Action (Unit {0})
  unfolding verify_password
  replace_password user current_password new_password s =
      if not (verify_password s.pepper current_password user.password_hash)
      then (err invalid_credentials, s)
      else (let (r, users) =
            p.users.put s.users
              (record user { password_hash = hash_password s.pepper new_password }) in
          (
            elim r [ ok _ ↦ ok tt | err e ↦ err (wrap "store updated password" e) ],
            record s { users = users },
          ))

  unfoldable pub change_password : ℕ → String → String → String → Action (Unit {0})
  unfolding validate_token replace_password
  change_password now token current_password new_password s =
      elim (validate_password_policy p.tables new_password) [
        | err e ↦ (err weak_password, s)
        | ok _ ↦
            let (r, s') = validate_token now token s in
            elim r [
              | err e ↦ (err e, s')
              | ok session ↦ elim (p.users.get_by_username s'.users session.username) [
                | err e ↦ (err invalid_credentials, s')
                | ok user ↦ replace_password user current_password new_password s'
              ]
            ]
      ]

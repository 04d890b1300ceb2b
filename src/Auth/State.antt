-- ===== src/Auth/State.antt =====
-- The state of the session service of internal/auth/service.go, what it is built on, and the making
-- of tokens and ids.
use Prim.Native.String
use modern_mcs.Prelude.{
  ℕ, String, Bool, not, ◌≡◌, All, length, List, [], ◌<◌, Option, none, some, Result, ok, err, ltb,
  ◌==◌, if◌then◌else◌, ℤ, pos_part,
}
use modern_mcs.Text.Hex.{encode_to_string}
use modern_mcs.Text.Decimal.{decimal}
use modern_mcs.Dict.{Dict}
use modern_mcs.Disk.{Disk}
use modern_mcs.Codec.{MapCodec}
use modern_mcs.Auth.Types.{Session, SessionView, Error, message, UserStore, SessionStore}
use modern_mcs.Auth.Policy.{RuneTables}

-- What the service is built on: its stores, `encoding/json`, SHA-256 and the Unicode tables.
pub record Platform (U T B : Type 0) : Type 0 where
  pub users : UserStore U
  pub session_store : SessionStore T
  pub json : MapCodec Session B
  pub sum256 : String → List ℕ
  pub sum256_length : (s : String) → length (sum256 s) ≡ 32
  pub sum256_bytes : (s : String) → All (λ b. b < 256) (sum256 s)
  pub tables : RuneTables

pub record Service (U T B : Type 0) : Type 0 where
  pub users : U
  pub pepper : String
  pub ttl : ℕ
  pub state_file : String
  pub session_store : Option T
  pub sessions : Dict Session
  pub disk : Disk B

pub record ServiceConfig (T : Type 0) : Type 0 where
  pub password_pepper : String
  pub session_ttl : ℤ
  pub session_state_file : String
  pub session_store : Option T

-- What the random source answers to a call: the bytes for the token and for the id, `none` where it
-- fails, and the clock that the id falls back on.
pub record Randomness : Type 0 where
  pub for_token : Option (List ℕ)
  pub for_id : Option (List ℕ)
  pub unix_nano : ℕ

unfoldable pub generate_token : ℕ → Option (List ℕ) → Result Error String
generate_token n random =
    if ltb n 16
    then err (message "token length too short")
    else elim random [ none ↦ err (message "rand.Read") | some b ↦ ok (encode_to_string b) ]

unfoldable pub must_id : ℕ → Option (List ℕ) → ℕ → String
unfolding generate_token
must_id n random unix_nano = elim (generate_token n random) [
  | ok id ↦ id
  | err e ↦ String.◌++◌ "sid-" (decimal unix_nano)
]

-- `now.After(session.ExpiresAt)`
unfoldable pub is_expired : ℕ → Session → Bool
is_expired now sess = ltb sess.expires_at now

unfoldable pub view_of : Session → SessionView
view_of sess = record {
  id = sess.id;
  user_id = sess.user_id;
  username = sess.username;
  roles = sess.roles;
  created_at = sess.created_at;
  expires_at = sess.expires_at;
}

module _ {U T B : Type 0} where
  -- `NewService`; the disk is the one that the state file stands on.
  unfoldable pub new_service : Option U → ServiceConfig T → Disk B → Result Error (Service U T B)
  new_service none cfg disk = err (message "user store is required")
  new_service (some users) cfg disk =
      if cfg.password_pepper == ""
      then err (message "password pepper is required")
      else if not (ltb 0 (pos_part cfg.session_ttl))
      then err (message "session TTL must be > 0")
      else ok (record {
        users = users;
        pepper = cfg.password_pepper;
        ttl = pos_part cfg.session_ttl;
        state_file = cfg.session_state_file;
        session_store = cfg.session_store;
        sessions = [];
        disk = disk;
      })

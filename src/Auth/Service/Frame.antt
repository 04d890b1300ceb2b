-- ===== src/Auth/Service/Frame.antt =====
-- What writing the sessions away leaves alone.
use modern_mcs.Prelude.{◌≡◌, arith}
use modern_mcs.Auth.State.{Platform, Service}
use modern_mcs.Auth.Persistence.{write_sessions, persist_sessions_locked}

-- All but the session store's state and the disk.
pub record SameCore {U T B : Type 0} (s s' : Service U T B) : Type 0 where
  pub users : s'.users ≡ s.users
  pub pepper : s'.pepper ≡ s.pepper
  pub ttl : s'.ttl ≡ s.ttl
  pub state_file : s'.state_file ≡ s.state_file
  pub sessions : s'.sessions ≡ s.sessions

module _ {U T B : Type 0} (p : Platform U T B) where
  pub write-SameCore : (s : Service U T B) → SameCore s (write_sessions p s).1
  unfolding write_sessions
  write-SameCore s = ground arith

  pub session_store-write_sessions :
      (s : Service U T B) → (write_sessions p s).1.session_store ≡ s.session_store
  unfolding write_sessions
  session_store-write_sessions s = ground arith

  pub persist-SameCore : (s : Service U T B) → SameCore s (persist_sessions_locked p s).1
  unfolding persist_sessions_locked
  persist-SameCore s = ground (arith, write-SameCore s)

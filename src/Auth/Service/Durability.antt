-- ===== src/Auth/Service/Durability.antt =====
-- What a restart finds: `LoadSessionState` after a write that succeeded.
use mathlib.Core.Option
use modern_mcs.Prelude.{
  ℕ, String, Option, refl, ◌≡◌, ap, sym, ◌∙◌, ◌≢◌, inl, inr, arith, [], none, some, ok,
  Option-cases, eq_iff, eq_refl, ne→not-eq,
}
use modern_mcs.Dict.{lookup, insert, erase}
use modern_mcs.Disk.{bytes}
use modern_mcs.Auth.Types.{Session}
use modern_mcs.Auth.Sessions.Laws.{IsSessionStore}
use modern_mcs.Auth.State.{Platform, Service, Randomness}
use modern_mcs.Auth.Persistence.{
  persist_sessions_locked, save_sessions, write_sessions, load_session_state, read_sessions,
}
use modern_mcs.Auth.Service.{login, logout, delete_token, open_session, new_session}
use modern_mcs.Auth.Service.Login.{login_cases}
use modern_mcs.Auth.Service.Frame.{write-SameCore, session_store-write_sessions}

-- What is kept of the session of a token: what the session store keeps, where there is one, and else
-- all of it.
abbrev pub kept :
    {T : Type 0} → (String → Session → Session) → Option T → String → Session → Session
kept keeps none token sess = sess
kept keeps (some store) token sess = keeps token sess

map_self : (o : Option Session) → Option.map (λ (sess : Session). sess) o ≡ o
map_self none = refl
map_self (some sess) = refl

module _ {U T B : Type 0} (p : Platform U T B) where
  -- The service that a new process builds, before it loads the state.
  abbrev pub restarted : Service U T B → Service U T B
  restarted s = record s { sessions = [] }

  -- A restart loads without an error, and finds each token's session as far as it is kept.
  pub record IsDurable (keeps : String → Session → Session) (s : Service U T B) : Type 0 where
    pub loads : (load_session_state p (restarted s)).0 ≡ ok tt
    pub finds :
        (t : String)
        → lookup t (load_session_state p (restarted s)).1.sessions
          ≡ Option.map (kept keeps s.session_store t) (lookup t s.sessions)

  module _ {keeps : String → Session → Session} {Readable : T → Type 0}
      (laws : IsSessionStore p.session_store keeps Readable) where
    save-IsDurable :
        (store : T) (s : Service U T B)
        → Readable store
        → (save_sessions p store s).0 ≡ ok tt
        → IsDurable keeps (save_sessions p store s).1
    unfolding save_sessions load_session_state
    save-IsDurable store s readable h =
        let (d', loaded, same) = laws.load-save store s.sessions readable (ground arith) in
        record {
          loads = rw (loaded, load_session_state);
          finds = λ t. rw (loaded, load_session_state) (same t);
        }

    -- A file that holds the encoded sessions is enough.
    file-IsDurable :
        (s : Service U T B) (b : B)
        → s.session_store ≡ none
        → p.json.encode s.sessions ≡ some b
        → s.disk.file s.state_file ≡ bytes b
        → s.state_file ≢ ""
        → IsDurable keeps s
    unfolding load_session_state read_sessions
    file-IsDurable s b no_store encoded held named =
        let (d', decoded, same) = p.json.decode-encode s.sessions b encoded in
        let full = p.json.encode-is_empty s.sessions b encoded in
        let used = ne→not-eq s.state_file "" named in
        record {
          loads =
              rw (no_store, load_session_state)
                (rw (used, read_sessions)
                  (rw (held, read_sessions) (rw full (rw (decoded, read_sessions)))));
          finds = λ t.
              rw (no_store, load_session_state)
                (rw (used, read_sessions)
                  (rw (held, read_sessions)
                    (rw full (rw (decoded, read_sessions) (same t ∙ sym (map_self _))))));
        }

    write_sessions_ok :
        (s : Service U T B)
        → s.state_file ≢ ""
        → (write_sessions p s).0 ≡ ok tt
        → (b : B) × (p.json.encode s.sessions ≡ some b)
          × ((write_sessions p s).1.disk.file s.state_file ≡ bytes b)
    unfolding write_sessions
    write_sessions_ok s named h = elim (Option-cases (p.json.encode s.sessions)) [
      | inl fails ↦ let bad : ⊥ = ground (arith, eq_iff s.state_file "") in absurd bad
      | inr (b, encoded) ↦
          (b, encoded, ground (arith, eq_iff s.state_file "", eq_refl s.state_file))
    ]

    write-IsDurable :
        (s : Service U T B)
        → s.session_store ≡ none
        → s.state_file ≢ ""
        → (write_sessions p s).0 ≡ ok tt
        → IsDurable keeps (write_sessions p s).1
    write-IsDurable s nowhere named h =
        let (b, encoded, held) = write_sessions_ok s named h in
        let frame = write-SameCore p s in
        file-IsDurable (write_sessions p s).1 b (session_store-write_sessions p s ∙ nowhere)
          (ap p.json.encode frame.sessions ∙ encoded)
          (ap (write_sessions p s).1.disk.file frame.state_file ∙ held)
          (λ e. named (sym frame.state_file ∙ e))

    -- The sessions are kept somewhere: in a session store that can be read, or in a file.
    pub record IsStored (s : Service U T B) : Type 0 where
      pub named : s.session_store ≡ none → s.state_file ≢ ""
      pub readable : (store : T) → s.session_store ≡ some store → Readable store

    pub persist-IsDurable :
        (s : Service U T B)
        → IsStored s
        → (persist_sessions_locked p s).0 ≡ ok tt
        → IsDurable keeps (persist_sessions_locked p s).1
    unfolding persist_sessions_locked
    persist-IsDurable s stored h = elim (Option-cases s.session_store) [
      | inr (store, there) ↦
          rw (there, persist_sessions_locked)
            (save-IsDurable store s (stored.readable store there)
              (rw (there, persist_sessions_locked) at h))
      | inl nowhere ↦
          rw (nowhere, persist_sessions_locked)
            (write-IsDurable s nowhere (stored.named nowhere)
              (rw (nowhere, persist_sessions_locked) at h))
    ]

    open_session_persist :
        (sess got : Session) (s : Service U T B)
        → (open_session p sess s).0 ≡ ok got
        → ((persist_sessions_locked p (record s { sessions = insert sess.token sess s.sessions })).0
            ≡ ok tt)
          × ((open_session p sess s).1
              ≡ (persist_sessions_locked p
                  (record s { sessions = insert sess.token sess s.sessions })).1)
    unfolding open_session
    open_session_persist sess got s h = ground arith

    -- With a session store that keeps its promise and can be read, or a state file: after a login that
    -- succeeds, a restart loads without an error and finds under every token what is kept of the
    -- session that the service has, which is all of it where there is no session store.
    pub login-IsDurable :
        (now : ℕ) (random : Randomness) (username password : String) (s : Service U T B)
        (sess : Session)
        → IsStored s
        → (login p now random username password s).0 ≡ ok sess
        → IsDurable keeps (login p now random username password s).1
    login-IsDurable now random username password s sess stored h =
        elim (login_cases p now random username password s) [
          | inl (e, refused) ↦ cc
          | inr (u, known, verified, token, made, opens) ↦
              let new = new_session p now random token u s in
              let (written, same) = open_session_persist new sess s (rw opens at h) in
              rw (opens, same)
                (persist-IsDurable (record s { sessions = insert new.token new s.sessions })
                  (record { named = stored.named; readable = stored.readable }) written)
        ]

    -- With a session store that keeps its promise and can be read, or a state file: after a logout that
    -- succeeds, a restart loads without an error and finds under every token what is kept of the
    -- session that the service has, which is all of it where there is no session store.
    pub logout-IsDurable :
        (token : String) (s : Service U T B)
        → IsStored s
        → (logout p token s).0 ≡ ok tt
        → IsDurable keeps (logout p token s).1
    unfolding logout delete_token
    logout-IsDurable token s stored h = elim (Option-cases (lookup token s.sessions)) [
      | inl absent ↦ let bad = rw (absent, logout) at h in cc
      | inr (sess, found) ↦
          rw (found, logout)
            (persist-IsDurable (record s { sessions = erase token s.sessions })
              (record { named = stored.named; readable = stored.readable })
              (rw (found, logout) at h))
    ]

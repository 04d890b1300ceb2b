-- ===== src/Auth/Persistence.antt =====
-- How the session service of internal/auth/service.go writes and loads its sessions.
use modern_mcs.Prelude.{none, some, ok, err, ◌==◌, if◌then◌else◌}
use modern_mcs.Disk.{missing, unreadable, bytes, write_file}
use modern_mcs.Auth.Types.{message, wrap, Outcome}
use modern_mcs.Auth.State.{Platform, Service}

module _ {U T B : Type 0} (p : Platform U T B) where
  abbrev Action : Type 0 → Type 0
  Action A = Service U T B → Outcome (Service U T B) A

  -- `persistSessionsLocked` where there is a session store
  unfoldable pub save_sessions : T → Action (Unit {0})
  save_sessions store s =
      let (r, store') = p.session_store.save store s.sessions in
      (
        elim r [ ok _ ↦ ok tt | err e ↦ err (wrap "save session state" e) ],
        record s { session_store = some store' },
      )

  -- `persistSessionsLocked` where there is none
  unfoldable pub write_sessions : Action (Unit {0})
  unfolding write_file
  write_sessions s =
      if s.state_file == ""
      then (ok tt, s)
      else if s.disk.mkdir_fails s.state_file
      then (err (message "mkdir session state dir"), s)
      else elim (p.json.encode s.sessions) [
        | none ↦ (err (message "encode session state"), s)
        | some b ↦
            let (written, disk) = write_file s.state_file b s.disk in
            (
              if written then ok tt else err (message "write session state"),
              record s { disk = disk },
            )
      ]

  unfoldable pub persist_sessions_locked : Action (Unit {0})
  unfolding save_sessions write_sessions
  persist_sessions_locked s = elim s.session_store [
    | some store ↦ save_sessions store s
    | none ↦ write_sessions s
  ]

  -- The state file, where there is no session store.
  unfoldable pub read_sessions : Action (Unit {0})
  read_sessions s = if s.state_file == "" then (ok tt, s) else elim (s.disk.file s.state_file) [
    | missing ↦ (ok tt, s)
    | unreadable ↦ (err (message "read session state"), s)
    | bytes b ↦ if p.json.is_empty b then (ok tt, s) else elim (p.json.decode b) [
      | none ↦ (err (message "decode session state"), s)
      | some state ↦ (ok tt, record s { sessions = state })
    ]
  ]

  unfoldable pub load_session_state : Action (Unit {0})
  unfolding read_sessions
  load_session_state s = elim s.session_store [
    | some store ↦ elim (p.session_store.load store) [
      | err e ↦ (err (wrap "load session state" e), s)
      | ok state ↦ (ok tt, record s { sessions = state })
    ]
    | none ↦ read_sessions s
  ]

-- ===== src/Audit.antt =====
-- internal/audit/logger.go: the log file of audit events, one JSON text per line.
pub mod Journal
use Prim.Native.String
use Prim.Native.String.{[], ◌∷◌}
use modern_mcs.Prelude.{
  ℕ, code, String, ◌≡◌, Bool, false, Option, none, some, Result, ok, err, ◌==◌, if◌then◌else◌,
}
use modern_mcs.Text.{contains_char}

pub record Event : Type 0 where
  pub at : String
  pub actor : String
  pub action : String
  pub target : String
  pub outcome : String
  pub detail : String

-- What the logger uses of `encoding/json`: an event's text has no line break, and gives the event
-- back. `encode` gives `none` where marshalling fails.
pub record EventCodec : Type 0 where
  pub encode : Event → Option String
  pub decode : String → Option Event
  pub decode-encode : (e : Event) (text : String) → encode e ≡ some text → decode text ≡ some e
  pub encode_one_line :
      (e : Event) (text : String) → encode e ≡ some text → contains_char text b'\n' ≡ false

-- What fails: `os.MkdirAll`, `os.OpenFile`, and `Write`, after a part of the text.
pub record Faults : Type 0 where
  pub mkdir_fails : Bool
  pub open_fails : Bool
  pub write_fault : Option String

-- The logger, with what its file holds; a file that is not there is empty.
pub record Logger : Type 0 where
  pub path : String
  pub content : String
  pub faults : Faults

unfoldable pub new_logger : String → String → Faults → Logger
new_logger path content faults = record { path = path; content = content; faults = faults }

-- The arguments of a call of `Log`, and the instant at which it asks the clock.
pub record Entry : Type 0 where
  pub now : ℕ
  pub actor : String
  pub action : String
  pub target : String
  pub outcome : String
  pub detail : String

-- `format` is `t.UTC().Format(time.RFC3339)`.
module _ (json : EventCodec) (format : ℕ → String) where
  unfoldable pub event_of : Entry → Event
  event_of entry = record {
    at = format entry.now;
    actor = entry.actor;
    action = entry.action;
    target = entry.target;
    outcome = entry.outcome;
    detail = entry.detail;
  }

  -- From `MkdirAll` on.
  unfoldable pub append_line : String → Logger → Result String (Unit {0}) × Logger
  append_line line l =
      if l.faults.mkdir_fails
      then (err "mkdir audit log dir", l)
      else if l.faults.open_fails
      then (err "open audit log file", l)
      else elim l.faults.write_fault [
        | some part ↦
            (err "write audit log entry", record l { content = String.◌++◌ l.content part })
        | none ↦ (ok tt, record l { content = String.◌++◌ l.content line })
      ]

  -- `Log` of a logger that is not nil.
  unfoldable pub log : Entry → Logger → Result String (Unit {0}) × Logger
  unfolding append_line event_of
  log entry l = if l.path == "" then (ok tt, l) else elim (json.encode (event_of entry)) [
    | none ↦ (err "marshal audit event", l)
    | some text ↦ append_line (String.◌++◌ text "\n") l
  ]

  -- `Log`; `none` is a nil logger.
  unfoldable pub log_on : Entry → Option Logger → Result String (Unit {0}) × Option Logger
  unfolding log
  log_on entry none = (ok tt, none)
  log_on entry (some l) = let (r, l') = log entry l in (r, some l')

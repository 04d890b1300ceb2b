-- ===== src/Audit/Journal.antt =====
-- What the audit log holds after a history of calls.
use mathlib.Core.Option
use mathlib.Core.List.{append_assoc as list_append_assoc, append-nil as list_append-nil}
use Prim.Native.String
use Prim.Native.String.append
use Prim.Native.String.{[] as empty, ◌∷◌ as char}
use text.Mathlib.TextLemmas.{append-nil, append_assoc}
use modern_mcs.Prelude.{
  ℕ, code, Char, String, ◌≡◌, ◌≢◌, refl, ap, sym, subst, ◌∙◌, ◌⊎◌, inl, inr, false, arith, List, [],
  ◌∷◌, ◌++◌, Option, none, some, Result, ok, err, eqb, Option-cases, Bool-cases, ne→not-eq,
  if◌then◌else◌,
}
use modern_mcs.Text.{contains_char}
use modern_mcs.Audit.{Event, EventCodec, Faults, Logger, Entry, event_of, append_line, log}

abbrev add_char : Char → List String → List String
add_char c [] = char c empty ∷ []
add_char c (line ∷ lines) = char c line ∷ lines

-- The lines of a text, each without its line break.
unfoldable pub lines : String → List String
lines empty = []
lines (char c s) =
    let rest = lines s in if eqb (code c) b'\n' then empty ∷ rest else add_char c rest

lines-append :
    (line rest : String)
    → contains_char line b'\n' ≡ false
    → lines (String.◌++◌ line (char "\n" rest)) ≡ line ∷ lines rest
unfolding lines contains_char
lines-append empty rest h = rw append.nil refl
lines-append (char c s) rest h = rw append.cons (ground (arith, lines-append s rest))

module _ (json : EventCodec) (format : ℕ → String) where
  -- The events of a text whose lines are events.
  unfoldable pub read_lines : List String → Option (List Event)
  read_lines [] = some []
  read_lines (line ∷ rest) = elim (json.decode line) [
    | none ↦ none
    | some e ↦ Option.map (λ (es : List Event). e ∷ es) (read_lines rest)
  ]

  -- The file as a reader of JSON lines sees it.
  unfoldable pub read_log : Logger → Option (List Event)
  unfolding read_lines lines
  read_log l = read_lines (lines l.content)

  -- A text that consists of the lines of events.
  pub data IsJournal : String → List Event → Type 0 where
    start : IsJournal "" []
    line :
        {content text : String} {events : List Event} (e : Event)
        → IsJournal content events
        → json.encode e ≡ some text
        → IsJournal (String.◌++◌ content (String.◌++◌ text "\n")) (events ++ (e ∷ []))

  read_line :
      (e : Event) (text rest : String)
      → json.encode e ≡ some text
      → read_lines (lines (String.◌++◌ text (char "\n" rest)))
        ≡ Option.map (λ (es : List Event). e ∷ es) (read_lines (lines rest))
  unfolding read_lines
  read_line e text rest h =
      rw (lines-append text rest (json.encode_one_line e text h))
        (rw (json.decode-encode e text h, read_lines) refl)

  map-append :
      (events : List Event) (e : Event) (o : Option (List Event))
      → Option.map (λ (es : List Event). events ++ es) (Option.map (λ (es : List Event). e ∷ es) o)
        ≡ Option.map (λ (es : List Event). (events ++ (e ∷ [])) ++ es) o
  map-append events e none = refl
  map-append events e (some es) = ap some (sym (list_append_assoc events (e ∷ []) es))

  map_nothing : (o : Option (List Event)) → Option.map (λ (es : List Event). es) o ≡ o
  map_nothing none = refl
  map_nothing (some es) = refl

  read-IsJournal :
      {content : String} {events : List Event} (rest : String)
      → IsJournal content events
      → read_lines (lines (String.◌++◌ content rest))
        ≡ Option.map (λ (es : List Event). events ++ es) (read_lines (lines rest))
  read-IsJournal rest start = rw append.nil (sym (map_nothing (read_lines (lines rest))))
  read-IsJournal rest (line {content = content} {text = text} {events = events} e journal encoded) =
      let split : String.◌++◌ (String.◌++◌ content (String.◌++◌ text "\n")) rest
          ≡ String.◌++◌ content (String.◌++◌ text (char "\n" rest)) =
        append_assoc content (String.◌++◌ text "\n") rest
        ∙ ap (String.◌++◌ content) (
            append_assoc text "\n" rest
            ∙ ap (String.◌++◌ text)
                (append.cons "\n" empty rest ∙ ap (char "\n") (append.nil rest))) in
      rw split (
        read-IsJournal (String.◌++◌ text (char "\n" rest)) journal
        ∙ ap (Option.map (λ (es : List Event). events ++ es)) (read_line e text rest encoded)
        ∙ map-append events e (read_lines (lines rest)))

  -- A call of a history, with what fails in it; the log is written whole or not at all.
  abbrev pub Turn : Type 0
  Turn = Faults × Entry

  unfoldable pub log_all : List Turn → Logger → Logger
  log_all [] l = l
  log_all ((faults, entry) ∷ turns) l =
      log_all turns (log json format entry (record l { faults = faults })).1

  abbrev add_logged : Result String (Unit {0}) → Event → List Event → List Event
  add_logged (ok _) e events = e ∷ events
  add_logged (err _) e events = events

  -- The events of the calls of a history that returned no error.
  unfoldable pub logged : List Turn → Logger → List Event
  logged [] l = []
  logged ((faults, entry) ∷ turns) l =
      let (r, l') = log json format entry (record l { faults = faults }) in
      let rest = logged turns l' in add_logged r (event_of json format entry) rest

  -- No write of the history stops in the middle.
  abbrev pub IsWhole : List Turn → Type 0
  IsWhole [] = Unit
  IsWhole ((faults, entry) ∷ turns) = (faults.write_fault ≡ none) × IsWhole turns

  log_cases :
      (entry : Entry) (l : Logger)
      → l.path ≢ ""
      → l.faults.write_fault ≡ none
      → ((e : String) × (log json format entry l ≡ (err e, l)))
        ⊎ ((text : String) × (json.encode (event_of json format entry) ≡ some text)
            × (log json format entry l
                ≡ (ok tt, record l { content = String.◌++◌ l.content (String.◌++◌ text "\n") })))
  unfolding log append_line
  log_cases entry l named whole = elim (Option-cases (json.encode (event_of json format entry))) [
    | inl fails ↦ inl ("marshal audit event", ground (arith, ne→not-eq l.path "" named))
    | inr (text, encoded) ↦ elim (Bool-cases l.faults.mkdir_fails) [
      | inl e ↦ inl ("mkdir audit log dir", ground (arith, ne→not-eq l.path "" named, encoded))
      | inr made ↦ elim (Bool-cases l.faults.open_fails) [
        | inl e ↦ inl ("open audit log file", ground (arith, ne→not-eq l.path "" named, encoded))
        | inr opened ↦ inr (text, encoded, ground (arith, ne→not-eq l.path "" named, encoded))
      ]
    ]
  ]

  module _ (faults : Faults) (entry : Entry) (turns : List Turn) (l : Logger)
      (r : Result String (Unit {0})) (l' : Logger)
      (h : log json format entry (record l { faults = faults }) ≡ (r, l')) where
    log_all_next : log_all ((faults, entry) ∷ turns) l ≡ log_all turns l'
    unfolding log_all
    log_all_next = ap (λ q. log_all turns q.1) h

    logged_next :
        logged ((faults, entry) ∷ turns) l
        ≡ add_logged r (event_of json format entry) (logged turns l')
    unfolding logged
    logged_next = ap (λ q. add_logged q.0 (event_of json format entry) (logged turns q.1)) h

  log_all-IsJournal :
      (turns : List Turn) (l : Logger) (events : List Event)
      → l.path ≢ ""
      → IsWhole turns
      → IsJournal l.content events
      → IsJournal (log_all turns l).content (events ++ logged turns l)
  unfolding log_all logged
  log_all-IsJournal [] l events named whole journal =
      subst (IsJournal l.content) (sym (list_append-nil events)) journal
  log_all-IsJournal ((faults, entry) ∷ turns) l events named (first, whole) journal =
      elim (log_cases entry (record l { faults = faults }) named first) [
        | inl (e, refused) ↦
            rw
              (
                log_all_next faults entry turns l _ _ refused,
                logged_next faults entry turns l _ _ refused,
              )
              (log_all-IsJournal turns (record l { faults = faults }) events named whole journal)
        | inr (text, encoded, wrote) ↦
            let l' : Logger = record l {
              faults = faults;
              content = String.◌++◌ l.content (String.◌++◌ text "\n");
            } in
            rw
              (
                log_all_next faults entry turns l _ l' wrote,
                logged_next faults entry turns l _ l' wrote,
              )
              (subst (IsJournal (log_all turns l').content)
                (list_append_assoc events (event_of json format entry ∷ []) (logged turns l'))
                (log_all-IsJournal turns l' (events ++ (event_of json format entry ∷ [])) named
                  whole (line (event_of json format entry) journal encoded)))
      ]

  -- With a path, and a file that consists of the lines of events: after a history of calls in which no
  -- write stops in the middle, a reader of the file finds the events that it held, and behind them
  -- the events of exactly the calls that returned no error, in their order.
  pub read_log-log_all :
      (turns : List Turn) (l : Logger) (events : List Event)
      → l.path ≢ ""
      → IsWhole turns
      → IsJournal l.content events
      → read_log (log_all turns l) ≡ some (events ++ logged turns l)
  unfolding read_log read_lines lines
  read_log-log_all turns l events named whole journal =
      let whole_file = log_all-IsJournal turns l events named whole journal in
      ap (λ (text : String). read_lines (lines text)) (sym (append-nil (log_all turns l).content))
      ∙ read-IsJournal "" whole_file
      ∙ ap some (list_append-nil (events ++ logged turns l))

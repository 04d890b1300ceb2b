-- ===== src/Auth/Sessions/Table.antt =====
-- internal/auth/session_store_postgres.go: the table and the methods.
use modern_mcs.Prelude.{
  ℕ, String, Bool, true, ◌||◌, List, [], ◌∷◌, Option, none, some, Result, ok, err, if◌then◌else◌,
}
use modern_mcs.Dict.{Dict, lookup, insert}
use modern_mcs.Postgres.{Reply, applied, refused, lost, Clock, Jsonb, decode_list, is_taken}
use modern_mcs.Auth.Types.{Session, Error, message, Outcome, SessionStore}

-- A row, without its token, which is the key of the table.
pub record SessionRow (B : Type 0) : Type 0 where
  pub session_id : String
  pub user_id : String
  pub username : String
  pub roles : B
  pub created_at : ℕ
  pub expires_at : ℕ

-- The statements that fail. A row that the server does not take, for another reason than that its
-- token or its session id is taken, is among `insert_fails`.
pub record SessionFaults (B : Type 0) : Type 0 where
  pub schema_fails : Bool
  pub query_fails : Bool
  pub scan_fails : String → Bool
  pub iteration_fails : Bool
  pub begin_fails : Bool
  pub clear_fails : Bool
  pub insert_fails : String → SessionRow B → Bool
  pub commit : Reply

pub record PgSessionStore (B : Type 0) : Type 0 where
  pub rows : Dict (SessionRow B)
  pub faults : SessionFaults B

unfoldable pub new_postgres_session_store :
    {B : Type 0} → Option (PgSessionStore B) → Result Error (PgSessionStore B)
new_postgres_session_store none = err (message "database is required")
new_postgres_session_store (some db) =
    if db.faults.schema_fails then err (message "ensure auth_sessions schema") else ok db

abbrev is_there {ℓ} : {A : Type ℓ} → Option A → Bool
is_there none = Bool.false
is_there (some a) = true

module _ {B : Type 0} (clock : Clock) (column : Jsonb (List String) B) where
  -- The row of the `INSERT`.
  unfoldable pub session_row : Session → B → SessionRow B
  session_row sess roles = record {
    session_id = sess.id;
    user_id = sess.user_id;
    username = sess.username;
    roles = column.kept roles;
    created_at = clock.stored sess.created_at;
    expires_at = clock.stored sess.expires_at;
  }

  -- The scan of a row, with its decoded roles.
  unfoldable pub row_session : String → SessionRow B → List String → Session
  row_session token row roles = record {
    id = row.session_id;
    token = token;
    user_id = row.user_id;
    username = row.username;
    roles = roles;
    created_at = row.created_at;
    expires_at = row.expires_at;
  }

  -- The loop of `Load`.
  unfoldable pub scan_sessions :
      SessionFaults B → Dict (SessionRow B) → Dict Session → Result Error (Dict Session)
  unfolding row_session decode_list
  scan_sessions faults [] out = ok out
  scan_sessions faults ((token, row) ∷ rows) out =
      if faults.scan_fails token
      then err (message "scan session")
      else elim (decode_list column row.roles) [
        | none ↦ err (message "decode session roles")
        | some roles ↦ scan_sessions faults rows (insert token (row_session token row roles) out)
      ]

  unfoldable pub pg_load : PgSessionStore B → Result Error (Dict Session)
  unfolding scan_sessions
  pg_load s =
      if s.faults.query_fails
      then err (message "query sessions")
      else elim (scan_sessions s.faults s.rows []) [
        | err e ↦ err e
        | ok out ↦ if s.faults.iteration_fails then err (message "iterate sessions") else ok out
      ]

  -- The token is the primary key, and the session id is unique.
  unfoldable pub clashes : String → SessionRow B → Dict (SessionRow B) → Bool
  clashes token row rows =
      is_there (lookup token rows) || is_taken (λ r. r.session_id) token row.session_id rows

  -- The loop of `Save`, over the table as the transaction has it.
  unfoldable pub insert_sessions :
      SessionFaults B → Dict Session → Dict (SessionRow B) → Result Error (Dict (SessionRow B))
  unfolding clashes session_row
  insert_sessions faults [] rows = ok rows
  insert_sessions faults ((token, sess) ∷ d) rows = elim (column.json.encode sess.roles) [
    | none ↦ err (message "encode session roles")
    | some roles ↦
        let row = session_row sess roles in
        if faults.insert_fails token row || clashes token row rows
        then err (message "insert session")
        else insert_sessions faults d ((token, row) ∷ rows)
  ]

  -- The transaction works on its own copy of the table, and only a commit that is applied replaces
  -- the table by it.
  unfoldable pub pg_save : PgSessionStore B → Dict Session → Outcome (PgSessionStore B) (Unit {0})
  unfolding insert_sessions
  pg_save s sessions =
      if s.faults.begin_fails
      then (err (message "begin tx"), s)
      else if s.faults.clear_fails
      then (err (message "clear sessions"), s)
      else elim (insert_sessions s.faults sessions []) [
        | err e ↦ (err e, s)
        | ok rows ↦ elim s.faults.commit [
          | applied ↦ (ok tt, record s { rows = rows })
          | refused ↦ (err (message "commit session tx"), s)
          | lost ↦ (err (message "commit session tx"), record s { rows = rows })
        ]
      ]

  abbrev pub pg_session_store : SessionStore (PgSessionStore B)
  pg_session_store = record { load = pg_load; save = pg_save }

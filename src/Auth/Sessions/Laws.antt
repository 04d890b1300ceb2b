-- ===== src/Auth/Sessions/Laws.antt =====
-- What a session store promises to the session service, and that the one in PostgreSQL keeps it.
use mathlib.Core.Option
use modern_mcs.Prelude.{
  String, ◌≡◌, refl, ap, sym, subst, ◌∙◌, inl, inr, false, arith, List, [], ◌∷◌, Option, none, some,
  ok, err, Result-cases, Option-cases, Bool-cases, ◌==◌, eq_iff,
}
use modern_mcs.Dict.{Dict, lookup, insert}
use modern_mcs.Dict.Laws.{lookup-insert}
use modern_mcs.Postgres.{Clock, Jsonb, decode_list, decode_list-kept}
use modern_mcs.Auth.Types.{Session, SessionStore}
use modern_mcs.Auth.Sessions.Table.{
  SessionRow, SessionFaults, PgSessionStore, session_row, row_session, scan_sessions, pg_load,
  clashes, insert_sessions, pg_save, pg_session_store,
}

-- A session store that can be read, and was written without an error, loads the sessions that were
-- saved, as far as it keeps them: `keeps token session` is what it keeps of the session of a token.
pub record IsSessionStore {T : Type 0} (st : SessionStore T) (keeps : String → Session → Session)
    (Readable : T → Type 0) : Type 0 where
  pub load-save :
      (store : T) (d : Dict Session)
      → Readable store
      → (st.save store d).0 ≡ ok tt
      → (d' : Dict Session) × (st.load (st.save store d).1 ≡ ok d')
        × ((t : String) → lookup t d' ≡ Option.map (keeps t) (lookup t d))

module _ {B : Type 0} (clock : Clock) (column : Jsonb (List String) B) where
  -- What the table keeps of a session: the token is its key, and the instants are rounded.
  abbrev pub pg_keeps : String → Session → Session
  pg_keeps token sess = record sess {
    token = token;
    created_at = clock.stored sess.created_at;
    expires_at = clock.stored sess.expires_at;
  }

  -- No query on the table fails.
  pub record IsReadable (s : PgSessionStore B) : Type 0 where
    pub query : s.faults.query_fails ≡ false
    pub scan : (token : String) → s.faults.scan_fails token ≡ false
    pub iteration : s.faults.iteration_fails ≡ false

  module _ (faults : SessionFaults B) where
    insert_cons :
        (token : String) (sess : Session) (d : Dict Session) (rows rows' : Dict (SessionRow B))
        → insert_sessions clock column faults ((token, sess) ∷ d) rows ≡ ok rows'
        → (roles : B) × (column.json.encode sess.roles ≡ some roles)
          × (lookup token rows ≡ none)
          × (insert_sessions clock column faults d
                ((token, session_row clock column sess roles) ∷ rows)
              ≡ ok rows')
    unfolding insert_sessions clashes
    insert_cons token sess d rows rows' h = elim (Option-cases (column.json.encode sess.roles)) [
      | inl fails ↦ let bad = rw (fails, insert_sessions) at h in cc
      | inr (roles, encoded) ↦ (roles, encoded, ground (arith, encoded), ground (arith, encoded))
    ]

    -- What is in the table stays there.
    insert_keeps :
        (d : Dict Session) (rows rows' : Dict (SessionRow B)) (t : String) (r : SessionRow B)
        → insert_sessions clock column faults d rows ≡ ok rows'
        → lookup t rows ≡ some r
        → lookup t rows' ≡ some r
    unfolding insert_sessions lookup
    insert_keeps [] rows rows' t r h found = ground arith
    insert_keeps ((token, sess) ∷ d) rows rows' t r h found =
        let (roles, encoded, fresh, rest) = insert_cons token sess d rows rows' h in
        insert_keeps d _ rows' t r rest (ground (arith, eq_iff token t))

    -- Every session gets its row.
    insert_adds :
        (d : Dict Session) (rows rows' : Dict (SessionRow B)) (t : String) (sess : Session)
        → insert_sessions clock column faults d rows ≡ ok rows'
        → lookup t d ≡ some sess
        → (roles : B) × (column.json.encode sess.roles ≡ some roles)
          × (lookup t rows' ≡ some (session_row clock column sess roles))
    unfolding lookup
    insert_adds [] rows rows' t sess h found = cc
    insert_adds ((token, other) ∷ d) rows rows' t sess h found =
        let (roles, encoded, fresh, rest) = insert_cons token other d rows rows' h in
        elim (Bool-cases (token == t)) [
          | inr e ↦ insert_adds d _ rows' t sess rest (rw e at found)
          | inl e ↦
              let same : other ≡ sess = ground arith in
              (
                roles,
                rw (sym same) encoded,
                insert_keeps d _ rows' t (session_row clock column sess roles) rest
                    (rw e (ap (λ x. some (session_row clock column x roles)) same)),
              )
        ]

    -- A token without a session keeps what it has.
    insert_skips :
        (d : Dict Session) (rows rows' : Dict (SessionRow B)) (t : String)
        → insert_sessions clock column faults d rows ≡ ok rows'
        → lookup t d ≡ none
        → lookup t rows' ≡ lookup t rows
    unfolding insert_sessions lookup
    insert_skips [] rows rows' t h absent = ground arith
    insert_skips ((token, sess) ∷ d) rows rows' t h absent =
        let (roles, encoded, fresh, rest) = insert_cons token sess d rows rows' h in
        ground (arith, insert_skips d _ rows' t rest)

    -- Every row has a token of its own and roles that decode.
    abbrev IsTable : Dict (SessionRow B) → Type 0
    IsTable [] = Unit
    IsTable ((token, row) ∷ rows) =
        (lookup token rows ≡ none)
        × ((roles : List String) × (decode_list column row.roles ≡ some roles))
        × IsTable rows

    insert-IsTable :
        (d : Dict Session) (rows rows' : Dict (SessionRow B))
        → insert_sessions clock column faults d rows ≡ ok rows'
        → IsTable rows
        → IsTable rows'
    unfolding insert_sessions session_row
    insert-IsTable [] rows rows' h table =
        subst IsTable (ap (λ r. elim r [ ok x ↦ x | err e ↦ rows ]) h) table
    insert-IsTable ((token, sess) ∷ d) rows rows' h table =
        let (roles, encoded, fresh, rest) = insert_cons token sess d rows rows' h in
        insert-IsTable d _ rows' rest
          (fresh, (sess.roles, decode_list-kept column sess.roles roles encoded), table)

    -- The session of a row.
    abbrev read_row : String → SessionRow B → Option Session
    read_row token row =
        Option.map (row_session clock column token row) (decode_list column row.roles)

    scan-IsTable :
        (rows : Dict (SessionRow B)) (out : Dict Session)
        → ((token : String) → faults.scan_fails token ≡ false)
        → IsTable rows
        → (d : Dict Session) × (scan_sessions clock column faults rows out ≡ ok d)
          × ((t : String)
              → lookup t d
                ≡ (elim (lookup t rows) [ none ↦ lookup t out | some row ↦ read_row t row ]))
    unfolding scan_sessions lookup
    scan-IsTable [] out readable table = (out, refl, λ t. refl)
    scan-IsTable ((token, row) ∷ rows) out readable (fresh, (roles, decoded), table) =
        let (d, scanned, found) =
          scan-IsTable rows (insert token (row_session clock column token row roles) out) readable
            table in
        (
          d,
          rw (readable token, scan_sessions) (rw (decoded, scan_sessions) scanned),
          λ t. ground (
            arith,
            found t,
            lookup-insert token t (row_session clock column token row roles) out,
            eq_iff token t,
            fresh,
          ),
        )

  saved_rows :
      (s : PgSessionStore B) (d : Dict Session)
      → (pg_save clock column s d).0 ≡ ok tt
      → (rows : Dict (SessionRow B)) × (insert_sessions clock column s.faults d [] ≡ ok rows)
        × ((pg_save clock column s d).1 ≡ record s { rows = rows })
  unfolding pg_save
  saved_rows s d h = elim (Result-cases (insert_sessions clock column s.faults d [])) [
    | inr (e, failed) ↦ let bad : ⊥ = ground arith in absurd bad
    | inl (rows, inserted) ↦ (rows, inserted, ground arith)
  ]

  load_lem :
      (s : PgSessionStore B) (d : Dict Session)
      → IsReadable s
      → scan_sessions clock column s.faults s.rows [] ≡ ok d
      → pg_load clock column s ≡ ok d
  unfolding pg_load
  load_lem s d r h = ground (arith, r.query, r.iteration, h)

  row-keeps :
      (t : String) (d : Dict Session) (rows : Dict (SessionRow B)) (faults : SessionFaults B)
      → insert_sessions clock column faults d [] ≡ ok rows
      → (elim (lookup t rows) [ none ↦ none | some row ↦ read_row faults t row ])
        ≡ Option.map (pg_keeps t) (lookup t d)
  unfolding session_row row_session lookup
  row-keeps t d rows faults h = elim (Option-cases (lookup t d)) [
    | inl absent ↦ rw (absent, insert_skips faults d [] rows t h absent)
    | inr (sess, found) ↦
        let (roles, encoded, there) = insert_adds faults d [] rows t sess h found in
        rw (found, there, decode_list-kept column sess.roles roles encoded)
  ]

  -- The table of a transaction that inserted every session loads them.
  pub load-insert_sessions :
      (s : PgSessionStore B) (d : Dict Session) (rows : Dict (SessionRow B))
      → IsReadable s
      → insert_sessions clock column s.faults d [] ≡ ok rows
      → (d' : Dict Session) × (pg_load clock column (record s { rows = rows }) ≡ ok d')
        × ((t : String) → lookup t d' ≡ Option.map (pg_keeps t) (lookup t d))
  unfolding lookup
  load-insert_sessions s d rows r inserted =
      let table = insert-IsTable s.faults d [] rows inserted tt in
      let (d', scanned, found) = scan-IsTable s.faults rows [] r.scan table in
      let readable : IsReadable (record s { rows = rows }) = record {
        query = r.query;
        scan = r.scan;
        iteration = r.iteration;
      } in
      (
        d',
        load_lem (record s { rows = rows }) d' readable scanned,
        λ t. found t ∙ row-keeps t d rows s.faults inserted,
      )

  -- The table keeps the promise where it can be read.
  pub pg-IsSessionStore : IsSessionStore (pg_session_store clock column) pg_keeps IsReadable
  pg-IsSessionStore = record {
    load-save = λ s d r h.
        let (rows, inserted, after) = saved_rows s d h in
        let (d', loaded, found) = load-insert_sessions s d rows r inserted in
        (d', rw after loaded, found);
  }

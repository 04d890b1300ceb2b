-- ===== src/Migrations/Store.antt =====
-- The two stores of internal/migrations/service.go: a JSON file and a table in PostgreSQL.
use modern_mcs.Prelude.{
  ℕ, String, ◌≡◌, refl, ◌∙◌, ◌≢◌, inl, inr, Bool, true, false, not, ◌&&◌, arith, [], ◌∷◌, Option,
  none, some, Result, ok, err, Result-cases, Option-cases, ◌==◌, eq_iff, eq_refl, if◌then◌else◌,
}
use modern_mcs.Dict.{Dict, lookup, insert}
use modern_mcs.Dict.Laws.{lookup-insert}
use modern_mcs.Disk.{missing, unreadable, bytes, Disk, write_file}
use modern_mcs.Codec.{MapCodec}
use modern_mcs.Migrations.Types.{AppliedState, AppliedStore, Error, message, Outcome}

-- What a store promises: after a write that succeeds, what was loaded before is loaded again, with
-- the formatted time under the name.
pub record IsAppliedStore {S : Type 0} (st : AppliedStore S) (format : ℕ → String)
    (Valid : S → Type 0) : Type 0 where
  pub load-set_applied :
      (s : S) (name : String) (applied_at : ℕ)
      → Valid s
      → (st.set_applied s name applied_at).0 ≡ ok tt
      → (before : AppliedState) × (after : AppliedState) × (st.load s ≡ ok before)
        × (st.load (st.set_applied s name applied_at).1 ≡ ok after)
        × ((k : String)
            → lookup k after ≡ (if name == k then some (format applied_at) else lookup k before))

pub record FileAppliedStore (B : Type 0) : Type 0 where
  pub state_file : String
  pub disk : Disk B

-- `format` is `t.UTC().Format(time.RFC3339)`.
module _ {B : Type 0} (json : MapCodec String B) (format : ℕ → String) where
  unfoldable pub file_load : FileAppliedStore B → Result Error AppliedState
  file_load s = if s.state_file == "" then ok [] else elim (s.disk.file s.state_file) [
    | missing ↦ ok []
    | unreadable ↦ err (message "read migration state")
    | bytes b ↦ if json.is_empty b then ok [] else elim (json.decode b) [
      | none ↦ err (message "decode migration state")
      | some state ↦ ok state
    ]
  ]

  unfoldable pub save_state :
      FileAppliedStore B → AppliedState → Outcome (FileAppliedStore B) (Unit {0})
  unfolding write_file
  save_state s state =
      if s.state_file == ""
      then (ok tt, s)
      else if s.disk.mkdir_fails s.state_file
      then (err (message "mkdir state dir"), s)
      else elim (json.encode state) [
        | none ↦ (err (message "encode migration state"), s)
        | some b ↦
            let (written, disk) = write_file s.state_file b s.disk in
            (
              if written then ok tt else err (message "write migration state"),
              record s { disk = disk },
            )
      ]

  unfoldable pub file_set_applied :
      FileAppliedStore B → String → ℕ → Outcome (FileAppliedStore B) (Unit {0})
  file_set_applied s name applied_at = elim (file_load s) [
    | err e ↦ (err e, s)
    | ok state ↦ save_state s (insert name (format applied_at) state)
  ]

  abbrev pub file_applied_store : AppliedStore (FileAppliedStore B)
  file_applied_store = record { load = file_load; set_applied = file_set_applied }

  save_state_ok :
      (s : FileAppliedStore B) (state : AppliedState)
      → s.state_file ≢ ""
      → (save_state s state).0 ≡ ok tt
      → (state' : AppliedState) × (file_load (save_state s state).1 ≡ ok state')
        × ((k : String) → lookup k state' ≡ lookup k state)
  unfolding save_state file_load
  save_state_ok s state named h = elim (Option-cases (json.encode state)) [
    | inl fails ↦ let bad : ⊥ = ground (arith, eq_iff s.state_file "") in absurd bad
    | inr (b, encoded) ↦
        let (state', decoded, same) = json.decode-encode state b encoded in
        let full = json.encode-is_empty state b encoded in
        (state', ground (arith, eq_iff s.state_file "", eq_refl s.state_file), same)
  ]

  -- The file store keeps the promise where it has a file.
  pub file-IsAppliedStore : IsAppliedStore file_applied_store format (λ s. s.state_file ≢ "")
  unfolding file_set_applied
  file-IsAppliedStore = record {
    load-set_applied = λ s name applied_at named h. elim (Result-cases (file_load s)) [
      | inr (e, failed) ↦ let bad = rw (failed, file_set_applied) at h in cc
      | inl (before, loaded) ↦
          let changed = insert name (format applied_at) before in
          let saved : (save_state s changed).0 ≡ ok tt = rw (loaded, file_set_applied) at h in
          let (after, again, same) = save_state_ok s changed named saved in
          (
            before,
            after,
            loaded,
            rw (loaded, file_set_applied) again,
            λ k. same k ∙ lookup-insert name k (format applied_at) before,
          )
    ];
  }

-- `NewService`, as far as it is about the store.
unfoldable pub new_service : {B : Type 0} → String → Disk B → FileAppliedStore B
new_service state_file disk = record { state_file = state_file; disk = disk }

-- The rows of `migration_applied` by name, and whether the schema, a query, the scan of a row, the
-- iteration over the rows or a command fails.
pub record PgAppliedStore : Type 0 where
  pub schema_fails : Bool
  pub rows : Dict ℕ
  pub query_fails : Bool
  pub scan_fails : Bool
  pub iteration_fails : Bool
  pub exec_fails : Bool

abbrev is_empty : Dict ℕ → Bool
is_empty [] = true
is_empty (row ∷ rows) = false

-- `NewServiceWithPostgres`, as far as it is about the store; `none` is a nil database.
unfoldable pub new_service_with_postgres : Option PgAppliedStore → Result Error PgAppliedStore
new_service_with_postgres none = err (message "database is required")
new_service_with_postgres (some db) =
    if db.schema_fails then err (message "ensure migration_applied schema") else ok db

-- `format` is RFC 3339 of what the column keeps of an instant.
module _ (format : ℕ → String) where
  -- The loop over the rows, where no scan fails.
  unfoldable pub format_rows : Dict ℕ → AppliedState
  format_rows [] = []
  format_rows ((name, at) ∷ rows) = (name, format at) ∷ format_rows rows

  unfoldable pub pg_load : PgAppliedStore → Result Error AppliedState
  unfolding format_rows
  pg_load s =
      if s.query_fails
      then err (message "query migration state")
      else if s.scan_fails && not (is_empty s.rows)
      then err (message "scan migration state")
      else if s.iteration_fails
      then err (message "iterate migration state")
      else ok (format_rows s.rows)

  -- The upsert.
  unfoldable pub pg_set_applied : PgAppliedStore → String → ℕ → Outcome PgAppliedStore (Unit {0})
  pg_set_applied s name applied_at =
      if s.exec_fails
      then (err (message "upsert migration state"), s)
      else (ok tt, record s { rows = insert name applied_at s.rows })

  abbrev pub pg_applied_store : AppliedStore PgAppliedStore
  pg_applied_store = record { load = pg_load; set_applied = pg_set_applied }

  format_rows-insert :
      (name k : String) (at : ℕ) (rows : Dict ℕ)
      → lookup k (format_rows (insert name at rows))
        ≡ (if name == k then some (format at) else lookup k (format_rows rows))
  unfolding format_rows insert lookup
  format_rows-insert name k at [] = refl
  format_rows-insert name k at ((j, w) ∷ rows) =
      ground (arith, eq_iff name k, eq_iff j name, eq_iff j k, format_rows-insert name k at rows)

  -- The table keeps the promise where it can be read.
  pub pg-IsAppliedStore :
      IsAppliedStore pg_applied_store format
        (λ s. (s.query_fails ≡ false) × (s.scan_fails ≡ false) × (s.iteration_fails ≡ false))
  unfolding pg_load pg_set_applied
  pg-IsAppliedStore = record {
    load-set_applied = λ s name applied_at readable h. (
      format_rows s.rows,
      format_rows (insert name applied_at s.rows),
      ground arith,
      ground arith,
      λ k. format_rows-insert name k applied_at s.rows,
    );
  }

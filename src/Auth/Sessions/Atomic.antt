-- ===== src/Auth/Sessions/Atomic.antt =====
-- `Save` of the session store in PostgreSQL replaces the table as a whole.
use mathlib.Core.Option
use modern_mcs.Prelude.{
  String, ◌≡◌, refl, ◌⊎◌, inl, inr, arith, List, [], ok, err, Result-cases, Bool-cases,
}
use modern_mcs.Dict.{Dict, lookup}
use modern_mcs.Postgres.{lost, Clock, Jsonb, Reply-cases}
use modern_mcs.Auth.Types.{Session, Error, message}
use modern_mcs.Auth.Sessions.Table.{PgSessionStore, SessionRow, insert_sessions, pg_load, pg_save}
use modern_mcs.Auth.Sessions.Laws.{IsReadable, pg_keeps, load-insert_sessions}

module _ {B : Type 0} (clock : Clock) (column : Jsonb (List String) B) (s : PgSessionStore B)
    (d : Dict Session) where
  -- Nothing of the table was changed, and there is an error.
  abbrev pub IsUnchanged : Type 0
  IsUnchanged =
      ((pg_save clock column s d).1 ≡ s) × ((e : Error) × ((pg_save clock column s d).0 ≡ err e))

  -- The table has the given sessions and no others; there is an error only where the answer to the
  -- commit was lost.
  abbrev pub IsReplaced : Type 0
  IsReplaced =
      ((d' : Dict Session) × (pg_load clock column (pg_save clock column s d).1 ≡ ok d')
        × ((t : String) → lookup t d' ≡ Option.map (pg_keeps clock column t) (lookup t d)))
      × (((pg_save clock column s d).0 ≡ ok tt)
          ⊎ ((s.faults.commit ≡ lost)
              × ((pg_save clock column s d).0 ≡ err (message "commit session tx"))))

  -- The three ways of `Save`: it fails and changes nothing, or every session was inserted and the
  -- commit was applied, with its answer or without.
  pg_save_cases :
      ((e : Error) × (pg_save clock column s d ≡ (err e, s)))
      ⊎ ((rows : Dict (SessionRow B)) × (insert_sessions clock column s.faults d [] ≡ ok rows)
          × ((pg_save clock column s d ≡ (ok tt, record s { rows = rows }))
              ⊎ ((s.faults.commit ≡ lost)
                  × (pg_save clock column s d
                      ≡ (err (message "commit session tx"), record s { rows = rows })))))
  unfolding pg_save
  pg_save_cases = elim (Bool-cases s.faults.begin_fails) [
    | inl e ↦ inl (message "begin tx", ground arith)
    | inr begins ↦ elim (Bool-cases s.faults.clear_fails) [
      | inl e ↦ inl (message "clear sessions", ground arith)
      | inr clears ↦ elim (Result-cases (insert_sessions clock column s.faults d [])) [
        | inr (e, failed) ↦ inl (e, ground arith)
        | inl (rows, inserted) ↦ elim (Reply-cases s.faults.commit) [
          | inl good ↦ inr (rows, inserted, inl (ground arith))
          | inr (inl fails) ↦ inl (message "commit session tx", ground arith)
          | inr (inr gone) ↦ inr (rows, inserted, inr (gone, ground arith))
        ]
      ]
    ]
  ]

  -- `Save` leaves the table as it was and returns an error, or the table has the saved sessions and
  -- no others afterwards, whatever statement fails; in the second case there is an error only where
  -- the commit was applied and its answer was lost.
  pub pg_save_atomic : IsReadable clock column s → IsUnchanged ⊎ IsReplaced
  pg_save_atomic readable = elim pg_save_cases [
    | inl (e, same) ↦ inl (rw same refl, (e, rw same refl))
    | inr (rows, inserted, inl same) ↦
        let loaded = load-insert_sessions clock column s d rows readable inserted in
        inr (rw same loaded, inl (rw same refl))
    | inr (rows, inserted, inr (gone, same)) ↦
        let loaded = load-insert_sessions clock column s d rows readable inserted in
        inr (rw same loaded, inr (gone, rw same refl))
  ]

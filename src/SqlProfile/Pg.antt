-- ===== src/SqlProfile/Pg.antt =====
-- internal/sqlprofile/service_postgres.go: the profiles in the table `sql_profiles`, whose columns
-- are the fields of a profile.
use modern_mcs.Prelude.{
  ℕ, zero, suc, String, Bool, List, [], ◌∷◌, Option, none, some, Result, ok, err, ◌==◌,
  if◌then◌else◌,
}
use modern_mcs.Text.{trim_space}
use modern_mcs.Dict.{Dict, lookup, insert, erase, values}
use modern_mcs.Postgres.{Reply, applied, refused, lost, Clock}
use modern_mcs.SqlProfile.Types.{Profile, Error, not_found, message, Outcome}
use modern_mcs.SqlProfile.Sort.{sort_by_created}
use modern_mcs.SqlProfile.Service.{validate, generate_id, new_profile, merge_profile}

-- The statements that fail. `breaks_after` is the number of rows after which `rows.Next` gives up, if
-- it does so before the last one; `count_fails` is about `RowsAffected`.
pub record ProfileFaults : Type 0 where
  pub schema_fails : Bool
  pub query_fails : Bool
  pub scan_fails : String → Bool
  pub breaks_after : Option ℕ
  pub get_fails : String → Bool
  pub insert : Profile → Reply
  pub update : String → Profile → Reply
  pub delete : String → Reply
  pub count_fails : Bool

-- The rows by their ids.
pub record PgService : Type 0 where
  pub rows : Dict Profile
  pub faults : ProfileFaults

unfoldable pub new_pg_service : Option PgService → Result Error PgService
new_pg_service none = err (message "database is required")
new_pg_service (some db) =
    if db.faults.schema_fails then err (message "ensure sql_profiles schema") else ok db

unfoldable pub take {ℓ} : {A : Type ℓ} → ℕ → List A → List A
take n [] = []
take zero (x ∷ xs) = []
take (suc n) (x ∷ xs) = x ∷ take n xs

-- The rows that `rows.Next` comes to.
unfoldable pub rows_until : Option ℕ → List Profile → List Profile
unfolding take
rows_until none rows = rows
rows_until (some n) rows = take n rows

-- The loop of `List`, which leaves out a row that it cannot scan.
unfoldable pub scan_profiles : (String → Bool) → List Profile → List Profile
scan_profiles fails [] = []
scan_profiles fails (p ∷ rows) =
    let rest = scan_profiles fails rows in if fails p.id then rest else p ∷ rest

-- `ORDER BY created_at ASC` leaves the order of equal times open, as `sort.Slice` does.
unfoldable pub pg_list : PgService → List Profile
unfolding rows_until scan_profiles
pg_list s =
    if s.faults.query_fails
    then []
    else sort_by_created (
        scan_profiles s.faults.scan_fails
          (rows_until s.faults.breaks_after (sort_by_created (values s.rows))))

unfoldable pub pg_get : String → PgService → Result Error Profile
pg_get given s =
    let id = trim_space given in
    if id == ""
    then err not_found
    else if s.faults.get_fails id
    then err (message "get sql profile")
    else elim (lookup id s.rows) [ none ↦ err not_found | some p ↦ ok p ]

-- What a command returns whose rows were written, or deleted: `RowsAffected`, and what follows.
unfoldable pub after_rows : {A : Type 0} → Bool → String → Result Error A → Result Error A
after_rows count_fails text r = if count_fails then err (message text) else r

module _ (clock : Clock) where
  -- The row of the `INSERT`.
  unfoldable pub profile_row : Profile → Profile
  profile_row p = record p {
    created_at = clock.stored p.created_at;
    modified_at = clock.stored p.modified_at;
  }

  -- The `INSERT`: the id is the primary key.
  unfoldable pub insert_profile : Profile → PgService → Outcome PgService Profile
  unfolding profile_row
  insert_profile p s =
      let written = record s { rows = insert p.id (profile_row p) s.rows } in
      elim (lookup p.id s.rows) [
        | some taken ↦ (err (message "insert sql profile"), s)
        | none ↦ elim (s.faults.insert p) [
          | applied ↦ (ok p, written)
          | refused ↦ (err (message "insert sql profile"), s)
          | lost ↦ (err (message "insert sql profile"), written)
        ]
      ]

  unfoldable pub pg_create : ℕ → Option (List ℕ) → Profile → PgService → Outcome PgService Profile
  unfolding insert_profile
  pg_create now random p s = elim (validate p) [
    | err e ↦ (err e, s)
    | ok _ ↦ elim (generate_id 12 random) [
      | err e ↦ (err (message "generate id"), s)
      | ok id ↦ insert_profile (new_profile id now p) s
    ]
  ]

  -- The `UPDATE` of a row that is there, and the rest of `Update`.
  unfoldable pub update_row : ℕ → String → Profile → Profile → PgService → Outcome PgService Profile
  unfolding after_rows pg_get
  update_row now id p existing s =
      let written = record s {
        rows = insert id (merge_profile (clock.stored now) p existing) s.rows;
      } in
      elim (s.faults.update id p) [
        | applied ↦ (
          after_rows s.faults.count_fails "read update affected rows" (pg_get id written),
          written,
        )
        | refused ↦ (err (message "update sql profile"), s)
        | lost ↦ (err (message "update sql profile"), written)
      ]

  -- The `UPDATE` where no row has the id.
  unfoldable pub update_nothing : String → Profile → PgService → Outcome PgService Profile
  unfolding after_rows
  update_nothing id p s = elim (s.faults.update id p) [
    | applied ↦ (after_rows s.faults.count_fails "read update affected rows" (err not_found), s)
    | _ ↦ (err (message "update sql profile"), s)
  ]

  unfoldable pub pg_update : ℕ → String → Profile → PgService → Outcome PgService Profile
  unfolding update_row update_nothing
  pg_update now given p s = elim (validate p) [
    | err e ↦ (err e, s)
    | ok _ ↦
        let id = trim_space given in
        if id == "" then (err not_found, s) else elim (lookup id s.rows) [
          | some existing ↦ update_row now id p existing s
          | none ↦ update_nothing id p s
        ]
  ]

  unfoldable pub pg_delete : String → PgService → Outcome PgService (Unit {0})
  unfolding after_rows
  pg_delete given s =
      let id = trim_space given in
      if id == ""
      then (err not_found, s)
      else (let written = record s { rows = erase id s.rows } in
          let found : Result Error (Unit {0}) = elim (lookup id s.rows) [
            | none ↦ err not_found
            | some existing ↦ ok tt
          ] in
          elim (s.faults.delete id) [
            | applied ↦ (after_rows s.faults.count_fails "read delete affected rows" found, written)
            | refused ↦ (err (message "delete sql profile"), s)
            | lost ↦ (err (message "delete sql profile"), written)
          ])

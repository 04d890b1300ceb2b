-- ===== src/Auth/Users/Pg.antt =====
-- internal/auth/store_postgres.go: the store in the table `auth_users`. Its columns `created_at` and
-- `updated_at` are read by no query, and are left out.
use modern_mcs.Prelude.{
  String, ◌≡◌, refl, ap, ◌∙◌, inl, inr, Bool, false, ◌||◌, arith, List, Option, none, some, Result,
  ok, err, Option-cases, ◌==◌, eq_iff, if◌then◌else◌,
}
use modern_mcs.Text.{trim_space}
use modern_mcs.Text.Trim.{trim_space_idem}
use modern_mcs.Dict.{Dict, lookup, insert}
use modern_mcs.Dict.Laws.{lookup-insert}
use modern_mcs.Postgres.{
  Reply, applied, refused, lost, Jsonb, decode_list, decode_list-kept, is_taken,
}
use modern_mcs.Auth.Types.{User, UserStore, Error, user_not_found, message, Outcome}
use modern_mcs.Auth.Users.Laws.{IsUserStore}

-- A row, without its user name: the name is unique and not null, so it can stand for the key.
pub record UserRow (B : Type 0) : Type 0 where
  pub id : String
  pub password_hash : String
  pub roles : B

-- The statements that fail. A row that the server does not take, for another reason than that its
-- id is taken, is among `upsert`.
pub record UserFaults (B : Type 0) : Type 0 where
  pub schema_fails : Bool
  pub query_fails : Bool
  pub upsert : String → UserRow B → Reply

pub record PgUserStore (B : Type 0) : Type 0 where
  pub rows : Dict (UserRow B)
  pub faults : UserFaults B

unfoldable pub new_postgres_user_store :
    {B : Type 0} → Option (PgUserStore B) → Result Error (PgUserStore B)
new_postgres_user_store none = err (message "database is required")
new_postgres_user_store (some db) =
    if db.faults.schema_fails then err (message "ensure auth_users schema") else ok db

module _ {B : Type 0} (column : Jsonb (List String) B) where
  -- What `Scan` and the decoding of the roles make of a row.
  unfoldable pub row_user : String → UserRow B → Result Error User
  unfolding decode_list
  row_user username row = elim (decode_list column row.roles) [
    | none ↦ err (message "decode roles")
    | some roles ↦ ok (record {
      id = row.id;
      username = username;
      password_hash = row.password_hash;
      roles = roles;
    })
  ]

  unfoldable pub pg_get_by_username : PgUserStore B → String → Result Error User
  unfolding row_user
  pg_get_by_username s given =
      let username = trim_space given in
      if username == ""
      then err user_not_found
      else if s.faults.query_fails
      then err (message "query auth user")
      else elim (lookup username s.rows) [
        | none ↦ err user_not_found
        | some row ↦ row_user username row
      ]

  -- `INSERT … ON CONFLICT (username) DO UPDATE`: it fails where another row has the id, which is the
  -- primary key.
  unfoldable pub upsert_user :
      PgUserStore B → String → UserRow B → Outcome (PgUserStore B) (Unit {0})
  unfolding is_taken
  upsert_user s username row =
      let written = record s { rows = insert username row s.rows } in
      if is_taken (λ r. r.id) username row.id s.rows
      then (err (message "upsert auth user"), s)
      else elim (s.faults.upsert username row) [
        | applied ↦ (ok tt, written)
        | refused ↦ (err (message "upsert auth user"), s)
        | lost ↦ (err (message "upsert auth user"), written)
      ]

  unfoldable pub pg_put : PgUserStore B → User → Outcome (PgUserStore B) (Unit {0})
  unfolding upsert_user
  pg_put s user =
      let username = trim_space user.username in
      if user.id == "" || username == "" || user.password_hash == ""
      then (err (message "id, username, and password hash are required"), s)
      else elim (column.json.encode user.roles) [
        | none ↦ (err (message "encode roles"), s)
        | some roles ↦
            upsert_user s username (record {
              id = user.id;
              password_hash = user.password_hash;
              roles = column.kept roles;
            })
      ]

  abbrev pub pg_user_store : UserStore (PgUserStore B)
  pg_user_store = record { get_by_username = pg_get_by_username; put = pg_put }

  faults-pg_put : (s : PgUserStore B) (user : User) → (pg_put s user).1.faults ≡ s.faults
  unfolding pg_put upsert_user
  faults-pg_put s user = ground arith

  username-row_user :
      (username : String) (row : UserRow B) (user : User)
      → row_user username row ≡ ok user
      → user.username ≡ username
  unfolding row_user
  username-row_user username row user h = ground arith

  username-pg_get :
      (s : PgUserStore B) (name : String) (user : User)
      → pg_get_by_username s name ≡ ok user
      → user.username ≡ trim_space name
  unfolding pg_get_by_username
  username-pg_get s name user h = elim (Option-cases (lookup (trim_space name) s.rows)) [
    | inl absent ↦ let bad : ⊥ = ground arith in absurd bad
    | inr (row, found) ↦ username-row_user (trim_space name) row user (ground arith)
  ]

  abbrev written_row : User → B → UserRow B
  written_row user roles = record {
    id = user.id;
    password_hash = user.password_hash;
    roles = column.kept roles;
  }

  pg_put_ok :
      (s : PgUserStore B) (user : User)
      → (pg_put s user).0 ≡ ok tt
      → (trim_space user.username == "" ≡ false)
        × (roles : B) × (column.json.encode user.roles ≡ some roles)
        × ((pg_put s user).1
            ≡ record s { rows = insert (trim_space user.username) (written_row user roles) s.rows })
  unfolding pg_put upsert_user
  pg_put_ok s user h = elim (Option-cases (column.json.encode user.roles)) [
    | inl fails ↦ let bad : ⊥ = ground arith in absurd bad
    | inr (roles, encoded) ↦ (ground arith, roles, encoded, ground (arith, encoded))
  ]

  row_user-written_row :
      (user : User) (roles : B) (username : String)
      → column.json.encode user.roles ≡ some roles
      → row_user username (written_row user roles) ≡ ok (record user { username = username })
  unfolding row_user
  row_user-written_row user roles username h =
      rw (decode_list-kept column user.roles roles h, row_user) refl

  -- The table keeps the promise where queries do not fail; a user name is trimmed.
  pub pg-IsUserStore : IsUserStore pg_user_store trim_space (λ s. s.faults.query_fails ≡ false)
  unfolding pg_get_by_username
  pg-IsUserStore = record {
    canon_idem = trim_space_idem;
    put-Valid =
        λ s user valid. ap (λ (f : UserFaults B). f.query_fails) (faults-pg_put s user) ∙ valid;
    username-get = λ s name user valid h. username-pg_get s name user h;
    get-put = λ s user name valid h.
        let (named, roles, encoded, after) = pg_put_ok s user h in
        rw after (
          ground (
            arith,
            valid,
            lookup-insert (trim_space user.username) (trim_space name) (written_row user roles)
                s.rows,
            row_user-written_row user roles (trim_space user.username) encoded,
            eq_iff (trim_space user.username) (trim_space name),
            named,
          ));
  }

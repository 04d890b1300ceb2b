-- ===== src/SqlProfile/Service.antt =====
-- internal/sqlprofile/service.go. A method takes the service and returns its result beside the new
-- service; the clock and the random bytes of a call are arguments.
pub mod Valid
pub mod Writes
pub mod Calls
pub mod Reload
use Prim.Native.String
use modern_mcs.Prelude.{
  ℕ, String, Bool, true, false, not, ◌&&◌, ◌||◌, ℤ, pos_part, List, [], ◌∷◌, map, Option, none,
  some, Result, ok, err, ltb, ◌==◌, if◌then◌else◌,
}
use modern_mcs.Text.{trim_space, to_lower}
use modern_mcs.Text.Hex.{encode_to_string}
use modern_mcs.Dict.{Dict, lookup, insert, erase, values}
use modern_mcs.Disk.{Content, missing, unreadable, bytes, Disk, write_file}
use modern_mcs.Codec.{Codec}
use modern_mcs.SqlProfile.Types.{Profile, clone, Error, not_found, invalid_input, message, Outcome}
use modern_mcs.SqlProfile.Sort.{sort_by_created}

-- `allowedDBTypes`
abbrev pub is_allowed_db_type : String → Bool
is_allowed_db_type t = t == "mysql" || t == "mssql" || t == "pgsql"

-- `strings.ToLower(strings.TrimSpace(p.DBType))`
abbrev pub normal_db_type : String → String
normal_db_type t = to_lower (trim_space t)

unfoldable pub validate : Profile → Result Error (Unit {0})
validate p =
    if trim_space p.name == ""
    then err (invalid_input "name is required")
    else if not (is_allowed_db_type (normal_db_type p.db_type))
    then err (invalid_input "db_type must be mysql, mssql, or pgsql")
    else if trim_space p.host == ""
    then err (invalid_input "host is required")
    else if not (ltb 0 (pos_part p.port)) || ltb 65535 (pos_part p.port)
    then err (invalid_input "port must be between 1 and 65535")
    else if trim_space p.database == ""
    then err (invalid_input "database is required")
    else if trim_space p.commands == ""
    then err (invalid_input "commands is required")
    else ok tt

unfoldable pub generate_id : ℕ → Option (List ℕ) → Result Error String
generate_id n random =
    if ltb n 8
    then err (message "id length too short")
    else elim random [ none ↦ err (message "rand.Read") | some b ↦ ok (encode_to_string b) ]

unfoldable pub clone_profiles : Dict Profile → Dict Profile
clone_profiles [] = []
clone_profiles ((k, v) ∷ src) = (k, clone v) ∷ clone_profiles src

pub record Service (B : Type 0) : Type 0 where
  pub state_file : String
  pub profiles : Dict Profile
  pub disk : Disk B

unfoldable pub new_service : {B : Type 0} → Disk B → Service B
new_service disk = record { state_file = ""; profiles = []; disk = disk }

-- What `Create` stores.
unfoldable pub new_profile : String → ℕ → Profile → Profile
new_profile id now p = record p {
  id = id;
  name = trim_space p.name;
  db_type = normal_db_type p.db_type;
  created_at = now;
  modified_at = now;
}

-- What `Update` stores in place of `existing`.
unfoldable pub merge_profile : ℕ → Profile → Profile → Profile
merge_profile now p existing = record existing {
  name = trim_space p.name;
  db_type = normal_db_type p.db_type;
  host = p.host;
  port = p.port;
  username = p.username;
  database = p.database;
  commands = p.commands;
  use_ssl = p.use_ssl;
  modified_at = now;
}

-- The loop of `loadState` over the decoded profiles.
unfoldable pub add_profiles : List Profile → Dict Profile → Dict Profile
add_profiles [] profiles = profiles
add_profiles (p ∷ ps) profiles =
    add_profiles ps (if p.id == "" then profiles else insert p.id (clone p) profiles)

module _ {B : Type 0} where
  unfoldable pub list : Service B → List Profile
  list s = sort_by_created (map clone (values s.profiles))

  unfoldable pub get : String → Service B → Result Error Profile
  get id s = elim (lookup id s.profiles) [ none ↦ err not_found | some p ↦ ok (clone p) ]

module _ {B : Type 0} (json : Codec (List Profile) B) where
  unfoldable pub persist_locked : Service B → Outcome (Service B) (Unit {0})
  unfolding write_file
  persist_locked s =
      if s.state_file == ""
      then (ok tt, s)
      else elim (json.encode (sort_by_created (map clone (values s.profiles)))) [
        | none ↦ (err (message "encode sql profile state"), s)
        | some b ↦
            if s.disk.mkdir_fails s.state_file
            then (err (message "mkdir sql profile state dir"), s)
            else (let (written, disk) = write_file s.state_file b s.disk in
                (
                  if written then ok tt else err (message "write sql profile state"),
                  record s { disk = disk },
                ))
      ]

  -- What follows a change of the map in `Create`, `Update` and `Delete`: the write, and on an error
  -- the map as it was before.
  unfoldable pub commit : {A : Type 0} → A → Dict Profile → Service B → Outcome (Service B) A
  unfolding persist_locked
  commit a changed s =
      let prev = clone_profiles s.profiles in
      let (r, s') = persist_locked (record s { profiles = changed }) in
      elim r [ ok _ ↦ (ok a, s') | err e ↦ (err e, record s' { profiles = prev }) ]

  unfoldable pub create : ℕ → Option (List ℕ) → Profile → Service B → Outcome (Service B) Profile
  unfolding commit new_profile
  create now random p s = elim (validate p) [
    | err e ↦ (err e, s)
    | ok _ ↦ elim (generate_id 12 random) [
      | err e ↦ (err (message "generate id"), s)
      | ok id ↦ let q = new_profile id now p in commit q (insert q.id (clone q) s.profiles) s
    ]
  ]

  unfoldable pub update : ℕ → String → Profile → Service B → Outcome (Service B) Profile
  unfolding commit merge_profile
  update now id p s = elim (validate p) [
    | err e ↦ (err e, s)
    | ok _ ↦ elim (lookup id s.profiles) [
      | none ↦ (err not_found, s)
      | some existing ↦
          let q = merge_profile now p existing in commit q (insert id (clone q) s.profiles) s
    ]
  ]

  unfoldable pub delete : String → Service B → Outcome (Service B) (Unit {0})
  unfolding commit
  delete id s = elim (lookup id s.profiles) [
    | none ↦ (err not_found, s)
    | some _ ↦ commit tt (erase id s.profiles) s
  ]

  unfoldable pub load_state : Service B → Outcome (Service B) (Unit {0})
  unfolding add_profiles
  load_state s = elim (s.disk.file s.state_file) [
    | missing ↦ (ok tt, s)
    | unreadable ↦ (err (message "read sql profile state"), s)
    | bytes b ↦ if json.is_empty b then (ok tt, s) else elim (json.decode b) [
      | none ↦ (err (message "decode sql profile state"), s)
      | some decoded ↦ (ok tt, record s { profiles = add_profiles decoded s.profiles })
    ]
  ]

  unfoldable pub new_service_with_file : String → Disk B → Result Error (Service B)
  new_service_with_file state_file disk =
      let trimmed = trim_space state_file in
      if trimmed == ""
      then err (message "state file path is required")
      else (let (r, s) = load_state (record { state_file = trimmed; profiles = []; disk = disk }) in
          elim r [ ok _ ↦ ok s | err e ↦ err e ])

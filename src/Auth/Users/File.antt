-- ===== src/Auth/Users/File.antt =====
-- internal/auth/store_file.go: the store that keeps its users in a JSON file.
use modern_mcs.Prelude.{String, List, map, none, some, Result, ok, err, ◌==◌, if◌then◌else◌}
use modern_mcs.Prelude.{[], ◌∷◌}
use modern_mcs.Text.{trim_space}
use modern_mcs.Dict.{Dict, lookup, insert, values}
use modern_mcs.Disk.{missing, unreadable, bytes, Disk, write_file}
use modern_mcs.Codec.{Codec}
use modern_mcs.Auth.Types.{User, Error, message, UserStore, Outcome}
use modern_mcs.Auth.Users.Memory.{found_user}

-- What of a `User` the JSON text has: the struct tag of `PasswordHash` is `json:"-"`.
pub record UserJson : Type 0 where
  pub id : String
  pub username : String
  pub roles : List String

-- The struct tags of `User`, as `json.Marshal` reads them.
unfoldable pub marshal_user : User → UserJson
marshal_user u = record { id = u.id; username = u.username; roles = u.roles }

-- `json.Unmarshal` into a zero `User`.
unfoldable pub unmarshal_user : UserJson → User
unmarshal_user j = record { id = j.id; username = j.username; password_hash = ""; roles = j.roles }

pub record FileUserStore (B : Type 0) : Type 0 where
  pub path : String
  pub users : Dict User
  pub disk : Disk B

-- The loop of `load` over the decoded users.
unfoldable pub add_users : List User → Dict User → Dict User
add_users [] users = users
add_users (u ∷ us) users =
    add_users us (if trim_space u.username == "" then users else insert u.username u users)

module _ {B : Type 0} (json : Codec (List UserJson) B) where
  unfoldable pub load : FileUserStore B → Outcome (FileUserStore B) (Unit {0})
  unfolding add_users unmarshal_user
  load s = elim (s.disk.file s.path) [
    | missing ↦ (ok tt, s)
    | unreadable ↦ (err (message "read user store file"), s)
    | bytes b ↦ if json.is_empty b then (ok tt, s) else elim (json.decode b) [
      | none ↦ (err (message "decode user store file"), s)
      | some decoded ↦ (ok tt, record s { users = add_users (map unmarshal_user decoded) s.users })
    ]
  ]

  unfoldable pub persist_locked : FileUserStore B → Outcome (FileUserStore B) (Unit {0})
  unfolding marshal_user write_file
  persist_locked s = elim (json.encode (map marshal_user (values s.users))) [
    | none ↦ (err (message "encode user store file"), s)
    | some b ↦
        if s.disk.mkdir_fails s.path
        then (err (message "mkdir user store dir"), s)
        else (let (written, disk) = write_file s.path b s.disk in
            (
              if written then ok tt else err (message "write user store file"),
              record s { disk = disk },
            ))
  ]

  -- The store, or the error, and the state of the file's disk.
  unfoldable pub new_file_user_store : String → Disk B → Result Error (FileUserStore B)
  new_file_user_store path disk =
      let trimmed = trim_space path in
      if trimmed == ""
      then err (message "user state file path is required")
      else (let (r, s) = load (record { path = trimmed; users = []; disk = disk }) in
          elim r [ ok _ ↦ ok s | err e ↦ err e ])

  unfoldable pub file_get_by_username : FileUserStore B → String → Result Error User
  file_get_by_username s username = found_user (lookup username s.users)

  unfoldable pub file_put : FileUserStore B → User → Outcome (FileUserStore B) (Unit {0})
  unfolding persist_locked
  file_put s user = persist_locked (record s { users = insert user.username user s.users })

  abbrev pub file_user_store : UserStore (FileUserStore B)
  file_user_store = record { get_by_username = file_get_by_username; put = file_put }

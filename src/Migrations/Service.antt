-- ===== src/Migrations/Service.antt =====
-- `Service` of internal/migrations/service.go, over the state of its store.
pub mod Listing
pub mod Marking
use Prim.Native.String
use modern_mcs.Prelude.{
  ℕ, String, Bool, true, false, not, ◌||◌, List, [], ◌∷◌, map, Option, none, some, Result, ok, err,
  ◌==◌, if◌then◌else◌,
}
use modern_mcs.Text.{trim_space, has_suffix, contains_char}
use modern_mcs.Text.Hex.{encode_to_string}
use modern_mcs.Dict.{lookup}
use modern_mcs.Migrations.Types.{
  FileInfo, Status, AppliedState, DirEntry, Stat, Directory, Error, invalid_name, does_not_exist,
  message, Outcome, AppliedStore,
}
use modern_mcs.Migrations.Sort.{sort_by_name}

-- `fileSHA256` of a file of the directory; `sum256` is `sha256.Sum256`.
unfoldable pub file_sha256 : (List ℕ → List ℕ) → Directory → String → Option String
file_sha256 sum256 dir name = elim (dir.content name) [
  | none ↦ none
  | some b ↦ some (encode_to_string (sum256 b))
]

-- The entries that the loop of `List` passes over.
abbrev pub is_skipped : DirEntry → Bool
is_skipped e = e.is_dir || not (has_suffix e.name ".sql")

module _ (sum256 : List ℕ → List ℕ) (dir : Directory) where
  abbrev add_file :
      String → Option String → Result Error (List FileInfo) → Result Error (List FileInfo)
  add_file name none rest = err (message (String.◌++◌ "hash migration " name))
  add_file name (some checksum) (err e) = err e
  add_file name (some checksum) (ok fs) = ok (record { name = name; checksum = checksum } ∷ fs)

  -- The loop of `List`.
  unfoldable pub collect : List DirEntry → Result Error (List FileInfo)
  unfolding file_sha256
  collect [] = ok []
  collect (e ∷ es) =
      let rest = collect es in
      if is_skipped e then rest else add_file e.name (file_sha256 sum256 dir e.name) rest

  unfoldable pub list : Result Error (List FileInfo)
  unfolding collect
  list = elim dir.entries [
    | none ↦ err (message "read migrations dir")
    | some entries ↦ elim (collect entries) [ err e ↦ err e | ok fs ↦ ok (sort_by_name fs) ]
  ]

  abbrev pub status_of : AppliedState → FileInfo → Status
  status_of applied f = elim (lookup f.name applied) [
    | none ↦ record { name = f.name; checksum = f.checksum; applied = false; applied_at = "" }
    | some at ↦ record { name = f.name; checksum = f.checksum; applied = true; applied_at = at }
  ]

  module _ {S : Type 0} (store : AppliedStore S) where
    unfoldable pub status : S → Result Error (List Status)
    status s = elim list [
      | err e ↦ err e
      | ok files ↦ elim (store.load s) [
        | err e ↦ err e
        | ok applied ↦ ok (map (status_of applied) files)
      ]
    ]

    unfoldable pub mark_applied : String → ℕ → S → Outcome S (Unit {0})
    mark_applied given applied_at s =
        let name = trim_space given in
        if name == "" || not (has_suffix name ".sql") || contains_char name b'/'
        then (err invalid_name, s)
        else elim (dir.stat name) [
          | Stat.not_exist ↦ (err does_not_exist, s)
          | Stat.failed ↦ (err (message "stat migration"), s)
          | Stat.exists ↦ store.set_applied s name applied_at
        ]

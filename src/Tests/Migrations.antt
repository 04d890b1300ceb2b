-- ===== src/Tests/Migrations.antt =====
-- A directory with two migrations, and instances of the theorems on migrations.
use mathlib.Core.List.{Memᴰ}
use modern_mcs.Prelude.{ℕ, String, ◌≡◌, ◌↔◌, refl, map, List, [], ◌∷◌, some, ok, false, not-eq→ne}
use modern_mcs.Text.{
  trim_space, trim_left, trim_right, push_trimmed, is_space, has_suffix, contains_char,
}
use modern_mcs.Text.Hex.{encode_to_string, nth_char}
use modern_mcs.Dict.{lookup, insert}
use modern_mcs.Disk.{write_file}
use modern_mcs.Migrations.Types.{FileInfo, Status, DirEntry, Stat, Directory, AppliedStore}
use modern_mcs.Migrations.Sort.{IsSortedByName, sort_by_name, insert_by_name}
use modern_mcs.Migrations.Store.{
  FileAppliedStore, file_applied_store, file_load, file_set_applied, save_state,
  file-IsAppliedStore,
}
use modern_mcs.Migrations.Service.{file_sha256, collect, list, status, mark_applied}
use modern_mcs.Migrations.Service.Listing.{IsFileOf, list_ok}
use modern_mcs.Migrations.Service.Marking.{marked, status-mark_applied}
use modern_mcs.Tests.Fixtures.{Bytes, applied_codec, empty_disk}

abbrev directory : Directory
directory = record {
  entries = some (
      record { name = "0002_more.sql"; is_dir = false }
      ∷ record { name = "README.txt"; is_dir = false }
      ∷ record { name = "0001_init.sql"; is_dir = false }
      ∷ []);
  content = λ name. some (1 ∷ 2 ∷ []);
  stat = λ name. Stat.exists;
}

abbrev format : ℕ → String
format t = "2026-02-16T12:30:00Z"

abbrev store : AppliedStore (FileAppliedStore Bytes)
store = file_applied_store applied_codec format

abbrev state : FileAppliedStore Bytes
state = record { state_file = "state.json"; disk = empty_disk }

abbrev same_bytes : List ℕ → List ℕ
same_bytes b = b

abbrev files : List FileInfo
files =
    record { name = "0001_init.sql"; checksum = "0102" }
    ∷ record { name = "0002_more.sql"; checksum = "0102" }
    ∷ []

listed : list same_bytes directory ≡ ok files
unfolding list collect file_sha256 has_suffix sort_by_name insert_by_name encode_to_string nth_char
listed = refl

list_ok_example :
    (es : List DirEntry) × (directory.entries ≡ some es)
    × IsSortedByName files
    × ((f : FileInfo)
        → Memᴰ f files ↔ ((e : DirEntry) × Memᴰ e es × IsFileOf same_bytes directory f e))
list_ok_example = list_ok same_bytes directory files listed

abbrev before : List Status
before =
    record { name = "0001_init.sql"; checksum = "0102"; applied = false; applied_at = "" }
    ∷ record { name = "0002_more.sql"; checksum = "0102"; applied = false; applied_at = "" }
    ∷ []

reported : status same_bytes directory store state ≡ ok before
unfolding status list collect file_sha256 has_suffix sort_by_name insert_by_name encode_to_string
    nth_char file_load lookup
reported = refl

set : (mark_applied same_bytes directory store " 0001_init.sql" 7 state).0 ≡ ok tt
unfolding mark_applied trim_space trim_left trim_right push_trimmed is_space has_suffix
    contains_char file_set_applied file_load save_state write_file insert
set = refl

status-mark_applied_example :
    status same_bytes directory store
      (mark_applied same_bytes directory store " 0001_init.sql" 7 state).1
    ≡ ok (map (marked (trim_space " 0001_init.sql") (format 7)) before)
status-mark_applied_example =
    status-mark_applied same_bytes directory store " 0001_init.sql" 7 state
      (file-IsAppliedStore applied_codec format) before (not-eq→ne "state.json" "" refl) reported
      set

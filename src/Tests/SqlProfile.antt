-- ===== src/Tests/SqlProfile.antt =====
-- A service with one profile, and instances of the theorems on SQL profiles.
use modern_mcs.Prelude.{
  ℕ, String, ◌≡◌, ◌↔◌, refl, ap, sym, subst, ◌∙◌, inl, inr, Bool-cases, List, [], ◌∷◌, Option, none,
  some, ok, true, not-eq→ne, eq_iff, ◌==◌, pos,
}
use modern_mcs.Text.{
  trim_space, trim_left, trim_right, push_trimmed, is_space, to_lower, lower_char, translate,
}
use modern_mcs.Text.Hex.{encode_to_string, nth_char}
use modern_mcs.Dict.{lookup, insert, erase, values}
use modern_mcs.Disk.{write_file}
use modern_mcs.SqlProfile.Types.{Profile, message}
use modern_mcs.SqlProfile.Sort.{sort_by_created, insert_by_created}
use modern_mcs.SqlProfile.Service.{
  Service, validate, generate_id, new_profile, merge_profile, clone_profiles, commit,
  persist_locked, create, update, delete, new_service_with_file,
}
use modern_mcs.SqlProfile.Service.Valid.{IsValid, validate_iff}
use modern_mcs.SqlProfile.Service.Calls.{deletes, perform, IsProfileMap}
use modern_mcs.SqlProfile.Service.Reload.{IsReadable, new_service-persist_locked}
use modern_mcs.Tests.Fixtures.{Bytes, profiles_codec, empty_disk, full_disk, repeat}

abbrev pub input : Profile
input = record {
  id = "";
  name = " main ";
  db_type = "MySQL";
  host = "db";
  port = pos 3306;
  username = "u";
  database = "d";
  commands = "SELECT 1";
  use_ssl = true;
  created_at = 0;
  modified_at = 0;
}

abbrev pub stored : Profile
stored = record input {
  id = "p1";
  name = "main";
  db_type = "mysql";
  created_at = 5;
  modified_at = 5;
}

abbrev pub service : Service Bytes
service = record { state_file = "profiles.json"; profiles = ("p1", stored) ∷ []; disk = empty_disk }

-- The same service on a disk that takes no write.
abbrev full : Service Bytes
full = record service { disk = full_disk }

validate_iff_example : (validate input ≡ ok tt) ↔ IsValid input
validate_iff_example = validate_iff input

abbrev random : Option (List ℕ)
random = some (repeat 12 9)

abbrev created : Profile
created = new_profile (encode_to_string (repeat 12 9)) 50 input

create-service : (create profiles_codec 50 random input service).0 ≡ ok created
unfolding create validate trim_space trim_left trim_right push_trimmed is_space to_lower lower_char
    translate generate_id commit persist_locked clone_profiles new_profile write_file
    sort_by_created insert_by_created values insert encode_to_string nth_char repeat
create-service = refl

abbrev updated : Profile
updated = merge_profile 60 input stored

update-service : (update profiles_codec 60 "p1" input service).0 ≡ ok updated
unfolding update validate trim_space trim_left trim_right push_trimmed is_space to_lower lower_char
    translate lookup commit persist_locked clone_profiles merge_profile write_file sort_by_created
    insert_by_created values insert
update-service = refl

delete-service : (delete profiles_codec "p1" service).0 ≡ ok tt
unfolding delete lookup commit persist_locked clone_profiles write_file sort_by_created
    insert_by_created values erase
delete-service = refl

delete-full :
    (perform profiles_codec (deletes "p1") full).0 ≡ some (message "write sql profile state")
unfolding perform delete lookup commit persist_locked clone_profiles write_file sort_by_created
    insert_by_created values erase
delete-full = refl

only :
    (id : String) (p : Profile) → lookup id service.profiles ≡ some p → ("p1" ≡ id) × (stored ≡ p)
unfolding lookup
only id p h = elim (Bool-cases ("p1" == id)) [
  | inl same ↦
      ((eq_iff "p1" id).0 same, ap (λ o. elim o [ some x ↦ x | none ↦ stored ]) (rw same at h))
  | inr other ↦ let bad = rw other at h in cc
]

stored-valid : validate stored ≡ ok tt
unfolding validate trim_space trim_left trim_right push_trimmed is_space to_lower lower_char
    translate
stored-valid = refl

service-IsProfileMap : IsProfileMap service.profiles
unfolding lookup
service-IsProfileMap = record {
  distinct = (refl, tt);
  keyed = λ id p h. let (same, own) = only id p h in ap (λ (x : Profile). x.id) (sym own) ∙ same;
  valid = λ id p h. subst (λ q. validate q ≡ ok tt) (only id p h).1 stored-valid;
}

service-IsReadable : IsReadable service.profiles
unfolding lookup
service-IsReadable = record {
  distinct = (refl, tt);
  keyed = service-IsProfileMap.keyed;
  named = refl;
}

trimmed : trim_space service.state_file ≡ service.state_file
unfolding trim_space trim_left trim_right push_trimmed is_space
trimmed = refl

written : (persist_locked profiles_codec service).0 ≡ ok tt
unfolding persist_locked write_file
written = refl

new_service-persist_locked_example :
    (s' : Service Bytes) × (new_service_with_file profiles_codec "profiles.json"
        (persist_locked profiles_codec service).1.disk
      ≡ ok s')
    × ((id : String) → lookup id s'.profiles ≡ lookup id service.profiles)
new_service-persist_locked_example =
    new_service-persist_locked profiles_codec service service-IsReadable trimmed
      (not-eq→ne "profiles.json" "" refl) written

-- ===== src/Auth/Users/Opened.antt =====
-- What a file store is like when it was just opened.
use modern_mcs.Prelude.{
  String, ◌≡◌, ◌≢◌, refl, ap, sym, ◌∙◌, inl, inr, arith, List, [], ◌∷◌, map, false, Result, ok, err,
  Bool-cases, ◌==◌, eq_iff, not-eq→ne, if◌then◌else◌,
}
use modern_mcs.Text.{trim_space}
use modern_mcs.Text.Trim.{trim_space_idem}
use modern_mcs.Dict.{Dict, lookup, insert}
use modern_mcs.Dict.Laws.{lookup-insert, HasDistinctKeys, insert-HasDistinctKeys}
use modern_mcs.Disk.{Disk}
use modern_mcs.Codec.{Codec}
use modern_mcs.Auth.Types.{User, Error, message}
use modern_mcs.Auth.Users.Laws.{IsKeyed}
use modern_mcs.Auth.Users.File.{
  UserJson, FileUserStore, add_users, unmarshal_user, load, new_file_user_store,
}
use modern_mcs.Auth.Users.Reload.{load_cases}

add_users-IsKeyed :
    (us : List User) (users : Dict User)
    → IsKeyed users
    → HasDistinctKeys users
    → IsKeyed (add_users us users) × HasDistinctKeys (add_users us users)
unfolding add_users
add_users-IsKeyed [] users keyed distinct = (keyed, distinct)
add_users-IsKeyed (u ∷ us) users keyed distinct = elim (Bool-cases (trim_space u.username == "")) [
  | inl blank ↦ rw blank (add_users-IsKeyed us users keyed distinct)
  | inr named ↦ rw named (
      add_users-IsKeyed us (insert u.username u users)
        (λ name user h.
          ground
            (arith, lookup-insert u.username name u users, eq_iff u.username name, keyed name user))
        (insert-HasDistinctKeys u.username u users distinct))
]

module _ {F : Type 0} (json : Codec (List UserJson) F) where
  -- What a store that was just opened is like.
  pub record IsOpened (path : String) (disk : Disk F) (users : FileUserStore F) : Type 0 where
    pub at : users.path ≡ trim_space path
    pub on : users.disk ≡ disk
    pub named : users.path ≢ ""
    pub keyed : IsKeyed users.users
    pub distinct : HasDistinctKeys users.users

  load_frame :
      (s : FileUserStore F) → ((load json s).1.path ≡ s.path) × ((load json s).1.disk ≡ s.disk)
  unfolding load
  load_frame s = (ground arith, ground arith)

  load-IsKeyed :
      (s : FileUserStore F)
      → s.users ≡ []
      → IsKeyed (load json s).1.users × HasDistinctKeys (load json s).1.users
  unfolding lookup
  load-IsKeyed s fresh =
      let empty : IsKeyed s.users × HasDistinctKeys s.users = rw fresh (λ name user h. cc, tt) in
      elim (load_cases json s) [
        | inl same ↦ rw same empty
        | inr (decoded, added) ↦
            rw added (add_users-IsKeyed (map unmarshal_user decoded) s.users empty.0 empty.1)
      ]

  pub new_file_user_store-IsOpened :
      (path : String) (disk : Disk F) (users : FileUserStore F)
      → new_file_user_store json path disk ≡ ok users
      → IsOpened path disk users
  unfolding new_file_user_store
  new_file_user_store-IsOpened path disk users h =
      let fresh : FileUserStore F = record { path = trim_space path; users = []; disk = disk } in
      let same : users ≡ (load json fresh).1 = ground arith in
      let named : (trim_space path == "") ≡ false = ground arith in
      let (at, on) = load_frame fresh in
      let (keyed, distinct) = load-IsKeyed fresh refl in
      rw same (record {
        at = at;
        on = on;
        named = λ e. not-eq→ne (trim_space path) "" named (sym at ∙ e);
        keyed = keyed;
        distinct = distinct;
      })

  -- Spaces around the path make no difference.
  pub new_file_user_store-trim_space :
      (path : String) (disk : Disk F)
      → new_file_user_store json (trim_space path) disk ≡ new_file_user_store json path disk
  unfolding new_file_user_store
  new_file_user_store-trim_space path disk =
      ap
        (λ (at : String).
          if at == ""
          then err (message "user state file path is required")
          else (let (r, s) = load json (record { path = at; users = []; disk = disk }) in
              elim r as (λ x. Result Error (FileUserStore F)) [ ok _ ↦ ok s | err e ↦ err e ]))
        (trim_space_idem path)

-- ===== src/Auth/Lockout.antt =====
-- The session service over a file store that was read back from its file.
use modern_mcs.Prelude.{
  String, ℕ, ◌≡◌, ap, sym, ◌∙◌, List, Option, some, ok, err, Result-cases, inl, inr, arith, false,
  ne→not-eq,
}
use modern_mcs.Text.Hex.{encode_to_string-ne-empty}
use modern_mcs.Dict.{lookup}
use modern_mcs.Disk.{Disk}
use modern_mcs.Codec.{Codec}
use modern_mcs.Auth.Types.{User, invalid_credentials}
use modern_mcs.Auth.Users.Memory.{found_user}
use modern_mcs.Auth.Users.File.{
  UserJson, FileUserStore, new_file_user_store, file_get_by_username, file_user_store,
}
use modern_mcs.Auth.Users.Reload.{new_file_user_store-HasNoHashes}
use modern_mcs.Auth.State.{Platform, Service, Randomness}
use modern_mcs.Auth.Service.{verify_password, login}
use modern_mcs.Auth.Service.Login.{login_unknown, login_refused}

found_user-eq-ok : (o : Option User) (u : User) → found_user o ≡ ok u → o ≡ some u
found_user-eq-ok o u h = ground arith

module _ {T B F : Type 0} (p : Platform (FileUserStore F) T B) where
  -- No password has the empty hash.
  verify_password-empty : (pepper password : String) → verify_password p pepper password "" ≡ false
  unfolding verify_password
  verify_password-empty pepper password =
      ne→not-eq _ _ (encode_to_string-ne-empty _ (omega (arith, p.sum256_length _)))

  -- After a restart on a user file, no login succeeds, whatever the file holds and whatever the
  -- user name and the password are: each one is refused as invalid credentials.
  pub login_after_reload :
      (json : Codec (List UserJson) F)
      → p.users ≡ file_user_store json
      → (path : String) (disk : Disk F) (s : Service (FileUserStore F) T B)
      → new_file_user_store json path disk ≡ ok s.users
      → (now : ℕ) (random : Randomness) (username password : String)
      → login p now random username password s ≡ (err invalid_credentials, s)
  unfolding file_get_by_username
  login_after_reload json over path disk s loaded now random username password =
      elim (Result-cases (p.users.get_by_username s.users username)) [
        | inr (e, unknown) ↦ login_unknown p now random username password s e unknown
        | inl (u, known) ↦
            let from_file : found_user (lookup username s.users.users) ≡ ok u =
              sym (ap (λ st. st.get_by_username s.users username) over) ∙ known in
            let found = found_user-eq-ok (lookup username s.users.users) u from_file in
            let no_hash =
              new_file_user_store-HasNoHashes json path disk s.users loaded username u found in
            login_refused p now random username password s u known
              (rw no_hash (verify_password-empty s.pepper password))
      ]

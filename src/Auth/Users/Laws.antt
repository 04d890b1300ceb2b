-- ===== src/Auth/Users/Laws.antt =====
-- What a user store promises to the session service, and that the stores in memory and in a file
-- keep it.
use modern_mcs.Prelude.{
  String, Bool, true, false, ◌≡◌, refl, sym, subst, List, Option, some, ok, arith, ◌==◌, eq_iff,
  if◌then◌else◌,
}
use modern_mcs.Dict.{Dict, lookup, insert}
use modern_mcs.Dict.Laws.{lookup-insert}
use modern_mcs.Codec.{Codec}
use modern_mcs.Auth.Types.{User, UserStore}
use modern_mcs.Auth.Users.Memory.{
  found_user, memory_get_by_username, memory_put, in_memory_user_store,
}
use modern_mcs.Auth.Users.File.{
  UserJson, FileUserStore, persist_locked, file_get_by_username, file_put, file_user_store,
}

-- `Valid` holds of the states that the store can be in and can be read in, and `canon` is what the
-- store makes of a user name.
pub record IsUserStore {U : Type 0} (st : UserStore U) (canon : String → String)
    (Valid : U → Type 0) : Type 0 where
  pub canon_idem : (name : String) → canon (canon name) ≡ canon name
  pub put-Valid : (u : U) (user : User) → Valid u → Valid (st.put u user).1
  pub username-get :
      (u : U) (name : String) (user : User)
      → Valid u
      → st.get_by_username u name ≡ ok user
      → user.username ≡ canon name
  pub get-put :
      (u : U) (user : User) (name : String)
      → Valid u
      → (st.put u user).0 ≡ ok tt
      → st.get_by_username (st.put u user).1 name ≡ (
          if canon user.username == canon name
          then ok (record user { username = canon user.username })
          else st.get_by_username u name)

-- Every user stands under its own name.
abbrev pub IsKeyed : Dict User → Type 0
IsKeyed users = (name : String) (user : User) → lookup name users ≡ some user → user.username ≡ name

insert-IsKeyed :
    (user : User) (users : Dict User) → IsKeyed users → IsKeyed (insert user.username user users)
insert-IsKeyed user users keyed name found h = ground (
  arith,
  lookup-insert user.username name user users,
  eq_iff user.username name,
  keyed name found,
)

found_user-IsKeyed :
    (users : Dict User) (name : String) (user : User)
    → IsKeyed users
    → found_user (lookup name users) ≡ ok user
    → user.username ≡ name
found_user-IsKeyed users name user keyed h = ground (arith, keyed name user)

found_user-if :
    (b : Bool) (user : User) (o : Option User)
    → found_user (if b then some user else o) ≡ (if b then ok user else found_user o)
found_user-if true user o = refl
found_user-if false user o = refl

-- The store in memory keeps the promise.
pub memory-IsUserStore : IsUserStore in_memory_user_store (λ name. name) (λ s. IsKeyed s.users)
unfolding memory_get_by_username memory_put
memory-IsUserStore = record {
  canon_idem = λ name. refl;
  put-Valid = λ s user keyed. insert-IsKeyed user s.users keyed;
  username-get = λ s name user keyed h. found_user-IsKeyed s.users name user keyed h;
  get-put = λ s user name keyed h.
      rw lookup-insert (found_user-if (user.username == name) user (lookup name s.users));
}

module _ {B : Type 0} (json : Codec (List UserJson) B) where
  users-file_put :
      (s : FileUserStore B) (user : User)
      → (file_put json s user).1.users ≡ insert user.username user s.users
  unfolding file_put persist_locked
  users-file_put s user = ground arith

  pub file-IsUserStore : IsUserStore (file_user_store json) (λ name. name) (λ s. IsKeyed s.users)
  unfolding file_get_by_username
  file-IsUserStore = record {
    canon_idem = λ name. refl;
    put-Valid = λ s user keyed.
        subst IsKeyed (sym (users-file_put s user)) (insert-IsKeyed user s.users keyed);
    username-get = λ s name user keyed h. found_user-IsKeyed s.users name user keyed h;
    get-put = λ s user name keyed h.
        rw (users-file_put, lookup-insert)
          (found_user-if (user.username == name) user (lookup name s.users));
  }

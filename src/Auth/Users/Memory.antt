-- ===== src/Auth/Users/Memory.antt =====
-- internal/auth/store.go: the store in memory.
use modern_mcs.Prelude.{String, List, Option, none, some, Result, ok, err}
use modern_mcs.Dict.{Dict, lookup, insert}
use modern_mcs.Auth.Types.{User, UserStore, Error, user_not_found, Outcome}

-- The map's answer, or `ErrUserNotFound`.
abbrev pub found_user : Option User → Result Error User
found_user none = err user_not_found
found_user (some u) = ok u

pub record InMemoryUserStore : Type 0 where
  pub users : Dict User

unfoldable pub new_in_memory_user_store : InMemoryUserStore
new_in_memory_user_store = record { users = List.[] }

unfoldable pub memory_get_by_username : InMemoryUserStore → String → Result Error User
memory_get_by_username s username = found_user (lookup username s.users)

unfoldable pub memory_put : InMemoryUserStore → User → Outcome InMemoryUserStore (Unit {0})
memory_put s user = (ok tt, record { users = insert user.username user s.users })

abbrev pub in_memory_user_store : UserStore InMemoryUserStore
in_memory_user_store = record { get_by_username = memory_get_by_username; put = memory_put }

-- ===== src/Auth/Users/Reload.antt =====
-- What a file store holds after its file was read back: the struct tag of `PasswordHash` keeps the
-- hashes out of the file.
use mathlib.Core.Option
use modern_mcs.Prelude.{
  String, ◌≡◌, refl, ap, sym, subst, ◌∙◌, ◌≢◌, List, [], ◌∷◌, map, Bool, true, false, Option, none,
  some, ok, Option-cases, Bool-cases, ◌⊎◌, inl, inr, arith, ◌==◌, eq_iff, eq_refl, ne→not-eq,
  if◌then◌else◌,
}
use modern_mcs.Text.{trim_space}
use modern_mcs.Dict.{Dict, lookup, insert, values}
use modern_mcs.Dict.Laws.{lookup-insert, HasDistinctKeys}
use modern_mcs.Disk.{Disk, bytes, Content-cases}
use modern_mcs.Codec.{Codec}
use modern_mcs.Auth.Types.{User, Outcome}
use modern_mcs.Auth.Users.Laws.{IsKeyed}
use modern_mcs.Auth.Users.File.{
  UserJson, marshal_user, unmarshal_user, FileUserStore, add_users, load, persist_locked,
  new_file_user_store,
}

-- No user has a password hash.
abbrev pub HasNoHashes : Dict User → Type 0
HasNoHashes users = (name : String) (u : User) → lookup name users ≡ some u → u.password_hash ≡ ""

take-HasNoHashes :
    (skip : Bool) (u : UserJson) (users : Dict User)
    → HasNoHashes users
    → HasNoHashes (if skip then users else insert u.username (unmarshal_user u) users)
unfolding unmarshal_user
take-HasNoHashes true u users h = h
take-HasNoHashes false u users h =
    λ name x found. ground (arith, lookup-insert u.username name (unmarshal_user u) users, h name x)

add_users-HasNoHashes :
    (us : List UserJson) (users : Dict User)
    → HasNoHashes users
    → HasNoHashes (add_users (map unmarshal_user us) users)
unfolding add_users unmarshal_user
add_users-HasNoHashes [] users h = h
add_users-HasNoHashes (u ∷ us) users h =
    add_users-HasNoHashes us _ (take-HasNoHashes (trim_space u.username == "") u users h)

-- A user as the file gives it back.
abbrev pub without_hash : User → User
without_hash u = record u { password_hash = "" }

or_nothing :
    (o : Option User)
    → elim o [ none ↦ none | some u ↦ some (without_hash u) ] ≡ Option.map without_hash o
or_nothing none = refl
or_nothing (some u) = refl

module _ {B : Type 0} (json : Codec (List UserJson) B) where
  -- `load` leaves the users, or adds those that it decoded.
  pub load_cases :
      (s : FileUserStore B)
      → ((load json s).1.users ≡ s.users)
        ⊎ ((decoded : List UserJson) × ((load json s).1.users
              ≡ add_users (map unmarshal_user decoded) s.users))
  unfolding load
  load_cases s = elim (Content-cases (s.disk.file s.path)) [
    | inl absent ↦ inl (rw (absent, load))
    | inr (inl broken) ↦ inl (rw (broken, load))
    | inr (inr (b, held)) ↦ elim (Bool-cases (json.is_empty b)) [
      | inl empty ↦ inl (rw (held, load) (rw empty))
      | inr full ↦ elim (Option-cases (json.decode b)) [
        | inl garbled ↦ inl (rw (held, load) (rw full (rw (garbled, load))))
        | inr (decoded, read) ↦ inr (decoded, rw (held, load) (rw full (rw (read, load))))
      ]
    ]
  ]

  load-HasNoHashes : (s : FileUserStore B) → HasNoHashes s.users → HasNoHashes (load json s).1.users
  load-HasNoHashes s h = elim (load_cases s) [
    | inl same ↦ rw same h
    | inr (decoded, added) ↦ rw added (add_users-HasNoHashes decoded s.users h)
  ]

  -- Whatever the file holds, no user of a store that was read from it has a password hash.
  pub new_file_user_store-HasNoHashes :
      (path : String) (disk : Disk B) (s : FileUserStore B)
      → new_file_user_store json path disk ≡ ok s
      → HasNoHashes s.users
  unfolding new_file_user_store lookup
  new_file_user_store-HasNoHashes path disk s h =
      let fresh : FileUserStore B = record { path = trim_space path; users = []; disk = disk } in
      let loaded = load-HasNoHashes fresh (λ name u found. cc) in
      let same : s ≡ (load json fresh).1 = ground arith in rw same loaded

  -- The loop of `load` over the written users of a map.
  lookup-add_users :
      (d users : Dict User) (name : String)
      → IsKeyed d
      → HasDistinctKeys d
      → trim_space name ≢ ""
      → lookup name (add_users (map unmarshal_user (map marshal_user (values d))) users)
        ≡ elim (lookup name d) [ none ↦ lookup name users | some u ↦ some (without_hash u) ]
  unfolding add_users values lookup marshal_user unmarshal_user
  lookup-add_users [] users name keyed distinct named = refl
  lookup-add_users ((k, u) ∷ d) users name keyed (fresh, distinct) named =
      let own : u.username ≡ k = keyed k u (rw eq_refl) in
      let tail : IsKeyed d = λ n x h. keyed n x (ground (arith, eq_iff k n)) in
      let next : Dict User =
        if trim_space u.username == "" then users else insert u.username (without_hash u) users in
      ground (
        arith,
        lookup-add_users d next name tail distinct named,
        lookup-insert u.username name (without_hash u) users,
        eq_iff k name,
        eq_iff u.username name,
        eq_iff (trim_space u.username) "",
      )

  -- What a write that succeeds leaves in the file.
  persist_locked_ok :
      (s : FileUserStore B)
      → (persist_locked json s).0 ≡ ok tt
      → (b : B) × (json.encode (map marshal_user (values s.users)) ≡ some b)
        × ((persist_locked json s).1.disk.file s.path ≡ bytes b)
  unfolding persist_locked
  persist_locked_ok s h = elim (Option-cases (json.encode (map marshal_user (values s.users)))) [
    | inl fails ↦ let bad : ⊥ = ground arith in absurd bad
    | inr (b, encoded) ↦ (b, encoded, ground (arith, eq_refl s.path))
  ]

  load_ok :
      (s : FileUserStore B) (b : B) (decoded : List UserJson)
      → s.disk.file s.path ≡ bytes b
      → json.is_empty b ≡ false
      → json.decode b ≡ some decoded
      → load json s ≡ (ok tt, record s { users = add_users (map unmarshal_user decoded) s.users })
  unfolding load
  load_ok s b decoded held full read = rw (held, load) (rw full (rw (read, load)))

  new_file_user_store_ok :
      (path : String) (disk : Disk B) (s : FileUserStore B)
      → trim_space path ≡ path
      → path ≢ ""
      → load json (record { path = path; users = []; disk = disk }) ≡ (ok tt, s)
      → new_file_user_store json path disk ≡ ok s
  unfolding new_file_user_store
  new_file_user_store_ok path disk s trimmed named loaded =
      let again : load json (record { path = trim_space path; users = []; disk = disk })
          ≡ (ok tt, s) =
        subst
          (λ (q : String). load json (record { path = q; users = []; disk = disk }) ≡ (ok tt, s))
          (sym trimmed) loaded in
      let used : (trim_space path == "") ≡ false = rw trimmed (ne→not-eq path "" named) in
      rw (used, new_file_user_store)
        (rw (again, new_file_user_store)
          (ap (λ (x : Outcome (FileUserStore B) (Unit {0})). ok x.1) again))

  -- Where the path is trimmed and not empty, and the users stand once each under their own names: after
  -- a write that succeeds, a new store on the file is built without an error, and finds under every
  -- name that is not blank the user that the first store has there, with an empty password hash.
  pub new_file_user_store-persist_locked :
      (s : FileUserStore B)
      → IsKeyed s.users
      → HasDistinctKeys s.users
      → trim_space s.path ≡ s.path
      → s.path ≢ ""
      → (persist_locked json s).0 ≡ ok tt
      → (s' : FileUserStore B) × (new_file_user_store json s.path (persist_locked json s).1.disk
          ≡ ok s')
        × ((name : String)
            → trim_space name ≢ ""
            → lookup name s'.users ≡ Option.map without_hash (lookup name s.users))
  unfolding lookup
  new_file_user_store-persist_locked s keyed distinct trimmed named h =
      let (b, encoded, held) = persist_locked_ok s h in
      let disk = (persist_locked json s).1.disk in
      let fresh : FileUserStore B = record { path = s.path; users = []; disk = disk } in
      let decoded = json.decode-encode _ b encoded in
      let full = json.encode-is_empty _ b encoded in
      let users = add_users (map unmarshal_user (map marshal_user (values s.users))) [] in
      (
        record fresh { users = users },
        new_file_user_store_ok s.path disk (record fresh { users = users }) trimmed named
            (load_ok fresh b _ held full decoded),
        λ name proper.
            lookup-add_users s.users [] name keyed distinct proper
            ∙ or_nothing (lookup name s.users),
      )

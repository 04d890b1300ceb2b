-- ===== src/Tests/Fixtures.antt =====
-- Data for the tests: bytes that are the value they encode, a checksum in place of SHA-256, and the
-- ASCII part of the Unicode tables.
use Prim.Native.Nat.{zero}
use Prim.Native.String.{[], ◌∷◌}
use modern_mcs.Prelude.{
  ℕ, suc, ◌+◌, ◌*◌, ◌/◌, ◌%◌, ◌<◌, code, String, ◌≡◌, refl, ap, sym, subst, Bool, true, false, ◌&&◌,
  arith, List, All, length, Option, none, some, ok, leb,
}
use mathlib.Core.Option
use modern_mcs.Prelude.{[] as nil, ◌∷◌ as cons}
use modern_mcs.Dict.{Dict, lookup, insert}
use modern_mcs.Dict.Laws.{HasDistinctKeys, lookup-insert, insert-HasDistinctKeys}
use modern_mcs.Disk.{missing, Disk}
use modern_mcs.Codec.{MapCodec, Codec}
use modern_mcs.Auth.Types.{Session, SessionStore}
use modern_mcs.Auth.Policy.{RuneTables}
use modern_mcs.Auth.Users.Memory.{InMemoryUserStore, in_memory_user_store}
use modern_mcs.Auth.Users.File.{UserJson, FileUserStore, file_user_store}
use modern_mcs.Auth.State.{Platform, Randomness}
use modern_mcs.Auth.Sessions.Laws.{IsSessionStore}
use modern_mcs.Postgres.{Clock, Jsonb}
use modern_mcs.SqlProfile.Types.{Profile}

pub data Bytes : Type 0 where
  session_bytes : Dict Session → Bytes
  user_bytes : List UserJson → Bytes
  profile_bytes : List Profile → Bytes
  applied_bytes : Dict String → Bytes
  role_bytes : List String → Bytes
  no_bytes : Bytes

abbrev pub no_bytes? : Bytes → Bool
no_bytes? no_bytes = true
no_bytes? _ = false

-- A map with every key once.
unfoldable pub dedupe {ℓ} : {V : Type ℓ} → Dict V → Dict V
dedupe nil = nil
dedupe (cons (k, v) d) = insert k v (dedupe d)

lookup-dedupe {ℓ} : {V : Type ℓ} (k : String) (d : Dict V) → lookup k (dedupe d) ≡ lookup k d
unfolding dedupe lookup
lookup-dedupe k nil = refl
lookup-dedupe k (cons (j, v) d) = rw lookup-insert (rw (lookup-dedupe k d) refl)

dedupe-HasDistinctKeys {ℓ} : {V : Type ℓ} (d : Dict V) → HasDistinctKeys (dedupe d)
unfolding dedupe
dedupe-HasDistinctKeys nil = tt
dedupe-HasDistinctKeys (cons (k, v) d) =
    insert-HasDistinctKeys k v (dedupe d) (dedupe-HasDistinctKeys d)

abbrev pub as_sessions : Bytes → Option (Dict Session)
as_sessions (session_bytes d) = some (dedupe d)
as_sessions _ = none

pub session_decode :
    (d : Dict Session) (b : Bytes)
    → some (session_bytes d) ≡ some b
    → (d' : Dict Session) × (as_sessions b ≡ some d') × ((k : String) → lookup k d' ≡ lookup k d)
session_decode d b e = (
  dedupe d,
  ap (λ o. elim o [ some x ↦ as_sessions x | none ↦ none ]) (sym e),
  λ k. lookup-dedupe k d,
)

pub session_keys : (b : Bytes) (d : Dict Session) → as_sessions b ≡ some d → HasDistinctKeys d
session_keys (session_bytes x) d e =
    subst HasDistinctKeys (ap (λ o. elim o [ some y ↦ y | none ↦ x ]) e) (dedupe-HasDistinctKeys x)
session_keys (user_bytes x) d e = let bad : ⊥ = ground (arith, e) in absurd bad
session_keys (profile_bytes x) d e = let bad : ⊥ = ground (arith, e) in absurd bad
session_keys (role_bytes x) d e = let bad : ⊥ = ground (arith, e) in absurd bad
session_keys (applied_bytes x) d e = let bad : ⊥ = ground (arith, e) in absurd bad
session_keys no_bytes d e = let bad : ⊥ = ground (arith, e) in absurd bad

abbrev pub session_codec : MapCodec Session Bytes
session_codec = record {
  encode = λ d. some (session_bytes d);
  decode = as_sessions;
  is_empty = no_bytes?;
  encode-is_empty = λ d b e. ap (λ o. elim o [ some x ↦ no_bytes? x | none ↦ false ]) (sym e);
  decode-encode = session_decode;
  decode-HasDistinctKeys = session_keys;
}

abbrev pub as_applied : Bytes → Option (Dict String)
as_applied (applied_bytes d) = some (dedupe d)
as_applied _ = none

pub applied_decode :
    (d : Dict String) (b : Bytes)
    → some (applied_bytes d) ≡ some b
    → (d' : Dict String) × (as_applied b ≡ some d') × ((k : String) → lookup k d' ≡ lookup k d)
applied_decode d b e = (
  dedupe d,
  ap (λ o. elim o [ some x ↦ as_applied x | none ↦ none ]) (sym e),
  λ k. lookup-dedupe k d,
)

pub applied_keys : (b : Bytes) (d : Dict String) → as_applied b ≡ some d → HasDistinctKeys d
applied_keys (applied_bytes x) d e =
    subst HasDistinctKeys (ap (λ o. elim o [ some y ↦ y | none ↦ x ]) e) (dedupe-HasDistinctKeys x)
applied_keys (user_bytes x) d e = let bad : ⊥ = ground (arith, e) in absurd bad
applied_keys (profile_bytes x) d e = let bad : ⊥ = ground (arith, e) in absurd bad
applied_keys (role_bytes x) d e = let bad : ⊥ = ground (arith, e) in absurd bad
applied_keys (session_bytes x) d e = let bad : ⊥ = ground (arith, e) in absurd bad
applied_keys no_bytes d e = let bad : ⊥ = ground (arith, e) in absurd bad

abbrev pub applied_codec : MapCodec String Bytes
applied_codec = record {
  encode = λ d. some (applied_bytes d);
  decode = as_applied;
  is_empty = no_bytes?;
  encode-is_empty = λ d b e. ap (λ o. elim o [ some x ↦ no_bytes? x | none ↦ false ]) (sym e);
  decode-encode = applied_decode;
  decode-HasDistinctKeys = applied_keys;
}

abbrev pub as_users : Bytes → Option (List UserJson)
as_users (user_bytes x) = some x
as_users _ = none

abbrev pub users_codec : Codec (List UserJson) Bytes
users_codec = record {
  encode = λ x. some (user_bytes x);
  decode = as_users;
  is_empty = no_bytes?;
  encode-is_empty = λ x b e. ap (λ o. elim o [ some y ↦ no_bytes? y | none ↦ false ]) (sym e);
  decode-encode = λ x b e. ap (λ o. elim o [ some y ↦ as_users y | none ↦ none ]) (sym e);
}

abbrev pub as_profiles : Bytes → Option (List Profile)
as_profiles (profile_bytes x) = some x
as_profiles _ = none

abbrev pub profiles_codec : Codec (List Profile) Bytes
profiles_codec = record {
  encode = λ x. some (profile_bytes x);
  decode = as_profiles;
  is_empty = no_bytes?;
  encode-is_empty = λ x b e. ap (λ o. elim o [ some y ↦ no_bytes? y | none ↦ false ]) (sym e);
  decode-encode = λ x b e. ap (λ o. elim o [ some y ↦ as_profiles y | none ↦ none ]) (sym e);
}

-- Every operation works, and no file is there.
abbrev pub empty_disk : Disk Bytes
empty_disk = record {
  file = λ path. missing;
  mkdir_fails = λ path. false;
  write_fault = λ path. none;
}

-- No write works.
abbrev pub full_disk : Disk Bytes
full_disk = record {
  file = λ path. missing;
  mkdir_fails = λ path. false;
  write_fault = λ path. some missing;
}

unfoldable pub repeat : ℕ → ℕ → List ℕ
repeat zero x = nil
repeat (suc n) x = cons x (repeat n x)

length-repeat : (n x : ℕ) → length (repeat n x) ≡ n
unfolding repeat
length-repeat zero x = refl
length-repeat (suc n) x = omega (arith, length-repeat n x)

pub repeat-All : (n x : ℕ) → x < 256 → All (λ b. b < 256) (repeat n x)
unfolding repeat
repeat-All zero x h = tt
repeat-All (suc n) x h = (h, repeat-All n x h)

unfoldable pub weight : String → ℕ
weight [] = 7
weight (c ∷ s) = (weight s * 31 + code c) % 256

weight-byte : (s : String) → weight s < 256
unfolding weight
weight-byte [] = omega arith
weight-byte (c ∷ s) = omega arith

unfoldable pub checksum : String → List ℕ
unfolding weight repeat
checksum s = repeat 32 (weight s)

pub checksum_length : (s : String) → length (checksum s) ≡ 32
unfolding checksum
checksum_length s = length-repeat 32 (weight s)

pub checksum_bytes : (s : String) → All (λ b. b < 256) (checksum s)
unfolding checksum
checksum_bytes s = repeat-All 32 (weight s) (weight-byte s)

abbrev in_class : ℕ → ℕ → ℕ → Bool
in_class first last r = leb first r && leb r last

abbrev pub ascii_tables : RuneTables
ascii_tables = record {
  is_upper = in_class 65 90;
  is_lower = in_class 97 122;
  is_digit = in_class 48 57;
  is_punct = in_class 33 42;
  is_symbol = in_class 43 43;
  upper_only = λ r h. ground arith;
  lower_only = λ r h. ground arith;
  digit_only = λ r h. ground arith;
}

abbrev pub as_roles : Bytes → Option (List String)
as_roles (role_bytes x) = some x
as_roles _ = none

-- A column that keeps the text as it is.
abbrev pub roles_column : Jsonb (List String) Bytes
roles_column = record {
  json = record {
    encode = λ x. some (role_bytes x);
    decode = as_roles;
    is_empty = no_bytes?;
    encode-is_empty = λ x b e. ap (λ o. elim o [ some y ↦ no_bytes? y | none ↦ false ]) (sym e);
    decode-encode = λ x b e. ap (λ o. elim o [ some y ↦ as_roles y | none ↦ none ]) (sym e);
  };
  kept = λ b. b;
  is_empty-kept = λ x b e. ap (λ o. elim o [ some y ↦ no_bytes? y | none ↦ false ]) (sym e);
  decode-kept = λ x b e. ap (λ o. elim o [ some y ↦ as_roles y | none ↦ none ]) (sym e);
}

-- A column that drops what is below a microsecond.
abbrev pub micros : Clock
micros = record {
  stored = λ t. t / 1000 * 1000;
  stored-stored = λ t. omega arith;
  stored_below = λ t. omega arith;
  stored_above = λ t. omega arith;
}

-- A session store in memory.
abbrev pub memory_sessions : SessionStore (Dict Session)
memory_sessions = record { load = λ d. ok d; save = λ before d. (ok tt, d) }

keep_all : (o : Option Session) → o ≡ Option.map (λ (sess : Session). sess) o
keep_all none = refl
keep_all (some sess) = refl

pub memory_sessions-IsSessionStore :
    IsSessionStore memory_sessions (λ token sess. sess) (λ store. Unit)
memory_sessions-IsSessionStore = record {
  load-save = λ store d r h. (d, refl, λ t. keep_all (lookup t d));
}

abbrev pub platform : Platform InMemoryUserStore (Dict Session) Bytes
platform = record {
  users = in_memory_user_store;
  session_store = memory_sessions;
  json = session_codec;
  sum256 = checksum;
  sum256_length = checksum_length;
  sum256_bytes = checksum_bytes;
  tables = ascii_tables;
}

abbrev pub file_platform : Platform (FileUserStore Bytes) (Dict Session) Bytes
file_platform = record {
  users = file_user_store users_codec;
  session_store = memory_sessions;
  json = session_codec;
  sum256 = checksum;
  sum256_length = checksum_length;
  sum256_bytes = checksum_bytes;
  tables = ascii_tables;
}

-- A random source that gives one byte again and again.
abbrev pub steady : ℕ → Randomness
steady x = record { for_token = some (repeat 32 x); for_id = some (repeat 16 x); unix_nano = 5 }

-- ===== src/Postgres.antt =====
-- What the stores rely on of a PostgreSQL server, which they reach through `database/sql`. A table is
-- a map from its key to the rest of the row; which statements fail is a part of a store's state.
use modern_mcs.Prelude.{
  ℕ, ◌+◌, ◌<◌, String, ◌≡◌, refl, ◌⊎◌, inl, inr, Bool, false, ◌||◌, List, [], ◌∷◌, Option, some,
  ◌==◌, if◌then◌else◌,
}
use modern_mcs.Dict.{Dict}
use modern_mcs.Codec.{Codec}

-- What a client learns of a command that changes the table: it was applied, it failed and changed
-- nothing, or it was applied but the client gets an error, as where the connection is lost.
pub data Reply : Type 0 where
  applied refused lost : Reply

pub Reply-cases : (r : Reply) → (r ≡ applied) ⊎ (r ≡ refused) ⊎ (r ≡ lost)
Reply-cases applied = inl refl
Reply-cases refused = inr (inl refl)
Reply-cases lost = inr (inr refl)

-- What a column of the type `TIMESTAMPTZ` keeps of an instant: it counts in microseconds.
pub record Clock : Type 0 where
  pub stored : ℕ → ℕ
  pub stored-stored : (t : ℕ) → stored (stored t) ≡ stored t
  pub stored_below : (t : ℕ) → stored t < t + 1000
  pub stored_above : (t : ℕ) → t < stored t + 1000

-- A column of the type `JSONB`, which keeps the value of a text and not the text.
pub record Jsonb (A B : Type 0) : Type 0 where
  pub json : Codec A B
  pub kept : B → B
  pub is_empty-kept : (a : A) (b : B) → json.encode a ≡ some b → json.is_empty (kept b) ≡ false
  pub decode-kept : (a : A) (b : B) → json.encode a ≡ some b → json.decode (kept b) ≡ some a

module _ {A B : Type 0} (column : Jsonb (List A) B) where
  -- `if len(b) > 0 { json.Unmarshal(b, &list) }` into an empty list
  unfoldable pub decode_list : B → Option (List A)
  decode_list b = if column.json.is_empty b then some [] else column.json.decode b

  pub decode_list-kept :
      (a : List A) (b : B) → column.json.encode a ≡ some b → decode_list (column.kept b) ≡ some a
  unfolding decode_list
  decode_list-kept a b h = rw (column.is_empty-kept a b h, decode_list) (column.decode-kept a b h)

-- Whether a value of a column stands in a row of another key, where the column is `UNIQUE`.
unfoldable pub is_taken : {V : Type 0} → (V → String) → String → String → Dict V → Bool
is_taken column key x [] = false
is_taken column key x ((k, row) ∷ rows) =
    let rest = is_taken column key x rows in if k == key then rest else column row == x || rest

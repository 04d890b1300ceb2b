-- ===== src/Codec.antt =====
-- What the services use of `encoding/json`: the text of a value and the value of a text. The
-- format of the text is left open. A Go map comes back with the same keys and values.
use modern_mcs.Prelude.{String, ◌≡◌, Bool, false, Option, some}
use modern_mcs.Dict.{Dict, lookup}
use modern_mcs.Dict.Laws.{HasDistinctKeys}

-- `json.MarshalIndent` and `json.Unmarshal` at a map type. `encode` gives `none` where marshalling
-- fails (a time after the year 9999).
pub record MapCodec (V B : Type 0) : Type 0 where
  pub encode : Dict V → Option B
  pub decode : B → Option (Dict V)
  pub is_empty : B → Bool
  pub encode-is_empty : (d : Dict V) (b : B) → encode d ≡ some b → is_empty b ≡ false
  pub decode-encode :
      (d : Dict V) (b : B)
      → encode d ≡ some b
      → (d' : Dict V) × (decode b ≡ some d') × ((k : String) → lookup k d' ≡ lookup k d)
  pub decode-HasDistinctKeys : (b : B) (d : Dict V) → decode b ≡ some d → HasDistinctKeys d

-- The same at a slice type.
pub record Codec (A B : Type 0) : Type 0 where
  pub encode : A → Option B
  pub decode : B → Option A
  pub is_empty : B → Bool
  pub encode-is_empty : (a : A) (b : B) → encode a ≡ some b → is_empty b ≡ false
  pub decode-encode : (a : A) (b : B) → encode a ≡ some b → decode b ≡ some a

-- ===== src/Dict.antt =====
-- Go's maps with string keys, as association lists; the order of a list stands for the order in
-- which `range` visits the map, which Go leaves open.
pub mod Laws
use modern_mcs.Prelude.{
  String, Bool, true, false, Option, none, some, List, [], ◌∷◌, ◌==◌, if◌then◌else◌,
}

abbrev pub Dict {ℓ} : Type ℓ → Type ℓ
Dict V = List (String × V)

module _ {ℓ} {V : Type ℓ} where
  -- `v, ok := d[k]`
  unfoldable pub lookup : String → Dict V → Option V
  lookup k [] = none
  lookup k ((j, v) ∷ d) = if j == k then some v else lookup k d

  -- `d[k] = v`
  unfoldable pub insert : String → V → Dict V → Dict V
  insert k v [] = (k, v) ∷ []
  insert k v ((j, w) ∷ d) = if j == k then (k, v) ∷ d else (j, w) ∷ insert k v d

  -- `delete(d, k)`
  unfoldable pub erase : String → Dict V → Dict V
  erase k [] = []
  erase k ((j, v) ∷ d) = let rest = erase k d in if j == k then rest else (j, v) ∷ rest

  -- The values, in the order of a `range` loop.
  unfoldable pub values : Dict V → List V
  values [] = []
  values ((k, v) ∷ d) = v ∷ values d

  -- A `range` loop that deletes the entries whose value fails a test.
  unfoldable pub keep : (V → Bool) → Dict V → Dict V
  keep p [] = []
  keep p ((k, v) ∷ d) = let rest = keep p d in if p v then (k, v) ∷ rest else rest

  -- A `range` loop that stops at the first entry whose value passes a test, and gives its key.
  unfoldable pub find_key : (V → Bool) → Dict V → Option String
  find_key p [] = none
  find_key p ((k, v) ∷ d) = if p v then some k else find_key p d

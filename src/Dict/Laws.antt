-- ===== src/Dict/Laws.antt =====
-- Laws of the maps: lookups after writes, distinct keys, and properties of all entries.
use mathlib.Core.List.{Memᴰ}
use modern_mcs.Prelude.{
  String, ◌≡◌, refl, ap, sym, Bool, true, false, Option, none, some, [], ◌∷◌, arith, ◌==◌, eq_iff,
  eq_refl, inl, inr, Bool-cases, if◌then◌else◌,
}
use modern_mcs.Dict.{Dict, lookup, insert, erase, values, keep, find_key}

-- Whether a looked-up value is there and passes a test.
abbrev pub filter_option {ℓ} : {V : Type ℓ} → (V → Bool) → Option V → Option V
filter_option p none = none
filter_option p (some v) = if p v then some v else none

module _ {ℓ} {V : Type ℓ} where
  abbrev pub HasDistinctKeys : Dict V → Type ℓ
  HasDistinctKeys [] = Unit
  HasDistinctKeys ((k, v) ∷ d) = (lookup k d ≡ none) × HasDistinctKeys d

  pub lookup-insert :
      (k j : String) (v : V) (d : Dict V)
      → lookup j (insert k v d) ≡ (if k == j then some v else lookup j d)
  unfolding lookup insert
  lookup-insert k j v [] = refl
  lookup-insert k j v ((i, w) ∷ d) =
      ground (arith, eq_iff k j, eq_iff i k, eq_iff i j, lookup-insert k j v d)

  pub lookup-erase :
      (k j : String) (d : Dict V) → lookup j (erase k d) ≡ (if k == j then none else lookup j d)
  unfolding lookup erase
  lookup-erase k j [] = ground arith
  lookup-erase k j ((i, w) ∷ d) =
      ground (arith, eq_iff k j, eq_iff i k, eq_iff i j, lookup-erase k j d)

  pub insert-HasDistinctKeys :
      (k : String) (v : V) (d : Dict V) → HasDistinctKeys d → HasDistinctKeys (insert k v d)
  unfolding insert lookup
  insert-HasDistinctKeys k v [] h = (refl, tt)
  insert-HasDistinctKeys k v ((i, w) ∷ d) (fresh, h) = elim (Bool-cases (i == k)) [
    | inl e ↦ rw e (rw ((eq_iff i k).0 e) at fresh, h)
    | inr e ↦ rw e (
      ground (arith, lookup-insert k i v d, eq_iff k i, eq_iff i k),
      insert-HasDistinctKeys k v d h,
    )
  ]

  pub erase-HasDistinctKeys :
      (k : String) (d : Dict V) → HasDistinctKeys d → HasDistinctKeys (erase k d)
  unfolding erase
  erase-HasDistinctKeys k [] h = tt
  erase-HasDistinctKeys k ((i, w) ∷ d) (fresh, h) = elim (Bool-cases (i == k)) [
    | inl e ↦ rw e (erase-HasDistinctKeys k d h)
    | inr e ↦ rw e (ground (arith, lookup-erase k i d), erase-HasDistinctKeys k d h)
  ]

  lookup-keep-none :
      (p : V → Bool) (k : String) (d : Dict V) → lookup k d ≡ none → lookup k (keep p d) ≡ none
  unfolding keep lookup
  lookup-keep-none p k [] h = refl
  lookup-keep-none p k ((i, w) ∷ d) h = ground (arith, lookup-keep-none p k d)

  pub lookup-keep :
      (p : V → Bool) (k : String) (d : Dict V)
      → HasDistinctKeys d
      → lookup k (keep p d) ≡ filter_option p (lookup k d)
  unfolding keep lookup
  lookup-keep p k [] h = refl
  lookup-keep p k ((i, w) ∷ d) (fresh, h) =
      ground (arith, lookup-keep p k d h, lookup-keep-none p i d fresh, eq_iff i k)

  pub keep-HasDistinctKeys :
      (p : V → Bool) (d : Dict V) → HasDistinctKeys d → HasDistinctKeys (keep p d)
  unfolding keep
  keep-HasDistinctKeys p [] h = tt
  keep-HasDistinctKeys p ((i, w) ∷ d) (fresh, h) = elim (Bool-cases (p w)) [
    | inl e ↦ rw e (lookup-keep-none p i d fresh, keep-HasDistinctKeys p d h)
    | inr e ↦ rw e (keep-HasDistinctKeys p d h)
  ]

  -- What a key has is among the values.
  pub mem-values : (k : String) (v : V) (d : Dict V) → lookup k d ≡ some v → Memᴰ v (values d)
  unfolding lookup values
  mem-values k v [] h = cc
  mem-values k v ((i, w) ∷ d) h = elim (Bool-cases (i == k)) [
    | inl e ↦ Memᴰ.head (ground arith)
    | inr e ↦ Memᴰ.tail (mem-values k v d (rw e at h))
  ]

  -- What is among the values is what some key has.
  pub lookup_of_mem :
      (v : V) (d : Dict V)
      → HasDistinctKeys d
      → Memᴰ v (values d)
      → (k : String) × (lookup k d ≡ some v)
  unfolding lookup values
  lookup_of_mem v [] h m = elim m [ ]
  lookup_of_mem v ((i, w) ∷ d) (fresh, h) (Memᴰ.head e) = (i, rw eq_refl (ap some (sym e)))
  lookup_of_mem v ((i, w) ∷ d) (fresh, h) (Memᴰ.tail m) =
      let (k, found) = lookup_of_mem v d h m in (k, ground (arith, eq_iff i k, found))

  pub find_key_sound :
      (p : V → Bool) (d : Dict V) (k : String)
      → HasDistinctKeys d
      → find_key p d ≡ some k
      → (v : V) × (lookup k d ≡ some v) × (p v ≡ true)
  unfolding lookup find_key
  find_key_sound p [] k h e = cc
  find_key_sound p ((i, w) ∷ d) k (fresh, h) e = elim (Bool-cases (p w)) [
    | inl found ↦ (w, ground (arith, eq_iff i k), found)
    | inr other ↦
        let (v, there, passes) = find_key_sound p d k h (rw other at e) in
        (v, ground (arith, eq_iff i k), passes)
  ]

  pub find_key-none :
      (p : V → Bool) (d : Dict V) (k : String) (v : V)
      → find_key p d ≡ none
      → lookup k d ≡ some v
      → p v ≡ false
  unfolding lookup find_key
  find_key-none p [] k v h e = cc
  find_key-none p ((i, w) ∷ d) k v h e = ground (arith, find_key-none p d k v)

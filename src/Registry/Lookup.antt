-- ===== src/Registry/Lookup.antt =====
-- A Go map with string keys, as a list of its entries.
use Prim.Native.String.{String}
use text.Mathlib.Text.{◌==◌}
use text.Mathlib.TextEquality.{eq_iff}
use mse.Common.{◌≡◌, arith, List, [], ◌∷◌, Option, none, some, if◌then◌else◌}

module _ {ℓ} {Value : Type ℓ} where
  -- `delete(entries, key)`
  unfoldable pub erase : String → List (String × Value) → List (String × Value)
  erase key [] = []
  erase key (entry ∷ entries) =
      let others = erase key entries in if entry.0 == key then others else entry ∷ others

  unfoldable pub lookup : String → List (String × Value) → Option Value
  lookup key [] = none
  lookup key (entry ∷ entries) =
      let later = lookup key entries in if entry.0 == key then some entry.1 else later

  unfoldable pub insert : String → Value → List (String × Value) → List (String × Value)
  insert key value [] = (key, value) ∷ []
  insert key value (entry ∷ entries) =
      let others = entry ∷ insert key value entries in
      if entry.0 == key then (key, value) ∷ entries else others

  pub lookup-erase :
      (gone key : String) (entries : List (String × Value))
      → lookup key (erase gone entries) ≡ (if gone == key then none else lookup key entries)
  unfolding erase lookup
  lookup-erase gone key [] = ground arith
  lookup-erase gone key ((name, value) ∷ entries) =
      ground
        (arith, lookup-erase gone key entries, eq_iff name gone, eq_iff name key, eq_iff gone key)

  pub lookup-insert :
      (new key : String) (value : Value) (entries : List (String × Value))
      → lookup key (insert new value entries)
        ≡ (if new == key then some value else lookup key entries)
  unfolding insert lookup
  lookup-insert new key value [] = ground arith
  lookup-insert new key value ((name, old) ∷ entries) =
      ground (
        arith,
        lookup-insert new key value entries,
        eq_iff name new,
        eq_iff name key,
        eq_iff new key,
      )

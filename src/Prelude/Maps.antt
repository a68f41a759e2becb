-- ===== src/Prelude/Maps.antt =====
-- A `Map` with numbers for keys: an association list in the order of insertion. `insert` keeps the
-- place of a key that is there, and `remove_key` takes out every entry of its key.
use Prim.Native.Nat.{ℕ, suc, ◌+◌, ◌<◌}
use mathlib.Core.Path.{◌≡◌, refl}
use mathlib.Core.List.{List, [], ◌∷◌}
use mathlib.Core.Option.{Option, none, some}
use native.Mathlib.Omega.{arith}
use extra.Prelude.Tests.{if◌then◌else◌, ◌==◌}

module _ {ℓ} {A : Type ℓ} where
  unfoldable pub lookup : ℕ → List (ℕ × A) → Option A
  lookup k [] = none
  lookup k ((j, v) ∷ m) = if j == k then some v else lookup k m

  unfoldable pub insert : ℕ → A → List (ℕ × A) → List (ℕ × A)
  insert k v [] = (k, v) ∷ []
  insert k v ((j, w) ∷ m) = if j == k then (k, v) ∷ m else (j, w) ∷ insert k v m

  unfoldable pub remove_key : ℕ → List (ℕ × A) → List (ℕ × A)
  remove_key k [] = []
  remove_key k ((j, v) ∷ m) = let rest = remove_key k m in if j == k then rest else (j, v) ∷ rest

  pub lookup-insert :
      (j k : ℕ) (v : A) (m : List (ℕ × A))
      → lookup j (insert k v m) ≡ (if k == j then some v else lookup j m)
  unfolding lookup insert
  lookup-insert j k v [] = refl
  lookup-insert j k v ((i, w) ∷ m) = ground (arith, lookup-insert j k v m)

  pub lookup-remove_key :
      (j k : ℕ) (m : List (ℕ × A))
      → lookup j (remove_key k m) ≡ (if k == j then none else lookup j m)
  unfolding lookup remove_key
  lookup-remove_key j k [] = ground arith
  lookup-remove_key j k ((i, w) ∷ m) = ground (arith, lookup-remove_key j k m)

  -- No key stands twice.
  abbrev pub HasDistinctKeys : List (ℕ × A) → Type ℓ
  HasDistinctKeys [] = Unit
  HasDistinctKeys ((k, v) ∷ m) = (lookup k m ≡ none) × HasDistinctKeys m

  pub insert-HasDistinctKeys :
      (k : ℕ) (v : A) (m : List (ℕ × A)) → HasDistinctKeys m → HasDistinctKeys (insert k v m)
  unfolding insert lookup
  insert-HasDistinctKeys k v [] d = (refl, tt)
  insert-HasDistinctKeys k v ((j, w) ∷ m) d =
      ground (arith, d, lookup-insert j k v m, insert-HasDistinctKeys k v m)

  pub remove_key-HasDistinctKeys :
      (k : ℕ) (m : List (ℕ × A)) → HasDistinctKeys m → HasDistinctKeys (remove_key k m)
  unfolding remove_key
  remove_key-HasDistinctKeys k [] d = tt
  remove_key-HasDistinctKeys k ((j, w) ∷ m) d =
      ground (arith, d, lookup-remove_key j k m, remove_key-HasDistinctKeys k m)

-- How often a number stands in a list, and the list without its first such place.
unfoldable pub occurrences : ℕ → List ℕ → ℕ
occurrences k [] = 0
occurrences k (x ∷ xs) = if x == k then suc (occurrences k xs) else occurrences k xs

unfoldable pub remove_first : ℕ → List ℕ → List ℕ
remove_first k [] = []
remove_first k (x ∷ xs) = if x == k then xs else x ∷ remove_first k xs

pub occurrences-remove_first :
    (j k : ℕ) (xs : List ℕ)
    → 0 < occurrences k xs
    → occurrences j xs ≡ (if k == j then 1 else 0) + occurrences j (remove_first k xs)
unfolding occurrences remove_first
occurrences-remove_first j k [] h = ground arith
occurrences-remove_first j k (x ∷ xs) h = ground (arith, occurrences-remove_first j k xs)

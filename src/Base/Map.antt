-- ===== src/Base/Map.antt =====
-- `std::map` with numbers for keys: an association list in the order of the keys, which is the
-- order in which the source iterates.
use Prim.Native.Nat.{ℕ, ◌+◌, ◌≤◌}
use mathlib.Core.Path.{◌≡◌, refl}
use mathlib.Core.Bool.{Bool, true, false}
use mathlib.Core.List.{List, [], ◌∷◌}
use mathlib.Core.Logic.{◌⊎◌, ◌≢◌}
use mathlib.Core.Option.{Option, none, some}
use native.Mathlib.Omega.{arith}
use rappel.Base.Tests.{ltb, ◌==◌, if◌then◌else◌}
use rappel.Base.Lists.{length}

abbrev pub Map {ℓ} : Type ℓ → Type ℓ
Map V = List (ℕ × V)

module _ {ℓ} {V : Type ℓ} where
  unfoldable pub lookup : ℕ → Map V → Option V
  lookup k [] = none
  lookup k ((j, v) ∷ m) = if j == k then some v else lookup k m

  -- `m[k] = v`.
  unfoldable pub insert : ℕ → V → Map V → Map V
  insert key new [] = (key, new) ∷ []
  insert key new ((at, old) ∷ more) =
      if at == key
      then (key, new) ∷ more
      else (if ltb key at then (key, new) ∷ (at, old) ∷ more else (at, old) ∷ insert key new more)

  -- `m.erase(k)`.
  unfoldable pub erase : ℕ → Map V → Map V
  erase k [] = []
  erase k ((j, v) ∷ m) = let rest = erase k m in if j == k then rest else (j, v) ∷ rest

  -- `m.find(k) != m.end()`.
  unfoldable pub has : ℕ → Map V → Bool
  has k m = elim (lookup k m) [ none ↦ false | some _ ↦ true ]

  pub lookup-insert :
      (k j : ℕ) (v : V) (m : Map V)
      → lookup j (insert k v m) ≡ (if k == j then some v else lookup j m)
  unfolding lookup insert
  lookup-insert key j new [] = refl
  lookup-insert key j new ((at, old) ∷ more) = ground (arith, lookup-insert key j new more)

  pub lookup-erase :
      (k j : ℕ) (m : Map V) → lookup j (erase k m) ≡ (if k == j then none else lookup j m)
  unfolding lookup erase
  lookup-erase k j [] = ground arith
  lookup-erase k j ((i, w) ∷ m) = ground (arith, lookup-erase k j m)

  pub has-insert :
      (k j : ℕ) (v : V) (m : Map V) → has j (insert k v m) ≡ (if k == j then true else has j m)
  unfolding has
  has-insert k j v m = ground (arith, lookup-insert k j v m)

  pub has-erase : (k j : ℕ) (m : Map V) → has j (erase k m) ≡ (if k == j then false else has j m)
  unfolding has
  has-erase k j m = ground (arith, lookup-erase k j m)

  pub has_of_lookup : (k : ℕ) (m : Map V) {v : V} → lookup k m ≡ some v → has k m ≡ true
  unfolding has
  has_of_lookup k m h = ground arith

  pub lookup_of_has : (k : ℕ) (m : Map V) → has k m ≡ true → (v : V) × (lookup k m ≡ some v)
  unfolding has
  lookup_of_has k m h = ground arith

  pub lookup_of_not_has : (k : ℕ) (m : Map V) → has k m ≡ false → lookup k m ≡ none
  unfolding has
  lookup_of_not_has k m h = ground arith

  pub length-insert-le : (k : ℕ) (v : V) (m : Map V) → length (insert k v m) ≤ length m + 1
  unfolding insert
  length-insert-le k v [] = omega arith
  length-insert-le k v ((j, w) ∷ m) = ground (arith, length-insert-le k v m)

  pub length-erase-le : (k : ℕ) (m : Map V) → length (erase k m) ≤ length m
  unfolding erase
  length-erase-le k [] = omega arith
  length-erase-le k ((j, v) ∷ m) = ground (arith, length-erase-le k m)

module _ {V : Type 0} where
  pub lookup-insert_cases :
      (k j : ℕ) (v : V) (m : Map V) {w : V}
      → lookup j (insert k v m) ≡ some w
      → ((j ≡ k) × (w ≡ v)) ⊎ ((j ≢ k) × (lookup j m ≡ some w))
  lookup-insert_cases k j v m h = ground (arith, lookup-insert k j v m)

  pub lookup-erase_old :
      (k j : ℕ) (m : Map V) {w : V} → lookup j (erase k m) ≡ some w → lookup j m ≡ some w
  lookup-erase_old k j m h = ground (arith, lookup-erase k j m)

module _ {ℓ} {V : Type ℓ} where
  pub erase_absent : (k : ℕ) (m : Map V) → lookup k m ≡ none → erase k m ≡ m
  unfolding lookup erase
  erase_absent k [] h = refl
  erase_absent k ((j, v) ∷ m) h = ground (arith, erase_absent k m)

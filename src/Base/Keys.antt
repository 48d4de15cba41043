-- ===== src/Base/Keys.antt =====
-- The keys of an ordered map: in order, each once. What `insert` and `erase` do to the number of
-- entries.
use Prim.Native.Nat.{ℕ, ◌+◌, ◌<◌}
use mathlib.Core.Path.{◌≡◌, refl}
use mathlib.Core.List.{[], ◌∷◌}
use mathlib.Core.Option.{none, some}
use native.Mathlib.Omega.{arith}
use rappel.Base.Lists.{length}
use rappel.Base.Map.{Map, lookup, insert, erase}

module _ {ℓ} {V : Type ℓ} where
  -- Every key is above `k`.
  abbrev pub Above : ℕ → Map V → Type 0
  Above k [] = Unit
  Above k ((j, v) ∷ m) = (k < j) × Above k m

  abbrev pub Sorted : Map V → Type 0
  Sorted [] = Unit
  Sorted ((j, v) ∷ m) = Above j m × Sorted m

  pub Above-lt : (i k : ℕ) (m : Map V) → i < k → Above k m → Above i m
  Above-lt i k [] h a = tt
  Above-lt i k ((j, v) ∷ m) h a = (omega arith, Above-lt i k m h a.1)

  pub lookup-Above : (k : ℕ) (m : Map V) → Above k m → lookup k m ≡ none
  unfolding lookup
  lookup-Above k [] a = refl
  lookup-Above k ((j, v) ∷ m) a = ground (arith, lookup-Above k m a.1)

  Above-insert : (i k : ℕ) (v : V) (m : Map V) → i < k → Above i m → Above i (insert k v m)
  unfolding insert
  Above-insert i k v [] h a = (h, tt)
  Above-insert i k v ((j, w) ∷ m) h a = ground (arith, Above-insert i k v m)

  pub insert-Sorted : (k : ℕ) (v : V) (m : Map V) → Sorted m → Sorted (insert k v m)
  unfolding insert
  insert-Sorted k v [] s = (tt, tt)
  insert-Sorted k v ((j, w) ∷ m) s =
      ground (arith, insert-Sorted k v m, Above-insert j k v m, Above-lt k j m)

  Above-erase : (i k : ℕ) (m : Map V) → Above i m → Above i (erase k m)
  unfolding erase
  Above-erase i k [] a = tt
  Above-erase i k ((j, v) ∷ m) a = ground (arith, Above-erase i k m a.1)

  pub erase-Sorted : (k : ℕ) (m : Map V) → Sorted m → Sorted (erase k m)
  unfolding erase
  erase-Sorted k [] s = tt
  erase-Sorted k ((j, v) ∷ m) s = ground (arith, erase-Sorted k m s.1, Above-erase j k m s.0)

  pub length-insert_new :
      (k : ℕ) (v : V) (m : Map V) → lookup k m ≡ none → length (insert k v m) ≡ length m + 1
  unfolding insert lookup
  length-insert_new k v [] h = omega arith
  length-insert_new k v ((j, w) ∷ m) h = ground (arith, length-insert_new k v m)

  -- An old entry of a sorted map is replaced.
  pub length-insert_old :
      (k : ℕ) (v w : V) (m : Map V)
      → Sorted m
      → lookup k m ≡ some w
      → length (insert k v m) ≡ length m
  unfolding insert lookup
  length-insert_old k v w [] s h = cc
  length-insert_old k v w ((j, u) ∷ m) s h =
      ground (arith, length-insert_old k v w m s.1, lookup-Above k m, Above-lt k j m)

  pub erase-Above : (k : ℕ) (m : Map V) → Above k m → erase k m ≡ m
  unfolding erase
  erase-Above k [] a = refl
  erase-Above k ((j, v) ∷ m) a = ground (arith, erase-Above k m a.1)

  pub length-erase :
      (k : ℕ) (w : V) (m : Map V)
      → Sorted m
      → lookup k m ≡ some w
      → length (erase k m) + 1 ≡ length m
  unfolding erase lookup
  length-erase k w [] s h = cc
  length-erase k w ((j, u) ∷ m) s h = ground (arith, length-erase k w m s.1, erase-Above k m)

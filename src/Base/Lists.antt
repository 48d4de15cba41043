-- ===== src/Base/Lists.antt =====
-- Lists measured and indexed by native numbers, membership tests, and predicates over a list.
use Prim.Native.Nat.{ℕ, zero, suc, ◌+◌, ◌<◌}
use mathlib.Core.Path.{◌≡◌, refl, ap}
use mathlib.Core.Logic.{◌≢◌}
use mathlib.Core.Bool.{Bool, true, false, ◌||◌}
use mathlib.Core.List.{List, [], ◌∷◌, ◌++◌}
use mathlib.Core.Option.{Option, none, some}
use native.Mathlib.Omega.{arith}
use rappel.Base.Tests.{◌==◌, if◌then◌else◌}

module _ {ℓ} {A : Type ℓ} where
  abbrev pub length : List A → ℕ
  length [] = 0
  length (x ∷ xs) = suc (length xs)

  abbrev pub get_elem? : List A → ℕ → Option A
  get_elem? [] i = none
  get_elem? (x ∷ xs) zero = some x
  get_elem? (x ∷ xs) (suc i) = get_elem? xs i

  abbrev pub set : List A → ℕ → A → List A
  set [] i v = []
  set (x ∷ xs) zero v = v ∷ xs
  set (x ∷ xs) (suc i) v = x ∷ set xs i v

  abbrev pub replicate : ℕ → A → List A
  replicate zero a = []
  replicate (suc n) a = a ∷ replicate n a

  abbrev pub All {κ} : (A → Type κ) → List A → Type κ
  All P [] = Unit
  All P (x ∷ xs) = P x × All P xs

  pub length-append : (xs ys : List A) → length (xs ++ ys) ≡ length xs + length ys
  length-append [] ys = omega arith
  length-append (x ∷ xs) ys = omega (arith, length-append xs ys)

  pub length-set : (xs : List A) (i : ℕ) (v : A) → length (set xs i v) ≡ length xs
  length-set [] i v = refl
  length-set (x ∷ xs) zero v = refl
  length-set (x ∷ xs) (suc i) v = ap suc (length-set xs i v)

  pub get_elem?-set_self :
      (xs : List A) (i : ℕ) (v : A) → i < length xs → get_elem? (set xs i v) i ≡ some v
  get_elem?-set_self [] i v h = elim h [ ]
  get_elem?-set_self (x ∷ xs) zero v h = refl
  get_elem?-set_self (x ∷ xs) (suc i) v h = get_elem?-set_self xs i v (omega arith)

  pub get_elem?-set_ne :
      (xs : List A) (i j : ℕ) (v : A) → i ≢ j → get_elem? (set xs i v) j ≡ get_elem? xs j
  get_elem?-set_ne [] i j v h = refl
  get_elem?-set_ne (x ∷ xs) zero zero v h = absurd (h refl)
  get_elem?-set_ne (x ∷ xs) zero (suc j) v h = refl
  get_elem?-set_ne (x ∷ xs) (suc i) zero v h = refl
  get_elem?-set_ne (x ∷ xs) (suc i) (suc j) v h = get_elem?-set_ne xs i j v (λ e. h (ap suc e))

  pub get_elem?_below : (xs : List A) (i : ℕ) → i < length xs → (v : A) × (get_elem? xs i ≡ some v)
  get_elem?_below [] i h = elim h [ ]
  get_elem?_below (x ∷ xs) zero h = (x, refl)
  get_elem?_below (x ∷ xs) (suc i) h = get_elem?_below xs i (omega arith)

  pub length-replicate : (n : ℕ) (a : A) → length (replicate n a) ≡ n
  length-replicate zero a = refl
  length-replicate (suc n) a = ap suc (length-replicate n a)

  pub All-append {κ} : (P : A → Type κ) (xs ys : List A) → All P xs → All P ys → All P (xs ++ ys)
  All-append P [] ys p q = q
  All-append P (x ∷ xs) ys p q = (p.0, All-append P xs ys p.1 q)

-- `std::find(v.begin(), v.end(), x) != v.end()`.
abbrev pub contains : List ℕ → ℕ → Bool
contains [] a = false
contains (x ∷ xs) a = x == a || contains xs a

-- `v.erase(std::find(v.begin(), v.end(), x))`: the first occurrence goes.
abbrev pub erase_first : List ℕ → ℕ → List ℕ
erase_first [] a = []
erase_first (x ∷ xs) a = if x == a then xs else x ∷ erase_first xs a

-- No element occurs twice.
abbrev pub Distinct : List ℕ → Type 0
Distinct [] = Unit
Distinct (x ∷ xs) = (contains xs x ≡ false) × Distinct xs

pub contains-append : (xs : List ℕ) (x a : ℕ) → contains (xs ++ x ∷ []) a ≡ contains xs a || x == a
contains-append [] x a = ground arith
contains-append (y ∷ xs) x a = ground (arith, contains-append xs x a)

pub contains-erase_first_ne :
    (xs : List ℕ) (x a : ℕ) → x ≢ a → contains (erase_first xs x) a ≡ contains xs a
contains-erase_first_ne [] x a h = refl
contains-erase_first_ne (y ∷ xs) x a h = ground (arith, contains-erase_first_ne xs x a h)

pub contains-erase_first :
    (xs : List ℕ) (x : ℕ) → Distinct xs → contains (erase_first xs x) x ≡ false
contains-erase_first [] x d = refl
contains-erase_first (y ∷ xs) x d = ground (arith, contains-erase_first xs x d.1)

pub Distinct-append :
    (xs : List ℕ) (x : ℕ) → Distinct xs → contains xs x ≡ false → Distinct (xs ++ x ∷ [])
Distinct-append [] x d h = (refl, tt)
Distinct-append (y ∷ xs) x d h =
    (ground (arith, contains-append xs x y), Distinct-append xs x d.1 (ground arith))

contains-erase_first_le :
    (xs : List ℕ) (x a : ℕ) → contains xs a ≡ false → contains (erase_first xs x) a ≡ false
contains-erase_first_le [] x a h = refl
contains-erase_first_le (y ∷ xs) x a h = ground (arith, contains-erase_first_le xs x a)

pub Distinct-erase_first : (xs : List ℕ) (x : ℕ) → Distinct xs → Distinct (erase_first xs x)
Distinct-erase_first [] x d = tt
Distinct-erase_first (y ∷ xs) x d =
    ground (arith, Distinct-erase_first xs x d.1, contains-erase_first_le xs x y d.0)

pub length-erase_first :
    (xs : List ℕ) (x : ℕ) → contains xs x ≡ true → length (erase_first xs x) + 1 ≡ length xs
length-erase_first [] x h = cc
length-erase_first (y ∷ xs) x h = ground (arith, length-erase_first xs x)

-- An element appended and then erased leaves the list as it was, if it was new.
pub erase_first-append :
    (xs : List ℕ) (x : ℕ) → contains xs x ≡ false → erase_first (xs ++ x ∷ []) x ≡ xs
erase_first-append [] x h = ground arith
erase_first-append (y ∷ xs) x h = ground (arith, erase_first-append xs x)

pub contains-get_elem? :
    (nodes : List ℕ) (i n : ℕ) → get_elem? nodes i ≡ some n → contains nodes n ≡ true
contains-get_elem? [] i n e = cc
contains-get_elem? (x ∷ xs) zero n e = ground arith
contains-get_elem? (x ∷ xs) (suc i) n e = ground (arith, contains-get_elem? xs i n)

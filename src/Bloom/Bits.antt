-- ===== src/Bloom/Bits.antt =====
-- The bits of a byte: what `|` and `&` with the masks do, and the table of the numbers of bits.
use rappel.Base.{
  ℕ, zero, suc, ◌+◌, ◌*◌, ◌/◌, ◌%◌, ◌≤◌, ◌<◌, ◌≡◌, refl, ap, sym, ◌∙◌, min, max, Bool, true, false,
  not, ◌&&◌, ◌||◌, Option, none, some, arith, ◌==◌, ==_iff, get_elem?,
}
use Prim.Native.Nat.{bit_and, bit_or, digits, bit_and-bitwise, bit_or-bitwise}
use rappel.Bloom.{bit_mask, bits_in_char}

-- A test passed by every number under a bound.
unfoldable all_below : ℕ → (ℕ → Bool) → Bool
all_below zero test = true
all_below (suc bound) test = all_below bound test && test bound

at_each :
    (bound : ℕ) (test : ℕ → Bool) (k : ℕ) → all_below bound test ≡ true → k < bound → test k ≡ true
unfolding all_below
at_each zero test k every below = absurd (omega arith)
at_each (suc bound) test k every below = ground (arith, at_each bound test k)

-- `2 ^ k` for a bit of a byte.
abbrev pub mask_of : ℕ → ℕ
mask_of k = elim (get_elem? bit_mask k) [ none ↦ 0 | some m ↦ m ]

abbrev is_some : Option ℕ → ℕ → Bool
is_some none m = false
is_some (some a) m = a == m

mask_table : all_below 8 (λ k. is_some (get_elem? bit_mask k) (mask_of k)) ≡ true
unfolding all_below
mask_table = refl

-- Both operations go digit by digit, and any bound on the number of digits will do.
module _ (rest : ℕ → ℕ) (join : ℕ → ℕ → ℕ) where
  enough_digits : (k l x y : ℕ) → x ≤ k → x ≤ l → digits rest join k x y ≡ digits rest join l x y
  enough_digits k l zero y hk hl = out k ∙ sym (out l)
    where
      out : (fuel : ℕ) → digits rest join fuel zero y ≡ rest y
      out zero = refl
      out (suc fuel) = refl
  enough_digits zero l (suc x) y hk hl = absurd (omega arith)
  enough_digits (suc k) zero (suc x) y hk hl = absurd (omega arith)
  enough_digits (suc k) (suc l) (suc x) y hk hl =
      ap (λ high. high * 2 + join (suc x % 2) (y % 2))
        (enough_digits k l (suc x / 2) (y / 2) (omega arith) (omega arith))

  first_digit :
      (x y : ℕ)
      → digits rest join (suc x) (suc x) y
        ≡ digits rest join (suc x / 2) (suc x / 2) (y / 2) * 2 + join (suc x % 2) (y % 2)
  first_digit x y =
      ap (λ high. high * 2 + join (suc x % 2) (y % 2))
        (enough_digits x (suc x / 2) (suc x / 2) (y / 2) (omega arith) (omega arith))

none-bit_and : (y : ℕ) → bit_and 0 y ≡ 0
none-bit_and y = bit_and-bitwise 0 y

none-bit_or : (y : ℕ) → bit_or 0 y ≡ y
none-bit_or y = bit_or-bitwise 0 y

bit_and_step : (a b : ℕ) → bit_and a b ≡ bit_and (a / 2) (b / 2) * 2 + min (a % 2) (b % 2)
bit_and_step zero y = omega (arith, none-bit_and y, none-bit_and (y / 2))
bit_and_step (suc x) y =
    let whole : bit_and (suc x) y ≡ digits (λ _. 0) min (suc x) (suc x) y =
      bit_and-bitwise (suc x) y in
    let half = bit_and-bitwise (suc x / 2) (y / 2) in
    omega (arith, whole, first_digit (λ _. 0) min x y, half)

bit_or_step : (a b : ℕ) → bit_or a b ≡ bit_or (a / 2) (b / 2) * 2 + max (a % 2) (b % 2)
bit_or_step zero y = omega (arith, none-bit_or y, none-bit_or (y / 2))
bit_or_step (suc x) y =
    let whole : bit_or (suc x) y ≡ digits (λ k. k) max (suc x) (suc x) y =
      bit_or-bitwise (suc x) y in
    let half = bit_or-bitwise (suc x / 2) (y / 2) in
    omega (arith, whole, first_digit (λ k. k) max x y, half)

-- The number of ones among the lowest `n` digits.
abbrev pub ones : ℕ → ℕ → ℕ
ones zero a = 0
ones (suc n) a = a % 2 + ones n (a / 2)

abbrev pub power : ℕ → ℕ
power zero = 1
power (suc n) = power n * 2

pub ones-both : (n a b : ℕ) → ones n (bit_and a b) + ones n (bit_or a b) ≡ ones n a + ones n b
ones-both zero a b = refl
ones-both (suc n) a b =
    let and_half : bit_and a b / 2 ≡ bit_and (a / 2) (b / 2) = omega (arith, bit_and_step a b) in
    let or_half : bit_or a b / 2 ≡ bit_or (a / 2) (b / 2) = omega (arith, bit_or_step a b) in
    rw (and_half, or_half)
      (omega (arith, bit_and_step a b, bit_or_step a b, ones-both n (a / 2) (b / 2)))

pub ones-and_le : (n a b : ℕ) → ones n (bit_and a b) ≤ ones n (bit_or a b)
ones-and_le zero a b = omega arith
ones-and_le (suc n) a b =
    let and_half : bit_and a b / 2 ≡ bit_and (a / 2) (b / 2) = omega (arith, bit_and_step a b) in
    let or_half : bit_or a b / 2 ≡ bit_or (a / 2) (b / 2) = omega (arith, bit_or_step a b) in
    rw (and_half, or_half)
      (omega (arith, bit_and_step a b, bit_or_step a b, ones-and_le n (a / 2) (b / 2)))

pub bit_and_below : (n a b : ℕ) → a < power n → bit_and a b < power n
bit_and_below zero a b h = let e : a ≡ 0 = omega arith in rw e (omega (arith, none-bit_and b))
bit_and_below (suc n) a b h =
    omega (arith, bit_and_step a b, bit_and_below n (a / 2) (b / 2) (omega arith))

pub bit_or_below : (n a b : ℕ) → a < power n → b < power n → bit_or a b < power n
bit_or_below zero a b h k = let e : a ≡ 0 = omega arith in rw e (omega (arith, none-bit_or b))
bit_or_below (suc n) a b h k =
    omega (arith, bit_or_step a b, bit_or_below n (a / 2) (b / 2) (omega arith) (omega arith))

count_table : all_below 256 (λ a. is_some (get_elem? bits_in_char a) (ones 8 a)) ≡ true
unfolding all_below
count_table = refl

mask_set_table :
    all_below 256
      (λ a. all_below 8 (λ k. bit_and (bit_or a (mask_of k) % 256) (mask_of k) == mask_of k))
    ≡ true
unfolding all_below
mask_set_table = refl

abbrev keeps : ℕ → ℕ → ℕ → Bool
keeps a k j =
    not (bit_and a (mask_of j) == mask_of j)
    || bit_and (bit_or a (mask_of k) % 256) (mask_of j) == mask_of j

mask_kept_table : all_below 256 (λ a. all_below 8 (λ k. all_below 8 (keeps a k))) ≡ true
unfolding all_below
mask_kept_table = refl

is_some_lem : (o : Option ℕ) (m : ℕ) → is_some o m ≡ true → o ≡ some m
is_some_lem none m h = cc
is_some_lem (some a) m h = ap some ((==_iff a m).0 h)

pub masked : (k : ℕ) → k < 8 → get_elem? bit_mask k ≡ some (mask_of k)
masked k h =
    is_some_lem (get_elem? bit_mask k) (mask_of k)
      (at_each 8 (λ k. is_some (get_elem? bit_mask k) (mask_of k)) k mask_table h)

pub mask_set :
    (a k : ℕ)
    → a < 256
    → k < 8
    → (bit_and (bit_or a (mask_of k) % 256) (mask_of k) == mask_of k) ≡ true
mask_set a k ha hk = at_each 8 _ k (at_each 256 _ a mask_set_table ha) hk

pub mask_kept :
    (a k j : ℕ)
    → a < 256
    → k < 8
    → j < 8
    → (bit_and a (mask_of j) == mask_of j) ≡ true
    → (bit_and (bit_or a (mask_of k) % 256) (mask_of j) == mask_of j) ≡ true
mask_kept a k j ha hk hj h =
    let t : keeps a k j ≡ true =
      at_each 8 _ j (at_each 8 _ k (at_each 256 _ a mask_kept_table ha) hk) hj in
    rw h at t

pub counted : (a : ℕ) → a < 256 → get_elem? bits_in_char a ≡ some (ones 8 a)
counted a h = is_some_lem (get_elem? bits_in_char a) (ones 8 a) (at_each 256 _ a count_table h)

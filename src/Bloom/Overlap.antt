-- ===== src/Bloom/Overlap.antt =====
-- include/bloom_filter.h: the sizes of the intersection and the union of two filters, by which nodes compare what they
-- subscribe to.
use rappel.Base.{
  ℕ, zero, suc, ◌+◌, ◌*◌, ◌/◌, ◌^◌, ◌≤◌, ◌<◌, ◌≡◌, refl, ap, sym, ◌∙◌, List, [], ◌∷◌, some, arith,
  length, get_elem?, ok,
}
use Prim.Native.Nat.{bit_and, bit_or}
use rappel.Base.Word.{add32}
use rappel.Bloom.{
  BloomFilter, merged_bits, count_bits, get_intersection_size, get_union_size, active_bits,
}
use rappel.Bloom.Bits.{ones, counted, bit_and_below, bit_or_below, ones-both, ones-and_le}
use rappel.Bloom.Insert.{Inv}

-- The ones of two tables, byte by byte merged, and those of one.
abbrev merged_ones : (ℕ → ℕ → ℕ) → List ℕ → List ℕ → ℕ
merged_ones merge [] ys = 0
merged_ones merge (x ∷ xs) [] = 0
merged_ones merge (x ∷ xs) (y ∷ ys) = ones 8 (merge x y) + merged_ones merge xs ys

abbrev total_ones : List ℕ → ℕ
total_ones [] = 0
total_ones (x ∷ xs) = ones 8 x + total_ones xs

ones_le : (n a : ℕ) → ones n a ≤ n
ones_le zero a = omega arith
ones_le (suc n) a = omega (arith, ones_le n (a / 2))

total_ones_le : (xs : List ℕ) → total_ones xs ≤ length xs * 8
total_ones_le [] = omega arith
total_ones_le (x ∷ xs) = omega (arith, total_ones_le xs, ones_le 8 x)

merged_ones_le : (merge : ℕ → ℕ → ℕ) (xs ys : List ℕ) → merged_ones merge xs ys ≤ length xs * 8
merged_ones_le merge [] ys = omega arith
merged_ones_le merge (x ∷ xs) [] = omega arith
merged_ones_le merge (x ∷ xs) (y ∷ ys) =
    omega (arith, merged_ones_le merge xs ys, ones_le 8 (merge x y))

-- Every entry is a byte.
abbrev Bytes : List ℕ → Type 0
Bytes xs = (i b : ℕ) → get_elem? xs i ≡ some b → b < 256

-- An operation on bytes.
abbrev OnBytes : (ℕ → ℕ → ℕ) → Type 0
OnBytes merge = (a b : ℕ) → a < 256 → b < 256 → merge a b < 256

merged_bits_lem :
    (merge : ℕ → ℕ → ℕ) (xs ys : List ℕ) (n ret : ℕ)
    → OnBytes merge
    → Bytes xs
    → Bytes ys
    → length xs ≡ n
    → length ys ≡ n
    → ret + n * 8 < 2 ^ 32
    → merged_bits merge n xs ys ret ≡ ok (ret + merged_ones merge xs ys)
unfolding merged_bits
merged_bits_lem merge [] [] zero ret on bx by lx ly room = ap ok (omega arith)
merged_bits_lem merge [] ys (suc n) ret on bx by lx ly room = absurd (omega arith)
merged_bits_lem merge [] (y ∷ ys) zero ret on bx by lx ly room = absurd (omega arith)
merged_bits_lem merge (x ∷ xs) ys zero ret on bx by lx ly room = absurd (omega arith)
merged_bits_lem merge (x ∷ xs) [] (suc n) ret on bx by lx ly room = absurd (omega arith)
merged_bits_lem merge (x ∷ xs) (y ∷ ys) (suc n) ret on bx by lx ly room =
    let sum : add32 ret (ones 8 (merge x y)) ≡ ret + ones 8 (merge x y) =
      omega (arith, ones_le 8 (merge x y)) in
    rw (counted (merge x y) (on x y (bx 0 x refl) (by 0 y refl)), sum)
      (merged_bits_lem merge xs ys n (ret + ones 8 (merge x y)) on (λ i. bx (suc i))
          (λ i. by (suc i)) (omega arith) (omega arith) (omega (arith, ones_le 8 (merge x y)))
        ∙ ap ok (omega arith))

count_bits_lem :
    (xs : List ℕ) (n ret : ℕ)
    → Bytes xs
    → length xs ≡ n
    → ret + n * 8 < 2 ^ 32
    → count_bits n xs ret ≡ ok (ret + total_ones xs)
unfolding count_bits
count_bits_lem [] zero ret bx lx room = ap ok (omega arith)
count_bits_lem [] (suc n) ret bx lx room = absurd (omega arith)
count_bits_lem (x ∷ xs) zero ret bx lx room = absurd (omega arith)
count_bits_lem (x ∷ xs) (suc n) ret bx lx room =
    let sum : add32 ret (ones 8 x) ≡ ret + ones 8 x = omega (arith, ones_le 8 x) in
    rw (counted x (bx 0 x refl), sum)
      (count_bits_lem xs n (ret + ones 8 x) (λ i. bx (suc i)) (omega arith)
          (omega (arith, ones_le 8 x))
        ∙ ap ok (omega arith))

both_ones :
    (xs ys : List ℕ)
    → length xs ≡ length ys
    → merged_ones bit_and xs ys + merged_ones bit_or xs ys ≡ total_ones xs + total_ones ys
both_ones [] [] e = refl
both_ones [] (y ∷ ys) e = absurd (omega arith)
both_ones (x ∷ xs) [] e = absurd (omega arith)
both_ones (x ∷ xs) (y ∷ ys) e = omega (arith, both_ones xs ys (omega arith), ones-both 8 x y)

both_le : (xs ys : List ℕ) → merged_ones bit_and xs ys ≤ merged_ones bit_or xs ys
both_le [] ys = omega arith
both_le (x ∷ xs) [] = omega arith
both_le (x ∷ xs) (y ∷ ys) = omega (arith, both_le xs ys, ones-and_le 8 x y)

-- For two sound filters of one size, none of the counts runs out of its table or wraps around,
-- and the sizes of the intersection and the union add up to the bits that are on in the one and
-- in the other. The intersection is no larger than the union, and the union no larger than the
-- table.
pub intersection-union :
    (f g : BloomFilter)
    → Inv f
    → Inv g
    → f.table_size ≡ g.table_size
    → (both : ℕ) × (either : ℕ) × (in_f : ℕ) × (in_g : ℕ) × (get_intersection_size f g ≡ ok both)
      × (get_union_size f g ≡ ok either)
      × (active_bits f ≡ ok in_f)
      × (active_bits g ≡ ok in_g)
      × (both + either ≡ in_f + in_g)
      × (both ≤ either)
      × (either ≤ f.table_size * 8)
unfolding get_intersection_size get_union_size active_bits
intersection-union f g v w same =
    let xs = f.hash_table in
    let ys = g.hash_table in
    (
      0 + merged_ones bit_and xs ys,
      0 + merged_ones bit_or xs ys,
      0 + total_ones xs,
      0 + total_ones ys,
      merged_bits_lem bit_and xs ys f.table_size 0 (λ a b h k. bit_and_below 8 a b h) v.table.bytes
          w.table.bytes v.table.size_is (w.table.size_is ∙ sym same) (omega (arith, v.small)),
      merged_bits_lem bit_or xs ys f.table_size 0 (λ a b h k. bit_or_below 8 a b h k) v.table.bytes
          w.table.bytes v.table.size_is (w.table.size_is ∙ sym same) (omega (arith, v.small)),
      count_bits_lem xs f.table_size 0 v.table.bytes v.table.size_is (omega (arith, v.small)),
      count_bits_lem ys g.table_size 0 w.table.bytes w.table.size_is (omega (arith, w.small)),
      omega (arith, both_ones xs ys (omega (arith, v.table.size_is, w.table.size_is))),
      omega (arith, both_le xs ys),
      omega (arith, merged_ones_le bit_or xs ys, v.table.size_is),
    )

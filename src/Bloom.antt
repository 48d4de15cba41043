-- ===== src/Bloom.antt =====
-- include/bloom_filter.h: the Bloom filter in which a node announces its feeds. A key is the list
-- of its bytes. The hash functions, a library of their own, are a parameter.
pub mod Bits
pub mod Insert
pub mod Overlap
mod Tests
use rappel.Base.{
  ℕ, zero, suc, ◌+◌, ◌*◌, ◌/◌, ◌%◌, Bool, true, false, not, List, [], ◌∷◌, get_elem?, set,
  replicate, ltb, ◌==◌, if◌then◌else◌, Result, ok, failed, ◌>>=◌, ◌>>◌, assert, present,
  out_of_range,
}
use Prim.Native.Nat.{bit_and, bit_or}
use rappel.Base.Word.{add32, mul32}

abbrev pub bit_mask : List ℕ
bit_mask = 0x01 ∷ 0x02 ∷ 0x04 ∷ 0x08 ∷ 0x10 ∷ 0x20 ∷ 0x40 ∷ 0x80 ∷ []

-- `BITS_IN_CHAR`.
abbrev pub bits_in_char : List ℕ
bits_in_char =
    0 ∷ 1 ∷ 1 ∷ 2 ∷ 1 ∷ 2 ∷ 2 ∷ 3 ∷ 1 ∷ 2 ∷ 2 ∷ 3 ∷ 2 ∷ 3 ∷ 3 ∷ 4 ∷ 1 ∷ 2 ∷ 2 ∷ 3 ∷ 2 ∷ 3 ∷ 3 ∷ 4
    ∷ 2 ∷ 3 ∷ 3 ∷ 4 ∷ 3 ∷ 4 ∷ 4 ∷ 5 ∷ 1 ∷ 2 ∷ 2 ∷ 3 ∷ 2 ∷ 3 ∷ 3 ∷ 4 ∷ 2 ∷ 3 ∷ 3 ∷ 4 ∷ 3 ∷ 4 ∷ 4 ∷ 5
    ∷ 2 ∷ 3 ∷ 3 ∷ 4 ∷ 3 ∷ 4 ∷ 4 ∷ 5 ∷ 3 ∷ 4 ∷ 4 ∷ 5 ∷ 4 ∷ 5 ∷ 5 ∷ 6 ∷ 1 ∷ 2 ∷ 2 ∷ 3 ∷ 2 ∷ 3 ∷ 3 ∷ 4
    ∷ 2 ∷ 3 ∷ 3 ∷ 4 ∷ 3 ∷ 4 ∷ 4 ∷ 5 ∷ 2 ∷ 3 ∷ 3 ∷ 4 ∷ 3 ∷ 4 ∷ 4 ∷ 5 ∷ 3 ∷ 4 ∷ 4 ∷ 5 ∷ 4 ∷ 5 ∷ 5 ∷ 6
    ∷ 2 ∷ 3 ∷ 3 ∷ 4 ∷ 3 ∷ 4 ∷ 4 ∷ 5 ∷ 3 ∷ 4 ∷ 4 ∷ 5 ∷ 4 ∷ 5 ∷ 5 ∷ 6 ∷ 3 ∷ 4 ∷ 4 ∷ 5 ∷ 4 ∷ 5 ∷ 5 ∷ 6
    ∷ 4 ∷ 5 ∷ 5 ∷ 6 ∷ 5 ∷ 6 ∷ 6 ∷ 7 ∷ 1 ∷ 2 ∷ 2 ∷ 3 ∷ 2 ∷ 3 ∷ 3 ∷ 4 ∷ 2 ∷ 3 ∷ 3 ∷ 4 ∷ 3 ∷ 4 ∷ 4 ∷ 5
    ∷ 2 ∷ 3 ∷ 3 ∷ 4 ∷ 3 ∷ 4 ∷ 4 ∷ 5 ∷ 3 ∷ 4 ∷ 4 ∷ 5 ∷ 4 ∷ 5 ∷ 5 ∷ 6 ∷ 2 ∷ 3 ∷ 3 ∷ 4 ∷ 3 ∷ 4 ∷ 4 ∷ 5
    ∷ 3 ∷ 4 ∷ 4 ∷ 5 ∷ 4 ∷ 5 ∷ 5 ∷ 6 ∷ 3 ∷ 4 ∷ 4 ∷ 5 ∷ 4 ∷ 5 ∷ 5 ∷ 6 ∷ 4 ∷ 5 ∷ 5 ∷ 6 ∷ 5 ∷ 6 ∷ 6 ∷ 7
    ∷ 2 ∷ 3 ∷ 3 ∷ 4 ∷ 3 ∷ 4 ∷ 4 ∷ 5 ∷ 3 ∷ 4 ∷ 4 ∷ 5 ∷ 4 ∷ 5 ∷ 5 ∷ 6 ∷ 3 ∷ 4 ∷ 4 ∷ 5 ∷ 4 ∷ 5 ∷ 5 ∷ 6
    ∷ 4 ∷ 5 ∷ 5 ∷ 6 ∷ 5 ∷ 6 ∷ 6 ∷ 7 ∷ 3 ∷ 4 ∷ 4 ∷ 5 ∷ 4 ∷ 5 ∷ 5 ∷ 6 ∷ 4 ∷ 5 ∷ 5 ∷ 6 ∷ 5 ∷ 6 ∷ 6 ∷ 7
    ∷ 4 ∷ 5 ∷ 5 ∷ 6 ∷ 5 ∷ 6 ∷ 6 ∷ 7 ∷ 5 ∷ 6 ∷ 6 ∷ 7 ∷ 6 ∷ 7 ∷ 7 ∷ 8 ∷ []

pub record BloomFilter : Type 0 where
  pub hash_table : List ℕ
  pub table_size : ℕ
  pub version : ℕ

-- `BloomFilter()`; `bloom_size` is `globops.bloom_size`.
abbrev pub new_filter : ℕ → BloomFilter
new_filter bloom_size = record {
  hash_table = replicate bloom_size 0;
  table_size = bloom_size;
  version = 0;
}

unfoldable pub init : BloomFilter → Result BloomFilter
init f = do assert (f.version == 0) out_of_range; ok (record f { version = 1 })

-- The bit of a hash; a table of no bits is a division by zero.
unfoldable pub place : ℕ → ℕ → Result ℕ
place size hash = do assert (not (mul32 size 8 == 0)) out_of_range; ok (hash % mul32 size 8)

unfoldable pub set_bit : List ℕ → ℕ → Result (List ℕ)
set_bit table bit = do
  byte ← present (get_elem? table (bit / 8)) out_of_range
  mask ← present (get_elem? bit_mask (bit % 8)) out_of_range
  ok (set table (bit / 8) (bit_or byte mask % 256))

unfoldable pub test_bit : List ℕ → ℕ → Result Bool
test_bit table bit = do
  byte ← present (get_elem? table (bit / 8)) out_of_range
  mask ← present (get_elem? bit_mask (bit % 8)) out_of_range
  ok (bit_and byte mask == mask)

-- The loops of `insert` and `contains`, over the table of hash functions.
unfoldable pub insert_loop : ℕ → List (List ℕ → ℕ) → ℕ → List ℕ → List ℕ → Result (List ℕ)
insert_loop zero hs size key table = ok table
insert_loop (suc n) [] size key table = failed out_of_range
insert_loop (suc n) (h ∷ hs) size key table = do
  bit ← place size (h key)
  table' ← set_bit table bit
  insert_loop n hs size key table'

unfoldable pub contains_loop : ℕ → List (List ℕ → ℕ) → ℕ → List ℕ → List ℕ → Result Bool
contains_loop zero hs size key table = ok true
contains_loop (suc n) [] size key table = failed out_of_range
contains_loop (suc n) (h ∷ hs) size key table =
    let rest = contains_loop n hs size key table in
    do bit ← place size (h key); on ← test_bit table bit; if on then rest else ok false

-- `n` is `globops.bloom_hash_funcs`.
module _ (hash_funcs : List (List ℕ → ℕ)) (n : ℕ) where
  unfoldable pub contains_key : BloomFilter → List ℕ → Result Bool
  contains_key f key = contains_loop n hash_funcs f.table_size key f.hash_table

  unfoldable pub insert_key : BloomFilter → List ℕ → Result BloomFilter
  insert_key f key = do
    table ← insert_loop n hash_funcs f.table_size key f.hash_table
    let f' = record f { hash_table = table }
    there ← contains_key f' key
    assert there out_of_range
    ok (record f' { version = add32 f.version 1 })

-- The loops over the bytes of two tables, and of one.
unfoldable pub merged_bits : (ℕ → ℕ → ℕ) → ℕ → List ℕ → List ℕ → ℕ → Result ℕ
merged_bits merge zero xs ys ret = ok ret
merged_bits merge (suc n) (a ∷ xs) (b ∷ ys) ret = do
  bits ← present (get_elem? bits_in_char (merge a b)) out_of_range
  merged_bits merge n xs ys (add32 ret bits)
merged_bits merge (suc n) _ _ ret = failed out_of_range

unfoldable pub get_intersection_size : BloomFilter → BloomFilter → Result ℕ
get_intersection_size f g = merged_bits bit_and f.table_size f.hash_table g.hash_table 0

unfoldable pub get_union_size : BloomFilter → BloomFilter → Result ℕ
get_union_size f g = merged_bits bit_or f.table_size f.hash_table g.hash_table 0

unfoldable pub count_bits : ℕ → List ℕ → ℕ → Result ℕ
count_bits zero xs ret = ok ret
count_bits (suc n) [] ret = failed out_of_range
count_bits (suc n) (a ∷ xs) ret = do
  bits ← present (get_elem? bits_in_char a) out_of_range
  count_bits n xs (add32 ret bits)

unfoldable pub active_bits : BloomFilter → Result ℕ
active_bits f = count_bits f.table_size f.hash_table 0

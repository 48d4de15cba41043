-- ===== src/Bloom/Tests.antt =====
-- Filters at concrete inputs, with two hash functions.
use rappel.Base.{ℕ, ◌+◌, ◌*◌, ◌≤◌, ◌≡◌, refl, List, [], ◌∷◌, true, false, arith, ok}
use rappel.Bloom.{
  BloomFilter, insert_key, contains_key, contains_loop, place, test_bit, get_intersection_size,
  get_union_size, active_bits,
}
use rappel.Bloom.Insert.{Inv, insert_key-contains_key}
use rappel.Bloom.Overlap.{intersection-union}

abbrev sum_hash : List ℕ → ℕ
sum_hash [] = 0
sum_hash (c ∷ cs) = c + sum_hash cs

abbrev last_hash : List ℕ → ℕ
last_hash [] = 7
last_hash (c ∷ cs) = c * 31 + last_hash cs * 17

abbrev hash_funcs : List (List ℕ → ℕ)
hash_funcs = sum_hash ∷ last_hash ∷ []

-- Three bytes, some bits on.
abbrev three : BloomFilter
three = record { hash_table = 5 ∷ 0 ∷ 255 ∷ []; table_size = 3; version = 4 }

abbrev other_three : BloomFilter
other_three = record { hash_table = 12 ∷ 128 ∷ 1 ∷ []; table_size = 3; version = 1 }

three-Inv : Inv three
three-Inv = record {
  table = record { size_is = refl; bytes = λ i b e. ground arith };
  some_size = omega arith;
  small = omega arith;
}

other_three-Inv : Inv other_three
other_three-Inv = record {
  table = record { size_is = refl; bytes = λ i b e. ground arith };
  some_size = omega arith;
  small = omega arith;
}

-- The key is not contained before.
not_yet : contains_key hash_funcs 2 other_three (10 ∷ 3 ∷ []) ≡ ok false
unfolding contains_key contains_loop place test_bit
not_yet = refl

insert_key-contains_key_example :
    (f' : BloomFilter) × (insert_key hash_funcs 2 three (10 ∷ 3 ∷ []) ≡ ok f')
    × (contains_key hash_funcs 2 f' (10 ∷ 3 ∷ []) ≡ ok true)
    × ((other : List ℕ)
        → contains_key hash_funcs 2 three other ≡ ok true
        → contains_key hash_funcs 2 f' other ≡ ok true)
    × (f'.version ≡ 4 + 1)
    × Inv f'
insert_key-contains_key_example =
    insert_key-contains_key hash_funcs 2 three (10 ∷ 3 ∷ []) (omega arith) three-Inv (omega arith)

intersection-union_example :
    (both : ℕ) × (either : ℕ) × (in_f : ℕ) × (in_g : ℕ) × (get_intersection_size three other_three
      ≡ ok both)
    × (get_union_size three other_three ≡ ok either)
    × (active_bits three ≡ ok in_f)
    × (active_bits other_three ≡ ok in_g)
    × (both + either ≡ in_f + in_g)
    × (both ≤ either)
    × (either ≤ 3 * 8)
intersection-union_example = intersection-union three other_three three-Inv other_three-Inv refl

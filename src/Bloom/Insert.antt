-- ===== src/Bloom/Insert.antt =====
-- include/bloom_filter.h: `insert` and `contains`.
use rappel.Base.{
  ℕ, zero, suc, ◌+◌, ◌*◌, ◌/◌, ◌%◌, ◌^◌, ◌≤◌, ◌<◌, ◌≡◌, refl, ap, sym, ◌∙◌, inl, inr, Bool, true,
  false, List, [], ◌∷◌, some, arith, ◌==◌, length, get_elem?, set, get_elem?_below,
  get_elem?-set_self, get_elem?-set_ne, length-set, ok, Bool-cases,
}
use native.Mathlib.Decide.{ℕ_discrete}
use Prim.Native.Nat.{bit_and, bit_or}
use rappel.Base.Word.{add32, mul32}
use rappel.Bloom.{
  BloomFilter, place, set_bit, test_bit, insert_loop, contains_loop, contains_key, insert_key,
}
use rappel.Bloom.Bits.{mask_of, masked, mask_set, mask_kept}

-- A table of `size` bytes.
pub record IsTable (size : ℕ) (table : List ℕ) : Type 0 where
  pub size_is : length table ≡ size
  pub bytes : (i b : ℕ) → get_elem? table i ≡ some b → b < 256

-- A filter as it is made and kept.
pub record Inv (f : BloomFilter) : Type 0 where
  pub table : IsTable f.table_size f.hash_table
  pub some_size : 0 < f.table_size
  pub small : f.table_size * 8 < 2 ^ 32

-- Every bit that is on in the first table is on in the second.
abbrev pub Kept : ℕ → List ℕ → List ℕ → Type 0
Kept size t t' = (q : ℕ) → q < size * 8 → test_bit t q ≡ ok true → test_bit t' q ≡ ok true

test_bit_lem :
    {size : ℕ} {table : List ℕ}
    → IsTable size table
    → (q : ℕ) → q < size * 8
    → (b : ℕ) × (get_elem? table (q / 8) ≡ some b)
      × (b < 256)
      × (test_bit table q ≡ ok (bit_and b (mask_of (q % 8)) == mask_of (q % 8)))
unfolding test_bit
test_bit_lem {size} {table} t q h =
    let (b, e) = get_elem?_below table (q / 8) (omega (arith, t.size_is)) in
    (b, e, t.bytes _ b e, rw (e, masked (q % 8) (omega arith)) refl)

ok_inj : {A : Type 0} {a b : A} → ok a ≡ ok b → a ≡ b
ok_inj e = cc

set_bit_lem :
    {size : ℕ} {table : List ℕ}
    → IsTable size table
    → (p : ℕ) → p < size * 8
    → (t' : List ℕ) × (set_bit table p ≡ ok t')
      × IsTable size t'
      × (test_bit t' p ≡ ok true)
      × Kept size table t'
unfolding set_bit test_bit
set_bit_lem {size} {table} t p h = (
  t',
  rw (at_p, masked (p % 8) (omega arith)) refl,
  table',
  rw (get_elem?-set_self table (p / 8) new below, masked (p % 8) (omega arith))
      (ap ok (mask_set b (p % 8) small (omega arith))),
  kept,
)
  where
    below : p / 8 < length table
    below = omega (arith, t.size_is)

    b : ℕ
    b = (get_elem?_below table (p / 8) below).0

    at_p : get_elem? table (p / 8) ≡ some b
    at_p = (get_elem?_below table (p / 8) below).1

    small : b < 256
    small = t.bytes (p / 8) b at_p

    new : ℕ
    new = bit_or b (mask_of (p % 8)) % 256

    t' : List ℕ
    t' = set table (p / 8) new

    table' : IsTable size t'
    table' = record {
      size_is = length-set table (p / 8) new ∙ t.size_is;
      bytes = λ i c e. elim (ℕ_discrete (p / 8) i) [
        | yes same ↦
            let e' = get_elem?-set_self table (p / 8) new below in
            let at_i : get_elem? t' i ≡ some new = rw (sym same) e' in
            let eq : c ≡ new = cc in omega arith
        | no other ↦ t.bytes i c (sym (get_elem?-set_ne table (p / 8) i new other) ∙ e)
      ];
    }

    kept : Kept size table t'
    kept q hq on = elim (ℕ_discrete (p / 8) (q / 8)) [
      | yes same ↦
          let (c, e, hc, l) = test_bit_lem t q hq in
          let at_p' : get_elem? table (p / 8) ≡ some c = rw same e in
          let eq : c ≡ b = cc (at_p) in
          let was : (bit_and b (mask_of (q % 8)) == mask_of (q % 8)) ≡ true =
            rw eq at (ok_inj (sym l ∙ on)) in
          rw (sym same, get_elem?-set_self table (p / 8) new below, masked (q % 8) (omega arith))
            (ap ok (mask_kept b (p % 8) (q % 8) small (omega arith) (omega arith) was))
      | no other ↦ rw (get_elem?-set_ne table (p / 8) (q / 8) new other) on
    ]

module _ (size : ℕ) (some_size : 0 < size) (small : size * 8 < 2 ^ 32) where
  place_lem : (hash : ℕ) → (p : ℕ) × (place size hash ≡ ok p) × (p < size * 8)
  unfolding place
  place_lem hash =
      let whole : mul32 size 8 ≡ size * 8 = omega arith in
      let some_bits : (size * 8 == 0) ≡ false = ground arith in
      (hash % (size * 8), rw (whole, some_bits) refl, omega arith)

  contains_loop-Kept :
      (n : ℕ) (hs : List (List ℕ → ℕ)) (key t t' : List ℕ)
      → IsTable size t
      → Kept size t t'
      → contains_loop n hs size key t ≡ ok true
      → contains_loop n hs size key t' ≡ ok true
  unfolding contains_loop
  contains_loop-Kept zero hs key t t' is k e = refl
  contains_loop-Kept (suc n) [] key t t' is k e = cc
  contains_loop-Kept (suc n) (h ∷ hs) key t t' is k e =
      let (p, at, below) = place_lem (h key) in
      elim (Bool-cases (is_on p below)) [
        | inl on ↦
            let was = (test_bit_lem is p below).3 ∙ ap ok on in
            let rest = rw (at, was) at e in
            rw (at, k p below was) (contains_loop-Kept n hs key t t' is k rest)
        | inr off ↦
            let was = (test_bit_lem is p below).3 ∙ ap ok off in let never = rw (at, was) at e in cc
      ]
    where
      is_on : (p : ℕ) → p < size * 8 → Bool
      is_on p below = bit_and (test_bit_lem is p below).0 (mask_of (p % 8)) == mask_of (p % 8)

  insert_loop_lem :
      (n : ℕ) (hs : List (List ℕ → ℕ)) (key t : List ℕ)
      → n ≤ length hs
      → IsTable size t
      → (t' : List ℕ) × (insert_loop n hs size key t ≡ ok t')
        × IsTable size t'
        × Kept size t t'
        × (contains_loop n hs size key t' ≡ ok true)
  unfolding insert_loop contains_loop
  insert_loop_lem zero hs key t le is = (t, refl, is, (λ q h e. e), refl)
  insert_loop_lem (suc n) [] key t le is = absurd (omega arith)
  insert_loop_lem (suc n) (h ∷ hs) key t le is =
      let (p, at, below) = place_lem (h key) in
      let (t₁, e₁, is₁, on, k₁) = set_bit_lem is p below in
      let (t₂, e₂, is₂, k₂, all) = insert_loop_lem n hs key t₁ (omega arith) is₁ in
      (t₂, rw (at, e₁) e₂, is₂, (λ q hq e. k₂ q hq (k₁ q hq e)), rw (at, k₂ p below on) all)

-- `insert` on a sound filter, with no more hash functions asked for than there are, never fails
-- its own assertion and stays in the table. Afterwards the key is contained, every key that was
-- contained still is, the version is one more, and the filter is sound.
pub insert_key-contains_key :
    (hash_funcs : List (List ℕ → ℕ)) (n : ℕ) (f : BloomFilter) (key : List ℕ)
    → n ≤ length hash_funcs
    → Inv f
    → f.version + 1 < 2 ^ 32
    → (f' : BloomFilter) × (insert_key hash_funcs n f key ≡ ok f')
      × (contains_key hash_funcs n f' key ≡ ok true)
      × ((other : List ℕ)
          → contains_key hash_funcs n f other ≡ ok true
          → contains_key hash_funcs n f' other ≡ ok true)
      × (f'.version ≡ f.version + 1)
      × Inv f'
unfolding insert_key contains_key
insert_key-contains_key hash_funcs n f key le v room =
    let (t', e, is, kept, all) =
      insert_loop_lem f.table_size v.some_size v.small n hash_funcs key f.hash_table le v.table in
    (
      record f { hash_table = t'; version = add32 f.version 1 },
      rw (e, all) refl,
      all,
      (λ other c.
          contains_loop-Kept f.table_size v.some_size v.small n hash_funcs other f.hash_table t'
            v.table kept c),
      omega arith,
      record { table = is; some_size = v.some_size; small = v.small },
    )

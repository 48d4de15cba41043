-- ===== src/Rappel/Utility.antt =====
-- src/rappel.cpp: `calculate_friend_set_utility`, the worth of a set of friends: how much their
-- feeds overlap with the node's own, and how near they are. A `double` stands as its bits and its
-- operations are a parameter.
use rappel.Base.{
  ℕ, zero, suc, ◌+◌, ◌*◌, ◌/◌, ◌%◌, Bool, true, false, List, [], ◌∷◌, length, leb, ltb, get_elem?,
  set, replicate, ◌==◌, if◌then◌else◌, Result, ok, ◌>>=◌, ◌>>◌, assert, present, out_of_range,
  too_many_friends, wrong_size,
}
use rappel.Base.Word.{add32}
use rappel.Bloom.{BloomFilter, test_bit, get_intersection_size, get_union_size, active_bits}
use rappel.Coordinate.{Doubles, get_distance}
use rappel.Rappel.{
  Rappel, Options, UtilityMode, network_alone, interest_alone, interest_alone_with_bonus, both,
  both_with_interest_bonus, get_bloom_filter, get_nc,
}

-- `find("BONUS", 0)`.
abbrev pub with_bonus : UtilityMode → Bool
with_bonus interest_alone_with_bonus = true
with_bonus both_with_interest_bonus = true
with_bonus _ = false

-- `v[i] += n`.
unfoldable pub add_at : List ℕ → ℕ → ℕ → Result (List ℕ)
add_at v i n = do old ← present (get_elem? v i) out_of_range; ok (set v i (add32 old n))

-- `contains_bit`; a mask has one bit, so that it is on where the byte has all of the mask.
unfoldable pub contains_bit : BloomFilter → ℕ → Result Bool
contains_bit f bit_id = do
  assert (ltb bit_id (f.table_size * 8)) out_of_range
  test_bit f.hash_table bit_id

-- What the loops over the bits have counted.
pub record Scores : Type 0 where
  pub intersection_size : List ℕ
  pub bonus : List ℕ

module _ {Queue : Type 0} (r : Rappel Queue) where
  -- The loop over the nodes for one bit that is on: the nodes with that bit, and the last of them.
  unfoldable pub nodes_loop : ℕ → List ℕ → ℕ → List ℕ → ℕ → ℕ → Result (List ℕ × ℕ × ℕ)
  nodes_loop bit [] i sizes active last = ok (sizes, active, last)
  nodes_loop bit (n ∷ ns) i sizes active last = do
    f ← get_bloom_filter r n
    is_active ← contains_bit f bit
    sizes' ← add_at sizes i (if is_active then 1 else 0)
    nodes_loop bit ns (i + 1) sizes' (if is_active then add32 active 1 else active)
        (if is_active then i else last)

  unfoldable pub bit_on : List ℕ → ℕ → Scores → Result Scores
  bit_on nodes bit s = do
    counted ← nodes_loop bit nodes 0 s.intersection_size 0 0
    bonus ←
        if ltb 0 (length nodes)
        then add_at s.bonus counted.2 (if counted.1 == 1 then 1 else 0)
        else ok s.bonus
    ok (record { intersection_size = counted.0; bonus = bonus })

  -- `while (remaining_byte_val)`, which shifts a byte at most eight times.
  unfoldable pub bits_loop : ℕ → List ℕ → ℕ → ℕ → Scores → Result Scores
  bits_loop zero nodes remaining bit s = ok s
  bits_loop (suc n) nodes remaining bit s =
      let counted = (do
        s' ← if remaining % 2 == 1 then bit_on nodes bit s else ok s
        bits_loop n nodes (remaining / 2) (bit + 1) s') in
      if remaining == 0 then ok s else counted

  unfoldable pub bytes_loop : List ℕ → List ℕ → ℕ → Scores → Result Scores
  bytes_loop nodes [] byte s = ok s
  bytes_loop nodes (b ∷ bs) byte s = do
    s' ← bits_loop 8 nodes b (byte * 8) s
    bytes_loop nodes bs (byte + 1) s'

  module _ (d : Doubles) (o : Options) where
    open d use {of_uint, add, mul, div}

    -- `a / b` of two `unsigned int`.
    abbrev pub ratio : ℕ → ℕ → ℕ
    ratio a b = div (of_uint a) (of_uint b)

    abbrev pub distance_to : ℕ → Result ℕ
    distance_to n = get_nc r n >>= λ nc. get_distance d r.nc nc

    -- The summand of one node, from its intersection, union and bonus.
    unfoldable pub interest : UtilityMode → ℕ → ℕ → ℕ → ℕ → Result ℕ
    interest interest_alone_with_bonus n common all bonus = do
      active ← active_bits r.filter
      ok (add (ratio bonus active) (ratio common all))
    interest interest_alone n common all bonus = ok (ratio common all)
    interest both_with_interest_bonus n common all bonus = do
      dist ← distance_to n
      active ← active_bits r.filter
      ok (
          mul (div o.utility_k (div dist (of_uint 1000)))
            (add (ratio bonus active) (ratio common all)))
    interest both n common all bonus = do
      dist ← distance_to n
      ok (div (mul (div o.utility_k (div dist (of_uint 1000))) (of_uint common)) (of_uint all))
    interest network_alone n common all bonus = do dist ← distance_to n; ok (div (of_uint 1) dist)

    -- The intersection is counted twice where there is a bonus, and must agree.
    unfoldable pub worth_of : ℕ → ℕ → ℕ → Result ℕ
    worth_of n counted bonus =
        let of_filter = (do
          f ← get_bloom_filter r n
          common ← get_intersection_size r.filter f
          if with_bonus o.utility_mode then assert (counted == common) wrong_size else ok tt
          all ← get_union_size r.filter f
          interest o.utility_mode n common all bonus) in
        elim o.utility_mode [ network_alone ↦ interest network_alone n 0 0 0 | _ ↦ of_filter ]

    unfoldable pub sum_loop : List ℕ → ℕ → Scores → ℕ → Result ℕ
    sum_loop [] i s ret = ok ret
    sum_loop (n ∷ ns) i s ret = do
      counted ← present (get_elem? s.intersection_size i) out_of_range
      bonus ← present (get_elem? s.bonus i) out_of_range
      worth ← worth_of n counted bonus
      sum_loop ns (i + 1) s (add ret worth)

    unfoldable pub calculate_friend_set_utility : List ℕ → Result ℕ
    calculate_friend_set_utility nodes = do
      assert (leb (length nodes) o.num_friends) too_many_friends
      let none_yet : Scores = record {
        intersection_size = replicate (length nodes) 0;
        bonus = replicate (length nodes) 0;
      }
      s ←
          if with_bonus o.utility_mode
          then bytes_loop nodes r.filter.hash_table 0 none_yet
          else ok none_yet
      sum_loop nodes 0 s (of_uint 0)

-- ===== src/Random.antt =====
-- src/rappel_common.cpp: `rand_uint_exp`, the choice of an ancestor to rejoin at. What the
-- generator draws, a number from 0 to the bound that it is given, is an argument.
pub mod Chosen
mod Tests
use rappel.Base.{
  ℕ, zero, suc, ◌+◌, ◌*◌, ◌%◌, ◌^◌, Bool, true, false, List, [], ◌∷◌, ltb, leb, if◌then◌else◌,
  Result, ok, failed, ◌>>=◌, ◌>>◌, assert, bad_base, out_of_range, unreachable,
}

-- The return value is cut to an `unsigned int`.
abbrev pub rand_ulonglong : ℕ → ℕ
rand_ulonglong draw = draw % 2 ^ 32

-- The limits after the first, in 64 bits: `new_max` and the last limit so far.
unfoldable pub limits_from : ℕ → ℕ → ℕ → ℕ → List ℕ
limits_from zero base new_max last = []
limits_from (suc n) base new_max last =
    let new_max' = new_max * base % 2 ^ 64 in
    let last' = (last + new_max') % 2 ^ 64 in last' ∷ limits_from n base new_max' last'

unfoldable pub limits : ℕ → ℕ → List ℕ
limits max_index base = 1 ∷ limits_from max_index base 1 1

-- `limits[limits.size() - 1]` of a list that begins with `l`.
abbrev pub last_limit : ℕ → List ℕ → ℕ
last_limit l [] = l
last_limit l (m ∷ ms) = last_limit m ms

-- The index of the first limit that is not below.
unfoldable pub pick : ℕ → List ℕ → ℕ → Result ℕ
pick rand_num [] i = failed unreachable
pick rand_num (l ∷ ls) i =
    let rest = pick rand_num ls (i + 1) in if leb rand_num l then ok i else rest

unfoldable pub rand_uint_exp : ℕ → ℕ → ℕ → Result ℕ
rand_uint_exp max_index base draw = do
  assert (ltb 1 base) bad_base
  assert (leb (rand_ulonglong draw) (last_limit 0 (limits max_index base))) out_of_range
  pick (rand_ulonglong draw) (limits max_index base) 0

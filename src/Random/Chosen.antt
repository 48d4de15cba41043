-- ===== src/Random/Chosen.antt =====
-- src/rappel_common.cpp: the index that `rand_uint_exp` chooses.
use rappel.Base.{
  ℕ, zero, suc, ◌+◌, ◌*◌, ◌%◌, ◌^◌, ◌-◌, ◌≤◌, ◌<◌, ◌≡◌, refl, ap, ◌∙◌, inl, inr, false, List, [],
  ◌∷◌, some, arith, leb, lt→ltb, le→leb, if◌then◌else◌, Bool-cases, length, get_elem?, ok,
}
use rappel.Random.{rand_ulonglong, limits_from, limits, last_limit, pick, rand_uint_exp}

length-limits_from : (n base new_max last : ℕ) → length (limits_from n base new_max last) ≡ n
unfolding limits_from
length-limits_from zero base new_max last = refl
length-limits_from (suc n) base new_max last = ap suc (length-limits_from n base _ _)

-- The first limit not below the number, counted from `i`.
record Chosen (rand_num : ℕ) (ls : List ℕ) (k : ℕ) : Type 0 where
  pub limit : ℕ
  pub at : get_elem? ls k ≡ some limit
  pub reaches : rand_num ≤ limit
  pub first : (j l : ℕ) → j < k → get_elem? ls j ≡ some l → l < rand_num

pick_lem :
    (rand_num l : ℕ) (ls : List ℕ) (i : ℕ)
    → rand_num ≤ last_limit l ls
    → (k : ℕ) × (pick rand_num (l ∷ ls) i ≡ ok (k + i))
      × (k ≤ length ls)
      × Chosen rand_num (l ∷ ls) k
unfolding pick
pick_lem rand_num l [] i h = (
  0,
  rw (le→leb rand_num l h) (ap ok (omega arith)),
  omega arith,
  record { limit = l; at = refl; reaches = h; first = λ j m lt e. absurd (omega arith) },
)
pick_lem rand_num l (m ∷ ls) i h = elim (Bool-cases (leb rand_num l)) [
  | inl here ↦ (
    0,
    rw here (ap ok (omega arith)),
    omega arith,
    record {
      limit = l;
      at = refl;
      reaches = ground arith;
      first = λ j m lt e. absurd (omega arith);
    },
  )
  | inr after ↦
      let (k, e, le, c) = pick_lem rand_num m ls (i + 1) h in
      (
        suc k,
        rw after (e ∙ ap ok (omega arith)),
        omega arith,
        record {
          limit = c.limit;
          at = c.at;
          reaches = c.reaches;
          first = λ j n lt e'. earlier j n after (λ j'. c.first j') lt e';
        },
      )
]
  where
    earlier :
        {k : ℕ} (j n : ℕ)
        → leb rand_num l ≡ false
        → ((j' l' : ℕ) → j' < k → get_elem? (m ∷ ls) j' ≡ some l' → l' < rand_num)
        → j < suc k
        → get_elem? (l ∷ m ∷ ls) j ≡ some n
        → n < rand_num
    earlier zero n after f lt e = ground arith
    earlier (suc j) n after f lt e = f j n (omega arith) e

-- For a base above 1 and a draw up to the last limit, `rand_uint_exp` fails no assertion, its last
-- one included, and returns an index up to the greatest. What it compares with the limits is the
-- draw cut to 32 bits: the index is that of the first limit that is not below `draw % 2 ^ 32`. This
-- holds even where the limits wrap around. So every limit before the index is below `2 ^ 32 - 1`:
-- an index after a limit that is not is returned for no draw, also not for the draws that the cut
-- turns into smaller numbers.
pub rand_uint_exp_lem :
    (max_index base draw : ℕ)
    → 1 < base
    → draw ≤ last_limit 0 (limits max_index base)
    → (k : ℕ) × (limit : ℕ) × (rand_uint_exp max_index base draw ≡ ok k)
      × (k ≤ max_index)
      × (get_elem? (limits max_index base) k ≡ some limit)
      × (draw % 2 ^ 32 ≤ limit)
      × ((j l : ℕ)
          → j < k
          → get_elem? (limits max_index base) j ≡ some l
          → (l < draw % 2 ^ 32) × (l < 2 ^ 32 - 1))
unfolding rand_uint_exp limits
rand_uint_exp_lem max_index base draw big range =
    let small : rand_ulonglong draw ≤ last_limit 1 (limits_from max_index base 1 1) =
      omega (arith, range) in
    let (k, e, le, c) = pick_lem (rand_ulonglong draw) 1 (limits_from max_index base 1 1) 0 small in
    (
      k,
      c.limit,
      rw (lt→ltb 1 base big, le→leb _ _ small) (e ∙ ap ok (omega arith)),
      omega (arith, length-limits_from max_index base 1 1),
      c.at,
      c.reaches,
      λ j l lt e'. let less = c.first j l lt e' in (less, omega (arith, less)),
    )

-- Of the numbers up to the second limit, one more than the base, 0 and 1 give the index 0 and the
-- others, as many as the base, give the index 1: for a base of 2, two numbers each.
pub rand_uint_exp_low :
    (max_index base draw : ℕ)
    → 1 < base
    → base + 1 < 2 ^ 32
    → draw ≤ base + 1
    → draw ≤ last_limit 0 (limits (suc max_index) base)
    → rand_uint_exp (suc max_index) base draw ≡ ok (if leb draw 1 then 0 else 1)
unfolding rand_uint_exp limits limits_from pick
rand_uint_exp_low max_index base draw big room low range =
    let cut : rand_ulonglong draw ≡ draw = omega arith in
    let second : (1 + 1 * base % 2 ^ 64) % 2 ^ 64 ≡ base + 1 = omega arith in
    rw (cut, lt→ltb 1 base big, le→leb _ _ range, second, le→leb draw (base + 1) low) (ground arith)

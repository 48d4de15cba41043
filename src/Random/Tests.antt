-- ===== src/Random/Tests.antt =====
-- Choices among three indices, with a base of 2: the limits are 1, 3 and 7.
use rappel.Base.{ℕ, ◌≡◌, ◌≤◌, ◌<◌, ◌^◌, ◌-◌, refl, [], ◌∷◌, some, arith, ok, get_elem?}
use rappel.Random.{limits, limits_from, rand_uint_exp}
use rappel.Random.Chosen.{rand_uint_exp_lem, rand_uint_exp_low}

three_limits : limits 2 2 ≡ 1 ∷ 3 ∷ 7 ∷ []
unfolding limits limits_from
three_limits = refl

rand_uint_exp_lem_example :
    (k : ℕ) × (limit : ℕ) × (rand_uint_exp 2 2 5 ≡ ok k)
    × (k ≤ 2)
    × (get_elem? (limits 2 2) k ≡ some limit)
    × (5 ≤ limit)
    × ((j l : ℕ) → j < k → get_elem? (limits 2 2) j ≡ some l → (l < 5) × (l < 2 ^ 32 - 1))
unfolding limits limits_from
rand_uint_exp_lem_example = rand_uint_exp_lem 2 2 5 (omega arith) (omega arith)

rand_uint_exp_low_example : rand_uint_exp 2 2 3 ≡ ok 1
unfolding limits limits_from
rand_uint_exp_low_example =
    rand_uint_exp_low 1 2 3 (omega arith) (omega arith) (omega arith) (omega arith)

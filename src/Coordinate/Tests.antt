-- ===== src/Coordinate/Tests.antt =====
-- The coordinates at concrete samples, with whole milliseconds for the doubles: differences below
-- zero do not occur in them.
use rappel.Base.{◌≡◌, refl, inl, Bool, false, ℕ, List, [], ◌∷◌, arith, ok, failed, no_version}
use rappel.Messages.{Coordinate}
use rappel.Coordinate.{
  CoordinateOptions, OwnCoordinate, update, get_distance, norm_loop, direction, vector_norm,
  vector_dist,
}
use rappel.Coordinate.Fixture.{whole, root_from}
use rappel.Coordinate.Updates.{IsSound, Each, Finite, Updated, update_lem}

whole-IsSound : IsSound whole
whole-IsSound = record {
  less_asym = λ a b h. ground arith;
  zero_least = refl;
  difference = λ a b fa fb. ground arith;
  square = λ a n. ground arith;
  sum = λ a b ha hb. ground arith;
  root = λ x h l. ground arith;
}

-- Whole numbers are finite.
whole-Finite : (a : List ℕ) → Each whole (Finite whole) a
whole-Finite [] = tt
whole-Finite (x ∷ xs) = (ground arith, whole-Finite xs)

abbrev options : CoordinateOptions
options = record { lambda_init = 9; lambda_min = 2; lambda_decr = 1; sys_delta = 5 }

abbrev here : OwnCoordinate
here = record { lambda = 9; sys_coords = 1 ∷ 1 ∷ []; app_coords = 1 ∷ 1 ∷ []; version = 1 }

abbrev there : Coordinate
there = record { app_coords = 4 ∷ 5 ∷ []; version = 1 }

distance_runs :
    get_distance whole
      (record { app_coords = 4 ∷ 5 ∷ []; version = 1 })
      (record { app_coords = 1 ∷ 1 ∷ []; version = 2 })
    ≡ ok 5
unfolding get_distance vector_dist vector_norm norm_loop
distance_runs = refl

distance_without_version :
    get_distance whole there (record { app_coords = []; version = 0 }) ≡ failed no_version
unfolding get_distance
distance_without_version = refl

-- Two nodes in one place: the second vector drawn has a length.
direction_runs : direction whole (0 ∷ []) 0 ((0 ∷ []) ∷ (4 ∷ []) ∷ []) ≡ ok (4 ∷ [], 4)
unfolding direction vector_norm norm_loop
direction_runs = refl

update_example :
    (r : Bool × OwnCoordinate) × (update whole options here there 2 false ((3 ∷ 4 ∷ []) ∷ [])
      ≡ ok r)
    × Updated whole options here false r.0 r.1
update_example =
    update_lem whole whole-IsSound options here there 2 ((3 ∷ 4 ∷ []) ∷ []) false refl refl
      (whole-Finite there.app_coords) (whole-Finite here.sys_coords) (whole-Finite here.app_coords)
      ((refl, (refl, tt)), tt) (inl five) λ c' e. whole-Finite c'.sys_coords
  where
    five :
        whole.same (root_from (norm_loop whole (3 ∷ 4 ∷ []) 0) (norm_loop whole (3 ∷ 4 ∷ []) 0)) 0
        ≡ false
    five = unfold norm_loop in refl

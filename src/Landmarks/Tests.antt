-- ===== src/Landmarks/Tests.antt =====
-- A node with two landmarks, of which one has been silent for too long.
use rappel.Base.{
  ℕ, ◌*◌, ◌≡◌, ◌≢◌, refl, false, List, [], ◌∷◌, some, arith, ltb, ok, failed, no_sample,
}
use rappel.Base.Map.{lookup, insert, erase, has}
use rappel.Base.Int.{ℤ, pos, ◌-ℤ◌}
use rappel.Events.{minute, no_such_node}
use rappel.Messages.{Coordinate}
use rappel.Landmarks.{
  LandmarkSet, Samples, forget_loop, add_landmarks, heard_landmark, get_random_landmark,
  get_landmark_coordinate, add_landmark_measurement, add_sample, get_sample_landmarks, drop_old,
  all_landmarks, get_filtered_landmark_measurement, least,
}
use rappel.Landmarks.Forget.{Answer, get_random_landmark_lem}
use rappel.Landmarks.Window.{
  AllKnown, Represents, Measurement, history_of, coord_of, measure_all, measure_all_lem,
}
use rappel.Landmarks.Known.{Reached, Reached-measurable}

abbrev origin : Coordinate
origin = record { app_coords = []; version = 0 }

abbrev moved : Coordinate
moved = record { app_coords = []; version = 2 }

abbrev fresh : LandmarkSet
fresh = record { node_id = 1; landmarks = []; samples = [] }

abbrev unmeasured : Samples
unmeasured = record { coord = origin; latencies = [] }

-- What `add_landmarks` makes of the nodes 2, 3 and the node itself.
abbrev two : LandmarkSet
two = record {
  node_id = 1;
  landmarks = (2, pos 0) ∷ (3, pos (25 * minute)) ∷ [];
  samples = (2, unmeasured) ∷ (3, unmeasured) ∷ [];
}

abbrev told : List (ℕ × ℤ)
told = (3, pos (5 * minute)) ∷ (2, pos (30 * minute)) ∷ (1, pos 0) ∷ []

two_added : add_landmarks origin (pos (30 * minute)) fresh told ≡ two
unfolding add_landmarks heard_landmark lookup insert has ◌-ℤ◌
two_added = refl

three_left :
    forget_loop 9 (pos (30 * minute)) two.landmarks two.landmarks ≡ (3, pos (25 * minute)) ∷ []
unfolding forget_loop erase ◌-ℤ◌
three_left = refl

samples_are_fresh :
    get_sample_landmarks (λ l. l) two (pos (30 * minute)) 5 ≡ (3, pos (5 * minute)) ∷ []
unfolding get_sample_landmarks drop_old all_landmarks ◌-ℤ◌
samples_are_fresh = refl

least_latency : least ltb 5 (7 ∷ 3 ∷ 4 ∷ []) ≡ 3
unfolding least
least_latency = refl

no_latency : get_filtered_landmark_measurement ltb 0 two 3 false ≡ failed no_sample
unfolding get_filtered_landmark_measurement lookup
no_latency = refl

get_random_landmark_example : Answer 9 (pos (30 * minute)) two 0
get_random_landmark_example =
    get_random_landmark_lem 9 (pos (30 * minute)) two (omega arith) 0 (rw three_left (omega arith))

-- Three latencies to the node 3, and a window of two.
abbrev latencies : List Measurement
latencies =
    record { landmark = 3; latency = 40; coord = origin }
    ∷ record { landmark = 2; latency = 70; coord = origin }
    ∷ record { landmark = 3; latency = 50; coord = origin }
    ∷ record { landmark = 3; latency = 60; coord = moved }
    ∷ []

window_of_two :
    measure_all 2 two latencies
    ≡ ok (record two {
      samples =
          (2, record { coord = origin; latencies = 70 ∷ [] })
          ∷ (3, record { coord = moved; latencies = 50 ∷ 60 ∷ [] })
          ∷ [];
    })
unfolding add_landmark_measurement add_sample lookup insert
window_of_two = refl

two-Represents : Represents 2 (λ j. []) (λ j. some origin) two
unfolding lookup
two-Represents j s e = ground (arith, e)

measure_all_example :
    (l' : LandmarkSet) × (measure_all 2 two latencies ≡ ok l')
    × Represents 2 (history_of (λ j. []) latencies) (coord_of (λ j. some origin) latencies) l'
    × (l'.landmarks ≡ two.landmarks)
measure_all_example =
    measure_all_lem 2 (omega arith) (λ j. []) (λ j. some origin) two latencies two-Represents known
  where
    known : AllKnown two latencies
    known = unfold has lookup in (refl, (refl, (refl, (refl, tt))))

two-Reached : Reached 1 two
two-Reached =
    Reached.added fresh two origin (pos (30 * minute)) told (Reached.new fresh refl) two_added

Reached-measurable_example :
    (r : ℕ) × (l' : LandmarkSet) × (get_random_landmark 9 two (pos (30 * minute)) 0 ≡ ok (r, l'))
    × (r ≢ no_such_node
        → (r ≢ 1)
          × ((coord : Coordinate) × (get_landmark_coordinate l' r ≡ ok coord))
          × ((l'' : LandmarkSet) × (add_landmark_measurement 3 l' r 40 moved ≡ ok l'')))
Reached-measurable_example =
    Reached-measurable 1 two 9 (pos (30 * minute)) 0 3 40 moved two-Reached
      (rw three_left (omega arith)) (omega arith)

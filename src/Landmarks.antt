-- ===== src/Landmarks.antt =====
-- src/node.cpp and include/node.h: the landmarks of a node, against which it measures its network
-- coordinates, and the window of the latencies measured to each. The time of the call and what the
-- generator draws are arguments.
pub mod Forget
pub mod Window
pub mod Known
mod Tests
use rappel.Base.{
  ℕ, zero, suc, ◌+◌, ◌*◌, Bool, true, false, not, ◌&&◌, ◌||◌, List, [], ◌∷◌, ◌++◌, Option, none,
  some, length, get_elem?, ltb, leb, ◌==◌, if◌then◌else◌, Result, ok, failed, ◌>>=◌, ◌>>◌, assert,
  present, unknown_landmark, no_sample, unreachable, out_of_range, no_vivaldi, has_vivaldi,
  no_rappel, has_rappel, not_bootstrapped, bootstrapped, online, offline, bad_layer,
  unknown_event_flag, not_a_publisher,
}
use rappel.Base.Map.{Map, lookup, insert, erase, has}
use rappel.Base.Int.{ℤ, pos, ◌-ℤ◌, ltb_ℤ}
use rappel.Events.{minute, no_such_node}
use rappel.Neighbor.{max_ℤ}
use rappel.Messages.{Coordinate}

-- An entry of `_landmark_samples`; a latency is a `double`, here its bits.
pub record Samples : Type 0 where
  pub coord : Coordinate
  pub latencies : List ℕ

-- `_landmarks`, with the time at which each was last heard, and `_landmark_samples`.
pub record LandmarkSet : Type 0 where
  pub node_id : ℕ
  pub landmarks : Map ℤ
  pub samples : Map Samples

-- `get_all_landmarks`: the landmarks and how long ago they were heard.
unfoldable pub all_landmarks : ℤ → Map ℤ → List (ℕ × ℤ)
all_landmarks now [] = []
all_landmarks now ((landmark, heard) ∷ rest) = (landmark, now -ℤ heard) ∷ all_landmarks now rest

-- `get_sample_landmarks` takes the first of the landmarks, in the order into which
-- `random_shuffle` has put them, and drops the old ones of them.
abbrev pub first_elements {ℓ} : {A : Type ℓ} → ℕ → List A → List A
first_elements zero xs = []
first_elements (suc n) [] = []
first_elements (suc n) (x ∷ xs) = x ∷ first_elements n xs

unfoldable pub drop_old : List (ℕ × ℤ) → List (ℕ × ℤ)
drop_old [] = []
drop_old ((landmark, ago) ∷ rest) =
    let kept = drop_old rest in
    if ltb_ℤ (pos (10 * minute)) ago then kept else (landmark, ago) ∷ kept

unfoldable pub get_sample_landmarks :
    (List (ℕ × ℤ) → List (ℕ × ℤ)) → LandmarkSet → ℤ → ℕ → List (ℕ × ℤ)
get_sample_landmarks shuffled l now num_landmarks =
    drop_old (first_elements num_landmarks (shuffled (all_landmarks now l.landmarks)))

unfoldable pub get_landmark_coordinate : LandmarkSet → ℕ → Result Coordinate
get_landmark_coordinate l landmark = do
  s ← present (lookup landmark l.samples) unknown_landmark
  ok s.coord

-- `sort` and `samples[0]`: the least, by the `<` of `double`.
unfoldable pub least : (ℕ → ℕ → Bool) → ℕ → List ℕ → ℕ
least less x [] = x
least less x (y ∷ ys) = least less (if less y x then y else x) ys

-- -1 where it is only probed and there is no sample; `minus_one` has the bits of that `double`.
unfoldable pub get_filtered_landmark_measurement :
    (ℕ → ℕ → Bool) → ℕ → LandmarkSet → ℕ → Bool → Result ℕ
get_filtered_landmark_measurement less minus_one l landmark just_probing = do
  s ← present (lookup landmark l.samples) unknown_landmark
  elim s.latencies [
    | [] ↦ if just_probing then ok minus_one else failed no_sample
    | x ∷ xs ↦ ok (least less x xs)
  ]

-- The first loop of `get_random_landmark`: inactive landmarks are forgotten, but for the first.
abbrev pub is_forgotten : ℕ → ℤ → ℕ → ℤ → Bool
is_forgotten first_landmark now landmark heard =
    not (landmark == first_landmark) && ltb_ℤ (pos (20 * minute)) (now -ℤ heard)

unfoldable pub forget_loop : ℕ → ℤ → Map ℤ → Map ℤ → Map ℤ
forget_loop first_landmark now [] kept = kept
forget_loop first_landmark now ((landmark, heard) ∷ rest) kept =
    forget_loop first_landmark now rest
      (if is_forgotten first_landmark now landmark heard then erase landmark kept else kept)

-- The second loop: the landmark of the number drawn.
unfoldable pub pick_landmark : Map ℤ → ℕ → ℕ → Result ℕ
pick_landmark [] r counter = failed unreachable
pick_landmark ((landmark, heard) ∷ rest) r counter =
    let later = pick_landmark rest r (counter + 1) in if counter == r then ok landmark else later

-- `draw` is what the generator draws, from 0 to one less than the landmarks left.
unfoldable pub draw_landmark : LandmarkSet → Map ℤ → ℕ → Result (ℕ × LandmarkSet)
draw_landmark l [] draw = ok (no_such_node, l)
draw_landmark l (k ∷ ks) draw = pick_landmark (k ∷ ks) draw 0 >>= λ landmark. ok (landmark, l)

unfoldable pub get_random_landmark : ℕ → LandmarkSet → ℤ → ℕ → Result (ℕ × LandmarkSet)
get_random_landmark first_landmark l now draw =
    let kept = forget_loop first_landmark now l.landmarks l.landmarks in
    draw_landmark (record l { landmarks = kept }) kept draw

-- One round of `add_landmarks`; `new_nc` is what `Coordinate()` makes.
unfoldable pub heard_landmark : Coordinate → ℤ → LandmarkSet → ℕ → ℤ → LandmarkSet
heard_landmark new_nc now l landmark ago =
    let at : ℤ = elim (lookup landmark l.landmarks) [
      | none ↦ now -ℤ ago
      | some before ↦ max_ℤ before (now -ℤ ago)
    ] in
    let samples =
      if has landmark l.samples
      then l.samples
      else insert landmark (record { coord = new_nc; latencies = [] }) l.samples in
    if landmark == l.node_id
    then l
    else record l { landmarks = insert landmark at l.landmarks; samples = samples }

unfoldable pub add_landmarks : Coordinate → ℤ → LandmarkSet → List (ℕ × ℤ) → LandmarkSet
add_landmarks new_nc now l [] = l
add_landmarks new_nc now l ((landmark, ago) ∷ rest) =
    add_landmarks new_nc now (heard_landmark new_nc now l landmark ago) rest

unfoldable pub add_landmark : Coordinate → ℤ → LandmarkSet → ℕ → LandmarkSet
unfolding add_landmarks
add_landmark new_nc now l landmark = add_landmarks new_nc now l ((landmark, pos 0) ∷ [])

-- The window of the samples: the oldest goes when `globops.vivaldi_num_samples` are there.
-- `samples.erase(samples.begin())` of an empty vector is undefined.
abbrev pub tail_of : List ℕ → Result (List ℕ)
tail_of [] = failed out_of_range
tail_of (x ∷ xs) = ok xs

unfoldable pub add_sample : ℕ → List ℕ → ℕ → Result (List ℕ)
add_sample num_samples samples latency = do
  kept ← if length samples == num_samples then tail_of samples else ok samples
  ok (kept ++ latency ∷ [])

unfoldable pub add_landmark_measurement : ℕ → LandmarkSet → ℕ → ℕ → Coordinate → Result LandmarkSet
add_landmark_measurement num_samples l landmark latency coord = do
  s ← present (lookup landmark l.samples) unknown_landmark
  latencies ← add_sample num_samples s.latencies latency
  ok (record l {
    samples = insert landmark (record { coord = coord; latencies = latencies }) l.samples;
  })

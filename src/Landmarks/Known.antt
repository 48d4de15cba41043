-- ===== src/Landmarks/Known.antt =====
-- src/node.cpp: what `get_random_landmark` gives can be measured, whatever the node has done before.
use rappel.Base.{
  ℕ, ◌<◌, ◌≡◌, ◌≢◌, refl, sym, ◌∙◌, inl, inr, true, false, List, [], ◌∷◌, none, some, arith, length,
  ◌==◌, if◌then◌else◌, ==_refl, Bool-cases, Option-cases, ok, stages, present, unknown_landmark,
}
use rappel.Base.Map.{
  Map, lookup, insert, has, lookup-insert, lookup-insert_cases, has-insert, lookup_of_has,
}
use rappel.Base.Keys.{Sorted, insert-Sorted}
use rappel.Base.Int.{ℤ}
use rappel.Events.{no_such_node}
use rappel.Messages.{Coordinate}
use rappel.Landmarks.{
  LandmarkSet, Samples, forget_loop, heard_landmark, add_landmarks, get_random_landmark,
  pick_landmark, draw_landmark, get_landmark_coordinate, add_sample, add_landmark_measurement,
}
use rappel.Landmarks.Forget.{forget_loop-Sorted, lookup-left, draw_landmark_total}

-- The states that calls which return lead to.
pub data Reached (id : ℕ) : LandmarkSet → Type 0 where
  new : (l : LandmarkSet) → l ≡ record { node_id = id; landmarks = []; samples = [] } → Reached id l
  added :
      (l l' : LandmarkSet) (new_nc : Coordinate) (now : ℤ) (nodes : List (ℕ × ℤ))
      → Reached id l
      → add_landmarks new_nc now l nodes ≡ l'
      → Reached id l'
  asked :
      (l l' : LandmarkSet) (first_landmark : ℕ) (now : ℤ) (draw r : ℕ)
      → Reached id l
      → get_random_landmark first_landmark l now draw ≡ ok (r, l')
      → Reached id l'
  measured :
      (l l' : LandmarkSet) (num_samples landmark latency : ℕ) (coord : Coordinate)
      → Reached id l
      → add_landmark_measurement num_samples l landmark latency coord ≡ ok l'
      → Reached id l'

record Inv (id : ℕ) (l : LandmarkSet) : Type 0 where
  pub own : l.node_id ≡ id
  pub sorted : Sorted l.landmarks
  pub not_itself : lookup id l.landmarks ≡ none
  pub sampled : (j : ℕ) (h : ℤ) → lookup j l.landmarks ≡ some h → has j l.samples ≡ true

none_ne_some : {v : ℤ} → none ≢ some v
none_ne_some h = cc

-- `draw_landmark` leaves the landmarks alone.
same_after :
    (l l' : LandmarkSet) (r draw : ℕ) (m : Map ℤ) → draw_landmark l m draw ≡ ok (r, l') → l' ≡ l
unfolding draw_landmark
same_after l l' r draw [] e = cc
same_after l l' r draw (k ∷ ks) e =
    let (j, picked, h) = stages (pick_landmark (k ∷ ks) draw 0) (λ landmark. ok (landmark, l)) e in
    cc

has-added_self :
    (k : ℕ) (w : Samples) (s : Map Samples) → has k (if has k s then s else insert k w s) ≡ true
has-added_self k w s = elim (Bool-cases (has k s)) [
  | inl e ↦ rw (e, e) refl
  | inr e ↦ rw (e, has-insert k k w s, ==_refl k) refl
]

has-added_old :
    (k j : ℕ) (w : Samples) (s : Map Samples)
    → has j s ≡ true
    → has j (if has k s then s else insert k w s) ≡ true
has-added_old k j w s h = elim (Bool-cases (has k s)) [
  | inl e ↦ rw e h
  | inr e ↦ rw e (ground (arith, has-insert k j w s))
]

add_sample_total :
    (n latency : ℕ) (samples : List ℕ)
    → 0 < n
    → (xs : List ℕ) × (add_sample n samples latency ≡ ok xs)
unfolding add_sample
add_sample_total n latency [] h =
    let some_room : (0 == n) ≡ false = ground arith in rw some_room (latency ∷ [], refl)
add_sample_total n latency (x ∷ xs) h = elim (Bool-cases (length (x ∷ xs) == n)) [
  | inl e ↦ rw e (_, refl)
  | inr e ↦ rw e (_, refl)
]

read :
    (l : LandmarkSet) (j : ℕ) (s : Samples)
    → lookup j l.samples ≡ some s
    → get_landmark_coordinate l j ≡ ok s.coord
unfolding get_landmark_coordinate
read l j s e = rw e refl

accept :
    (l : LandmarkSet) (n j latency : ℕ) (nc : Coordinate) (s : Samples) (xs : List ℕ)
    → lookup j l.samples ≡ some s
    → add_sample n s.latencies latency ≡ ok xs
    → (l' : LandmarkSet) × (add_landmark_measurement n l j latency nc ≡ ok l')
unfolding add_landmark_measurement
accept l n j latency nc s xs e taken = rw (e, taken) (_, refl)

module _ (id : ℕ) where
  heard_landmark-Inv :
      (new_nc : Coordinate) (now : ℤ) (l : LandmarkSet) (landmark : ℕ) (ago : ℤ)
      → Inv id l
      → Inv id (heard_landmark new_nc now l landmark ago)
  unfolding heard_landmark
  heard_landmark-Inv new_nc now l landmark ago v = elim (Bool-cases (landmark == l.node_id)) [
    | inl itself ↦ rw itself v
    | inr other ↦ rw other (record {
      own = v.own;
      sorted = insert-Sorted landmark _ l.landmarks v.sorted;
      not_itself =
          let apart : (landmark == id) ≡ false = rw v.own at other in
          rw (lookup-insert landmark id _ l.landmarks, apart) v.not_itself;
      sampled = λ j h found. elim (lookup-insert_cases landmark j _ l.landmarks found) [
        | inl (here, same) ↦ rw here (has-added_self landmark _ l.samples)
        | inr (there, old) ↦ has-added_old landmark j _ l.samples (v.sampled j h old)
      ];
    })
  ]

  add_landmarks-Inv :
      (new_nc : Coordinate) (now : ℤ) (l : LandmarkSet) (nodes : List (ℕ × ℤ))
      → Inv id l
      → Inv id (add_landmarks new_nc now l nodes)
  unfolding add_landmarks
  add_landmarks-Inv new_nc now l [] v = v
  add_landmarks-Inv new_nc now l ((landmark, ago) ∷ rest) v =
      add_landmarks-Inv new_nc now (heard_landmark new_nc now l landmark ago) rest
        (heard_landmark-Inv new_nc now l landmark ago v)

  left-Inv :
      (first_landmark : ℕ) (now : ℤ) (l : LandmarkSet)
      → Inv id l
      → Inv id (record l { landmarks = forget_loop first_landmark now l.landmarks l.landmarks })
  left-Inv first_landmark now l v = record {
    own = v.own;
    sorted = forget_loop-Sorted first_landmark now l.landmarks l.landmarks v.sorted;
    not_itself = rw (lookup-left first_landmark now l v.sorted id, v.not_itself) refl;
    sampled = λ j h found. elim (Option-cases (lookup j l.landmarks)) [
      | inl e ↦
          absurd
            (none_ne_some (sym (lookup-left first_landmark now l v.sorted j ∙ rw e refl) ∙ found))
      | inr (h', e) ↦ v.sampled j h' e
    ];
  }

  asked-Inv :
      (l l' : LandmarkSet) (first_landmark : ℕ) (now : ℤ) (draw r : ℕ)
      → Inv id l
      → get_random_landmark first_landmark l now draw ≡ ok (r, l')
      → Inv id l'
  unfolding get_random_landmark
  asked-Inv l l' first_landmark now draw r v e =
      rw (same_after _ l' r draw (forget_loop first_landmark now l.landmarks l.landmarks) e)
        (left-Inv first_landmark now l v)

  measured-Inv :
      (l l' : LandmarkSet) (num_samples landmark latency : ℕ) (coord : Coordinate)
      → Inv id l
      → add_landmark_measurement num_samples l landmark latency coord ≡ ok l'
      → Inv id l'
  unfolding add_landmark_measurement
  measured-Inv l l' num_samples landmark latency coord v e =
      let (s, found, rest) = stages (present (lookup landmark l.samples) unknown_landmark) _ e in
      let (latencies, taken, last) = stages (add_sample num_samples s.latencies latency) _ rest in
      let w : Samples = record { coord = coord; latencies = latencies } in
      let same : record l { samples = insert landmark w l.samples } ≡ l' = cc in
      rw (← same) (record {
        own = v.own;
        sorted = v.sorted;
        not_itself = v.not_itself;
        sampled = λ j h at. ground (arith, has-insert landmark j w l.samples, v.sampled j h at);
      })

  Reached-Inv : (l : LandmarkSet) → Reached id l → Inv id l
  Reached-Inv l (Reached.new _ e) = rw e (record {
    own = refl;
    sorted = tt;
    not_itself = unfold lookup in refl;
    sampled = λ j h found. absurd (unfold lookup in none_ne_some found);
  })
  Reached-Inv l (Reached.added l₀ _ new_nc now nodes before e) =
      rw (← e) (add_landmarks-Inv new_nc now l₀ nodes (Reached-Inv l₀ before))
  Reached-Inv l (Reached.asked l₀ _ first_landmark now draw r before e) =
      asked-Inv l₀ l first_landmark now draw r (Reached-Inv l₀ before) e
  Reached-Inv l (Reached.measured l₀ _ n landmark latency coord before e) =
      measured-Inv l₀ l n landmark latency coord (Reached-Inv l₀ before) e

  -- In every state of the node: for a draw of the range that is asked for, what
  -- `get_random_landmark` gives is "no such node", or it is not the node itself, its coordinates
  -- can be read, and a measurement to it is accepted, if the window holds one sample at least.
  pub Reached-measurable :
      (l : LandmarkSet) (first_landmark : ℕ) (now : ℤ) (draw num_samples latency : ℕ)
      (nc : Coordinate)
      → Reached id l
      → (0 < length (forget_loop first_landmark now l.landmarks l.landmarks)
          → draw < length (forget_loop first_landmark now l.landmarks l.landmarks))
      → 0 < num_samples
      → (r : ℕ) × (l' : LandmarkSet) × (get_random_landmark first_landmark l now draw ≡ ok (r, l'))
        × (r ≢ no_such_node
            → (r ≢ id)
              × ((coord : Coordinate) × (get_landmark_coordinate l' r ≡ ok coord))
              × ((l'' : LandmarkSet) × (add_landmark_measurement num_samples l' r latency nc
                    ≡ ok l'')))
  unfolding get_random_landmark
  Reached-measurable l first_landmark now draw num_samples latency nc reached range pos_n =
      let v = Reached-Inv l reached in
      let kept = forget_loop first_landmark now l.landmarks l.landmarks in
      let l' : LandmarkSet = record l { landmarks = kept } in
      let v' = left-Inv first_landmark now l v in
      let (r, e, chosen) = draw_landmark_total l' kept draw v'.sorted range in
      (
        r,
        l',
        e,
        λ real. elim chosen [
          | inr (none_left, _) ↦ absurd (real none_left)
          | inl (heard, found) ↦
              let (s, known) = lookup_of_has r l.samples (v'.sampled r heard found) in
              (
                (λ itself. none_ne_some (sym v'.not_itself ∙ (rw itself at found))),
                (s.coord, read l' r s known),
                (let (xs, taken) = add_sample_total num_samples latency s.latencies pos_n in
                    accept l' num_samples r latency nc s xs known taken),
              )
        ],
      )

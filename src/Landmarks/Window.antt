-- ===== src/Landmarks/Window.antt =====
-- src/node.cpp: `add_landmark_measurement` keeps the last latencies that were measured to a landmark.
use rappel.Base.{
  ℕ, zero, suc, ◌+◌, ◌-◌, ◌<◌, ◌≤◌, ◌≡◌, inl, inr, refl, ap, ◌∙◌, true, false, List, [], ◌∷◌, ◌++◌,
  Option, some, arith, length, length-append, ltb, ◌==◌, if◌then◌else◌, ==_refl, Bool-cases, Result,
  ok, ◌>>=◌,
}
use rappel.Base.Map.{lookup, has, has-insert, lookup_of_has, lookup-insert_cases}
use rappel.Messages.{Coordinate}
use rappel.Landmarks.{LandmarkSet, Samples, add_sample, tail_of, add_landmark_measurement}

-- All that was ever measured, the oldest first, and the last `n` of it.
abbrev pub drop {ℓ} : {A : Type ℓ} → ℕ → List A → List A
drop zero xs = xs
drop (suc n) [] = []
drop (suc n) (x ∷ xs) = drop n xs

abbrev pub last_n : ℕ → List ℕ → List ℕ
last_n n xs = drop (length xs - n) xs

drop-append : (k : ℕ) (xs ys : List ℕ) → k ≤ length xs → drop k (xs ++ ys) ≡ drop k xs ++ ys
drop-append zero xs ys h = refl
drop-append (suc k) [] ys h = absurd (omega arith)
drop-append (suc k) (x ∷ xs) ys h = drop-append k xs ys (omega arith)

length-drop : (k : ℕ) (xs : List ℕ) → k ≤ length xs → length (drop k xs) + k ≡ length xs
length-drop zero xs h = omega arith
length-drop (suc k) [] h = absurd (omega arith)
length-drop (suc k) (x ∷ xs) h = omega (arith, length-drop k xs (omega arith))

-- One more dropped.
tail_of-drop : (k : ℕ) (xs : List ℕ) → k < length xs → tail_of (drop k xs) ≡ ok (drop (suc k) xs)
tail_of-drop k [] h = absurd (omega arith)
tail_of-drop zero (x ∷ xs) h = refl
tail_of-drop (suc k) (x ∷ xs) h = tail_of-drop k xs (omega arith)

add_sample-last_n :
    (n : ℕ) (all : List ℕ) (latency : ℕ)
    → 0 < n
    → add_sample n (last_n n all) latency ≡ ok (last_n n (all ++ latency ∷ []))
unfolding add_sample
add_sample-last_n n all latency pos_n = elim (Bool-cases (ltb (length all) n)) [
  | inl few ↦
      let z : length all - n ≡ 0 = ground arith in
      let z' : length (all ++ latency ∷ []) - n ≡ 0 =
        ground (arith, length-append all (latency ∷ [])) in
      let t : (length all == n) ≡ false = ground arith in rw (z, z', t) refl
  | inr full ↦
      let k = length all - n in
      let within : k < length all = ground arith in
      let t : (length (drop k all) == n) ≡ true = ground (arith, length-drop k all (omega arith)) in
      let e : length (all ++ latency ∷ []) - n ≡ suc k =
        ground (arith, length-append all (latency ∷ [])) in
      rw (t, e, tail_of-drop k all within, drop-append (suc k) all (latency ∷ []) (omega arith))
        refl
]

pub record Measurement : Type 0 where
  pub landmark : ℕ
  pub latency : ℕ
  pub coord : Coordinate

-- The abstract view: for each landmark all the latencies that were ever measured to it.
abbrev pub History : Type 0
History = ℕ → List ℕ

abbrev pub extended : History → Measurement → History
extended h m j = if m.landmark == j then h j ++ m.latency ∷ [] else h j

abbrev pub history_of : History → List Measurement → History
history_of h [] = h
history_of h (m ∷ ms) = history_of (extended h m) ms

abbrev pub coord_of : (ℕ → Option Coordinate) → List Measurement → ℕ → Option Coordinate
coord_of c [] j = c j
coord_of c (m ∷ ms) j = coord_of (λ i. if m.landmark == i then some m.coord else c i) ms j

-- The calls one after the other.
abbrev pub measure_all : ℕ → LandmarkSet → List Measurement → Result LandmarkSet
measure_all n l [] = ok l
measure_all n l (m ∷ ms) =
    add_landmark_measurement n l m.landmark m.latency m.coord >>= λ l'. measure_all n l' ms

-- The samples are the last `n` of the history, and the coordinates those that came last.
abbrev pub Represents : ℕ → History → (ℕ → Option Coordinate) → LandmarkSet → Type 0
Represents n h c l =
    (j : ℕ) (s : Samples)
    → lookup j l.samples ≡ some s
    → (s.latencies ≡ last_n n (h j)) × (some s.coord ≡ c j)

-- The landmark of each measurement has been added.
abbrev pub AllKnown : LandmarkSet → List Measurement → Type 0
AllKnown l [] = Unit
AllKnown l (m ∷ ms) = (has m.landmark l.samples ≡ true) × AllKnown l ms

module _ (n : ℕ) (pos_n : 0 < n) where
  measured :
      (h : History) (c : ℕ → Option Coordinate) (l : LandmarkSet) (m : Measurement)
      → Represents n h c l
      → has m.landmark l.samples ≡ true
      → (l' : LandmarkSet) × (add_landmark_measurement n l m.landmark m.latency m.coord ≡ ok l')
        × Represents n (extended h m) (λ i. if m.landmark == i then some m.coord else c i) l'
        × ((j : ℕ) → has j l.samples ≡ true → has j l'.samples ≡ true)
        × (l' ≡ record l { samples = l'.samples })
  unfolding add_landmark_measurement
  measured h c l m r known =
      let (s, e) = lookup_of_has m.landmark l.samples known in
      let added : add_sample n s.latencies m.latency
          ≡ ok (last_n n (h m.landmark ++ m.latency ∷ [])) =
        rw (r m.landmark s e).0 (add_sample-last_n n (h m.landmark) m.latency pos_n) in
      let w : Samples = record {
        coord = m.coord;
        latencies = last_n n (h m.landmark ++ m.latency ∷ []);
      } in
      rw (e, added)
        (
          _,
          refl,
          (λ j s' found. elim (lookup-insert_cases m.landmark j w l.samples found) [
            | inl (here, same) ↦ rw (here, same, ==_refl m.landmark) (refl, refl)
            | inr (other, old) ↦
                let t : (m.landmark == j) ≡ false = ground arith in rw t (r j s' old)
          ]),
          (λ j k. ground (arith, has-insert m.landmark j w l.samples)),
          refl,
        )

  known_after :
      (l l' : LandmarkSet) (ms : List Measurement)
      → ((j : ℕ) → has j l.samples ≡ true → has j l'.samples ≡ true)
      → AllKnown l ms
      → AllKnown l' ms
  known_after l l' [] keep k = tt
  known_after l l' (m ∷ ms) keep k = (keep m.landmark k.0, known_after l l' ms keep k.1)

  -- For a window of one sample at least: whatever latencies are measured, to landmarks that have
  -- been added, in whatever order, `add_landmark_measurement` never fails. Afterwards the samples
  -- of each landmark are the last ones, as many as the window holds, of all that were ever
  -- measured to it, in order, with the coordinates that came with the last; the landmarks are as
  -- they were.
  pub measure_all_lem :
      (h : History) (c : ℕ → Option Coordinate) (l : LandmarkSet) (ms : List Measurement)
      → Represents n h c l
      → AllKnown l ms
      → (l' : LandmarkSet) × (measure_all n l ms ≡ ok l')
        × Represents n (history_of h ms) (coord_of c ms) l'
        × (l'.landmarks ≡ l.landmarks)
  measure_all_lem h c l [] r k = (l, refl, r, refl)
  measure_all_lem h c l (m ∷ ms) r k =
      let (l₁, e₁, r₁, keep, same) = measured h c l m r k.0 in
      let (l₂, e₂, r₂, kept) =
        measure_all_lem (extended h m) (λ i. if m.landmark == i then some m.coord else c i) l₁ ms r₁
          (known_after l l₁ ms keep k.1) in
      (l₂, rw e₁ e₂, r₂, kept ∙ ap (λ (x : LandmarkSet). x.landmarks) same)

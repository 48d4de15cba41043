-- ===== src/Landmarks/Forget.antt =====
-- src/node.cpp: `get_random_landmark` forgets the inactive landmarks and gives one of the others.
use rappel.Base.{
  ℕ, ◌+◌, ◌<◌, ◌≤◌, ◌≡◌, ◌≢◌, refl, sym, ◌∙◌, ◌⊎◌, inl, inr, [], ◌∷◌, Option, none, some, arith,
  length, ◌==◌, if◌then◌else◌, ==_iff, ==_refl, Bool-cases, Option-cases, ok,
}
use rappel.Base.Map.{Map, lookup, erase, lookup-erase}
use rappel.Base.Keys.{Sorted, lookup-Above, erase-Sorted}
use rappel.Base.Int.{ℤ}
use rappel.Events.{no_such_node}
use rappel.Landmarks.{
  LandmarkSet, is_forgotten, forget_loop, pick_landmark, draw_landmark, get_random_landmark,
}

module _ (first_landmark : ℕ) (now : ℤ) where
  -- What is left of the entry of a landmark.
  abbrev pub remaining : ℕ → Option ℤ → Option ℤ
  remaining j none = none
  remaining j (some heard) = if is_forgotten first_landmark now j heard then none else some heard

  -- The landmarks that the call leaves.
  abbrev pub left : LandmarkSet → Map ℤ
  left l = forget_loop first_landmark now l.landmarks l.landmarks

  abbrev kept_of : ℕ → ℤ → Map ℤ → Map ℤ
  kept_of j heard kept = if is_forgotten first_landmark now j heard then erase j kept else kept

  abbrev or_kept : ℕ → Option ℤ → Option ℤ → Option ℤ
  or_kept j none o = o
  or_kept j (some heard) o = if is_forgotten first_landmark now j heard then none else o

  lookup-kept_of :
      (j k : ℕ) (heard : ℤ) (kept : Map ℤ)
      → lookup j (kept_of k heard kept)
        ≡ (if k == j then or_kept k (some heard) (lookup j kept) else lookup j kept)
  lookup-kept_of j k heard kept = elim (Bool-cases (is_forgotten first_landmark now k heard)) [
    | inl e ↦ rw e (lookup-erase k j kept)
    | inr e ↦ rw e (ground arith)
  ]

  lookup-forget_loop :
      (j : ℕ) (m kept : Map ℤ)
      → Sorted m
      → lookup j (forget_loop first_landmark now m kept) ≡ or_kept j (lookup j m) (lookup j kept)
  unfolding forget_loop lookup
  lookup-forget_loop j [] kept s = refl
  lookup-forget_loop j ((k, heard) ∷ m) kept s =
      lookup-forget_loop j m (kept_of k heard kept) s.1 ∙ elim (Bool-cases (k == j)) [
        | inr other ↦ rw (lookup-kept_of j k heard kept, other) refl
        | inl here ↦
            let same : k ≡ j = (==_iff k j).0 here in
            let gone : lookup j m ≡ none = rw (← same) (lookup-Above k m s.0) in
            rw (lookup-kept_of j k heard kept, here, gone, same) refl
      ]

  pub forget_loop-Sorted :
      (m kept : Map ℤ) → Sorted kept → Sorted (forget_loop first_landmark now m kept)
  unfolding forget_loop
  forget_loop-Sorted [] kept s = s
  forget_loop-Sorted ((k, heard) ∷ m) kept s =
      elim (Bool-cases (is_forgotten first_landmark now k heard)) [
        | inl e ↦ rw e (forget_loop-Sorted m (erase k kept) (erase-Sorted k kept s))
        | inr e ↦ rw e (forget_loop-Sorted m kept s)
      ]

none_ne_some : {v : ℤ} → none ≢ some v
none_ne_some h = cc

pick_landmark_in :
    (m : Map ℤ) (r counter : ℕ)
    → Sorted m
    → counter ≤ r
    → r < counter + length m
    → (j : ℕ) × (heard : ℤ) × (pick_landmark m r counter ≡ ok j) × (lookup j m ≡ some heard)
unfolding pick_landmark lookup
pick_landmark_in [] r counter s lo hi = absurd (omega arith)
pick_landmark_in ((k, heard) ∷ m) r counter s lo hi = elim (Bool-cases (counter == r)) [
  | inl here ↦ (k, heard, rw here refl, rw (==_refl k) refl)
  | inr more ↦
      let (j, h, e, l) = pick_landmark_in m r (counter + 1) s.1 (ground arith) (omega arith) in
      (
        j,
        h,
        rw more e,
        elim (Bool-cases (k == j)) [
          | inr other ↦ rw other l
          | inl same ↦
              let never : lookup k m ≡ some h = rw ((==_iff k j).0 same) l in
              absurd (none_ne_some (sym (lookup-Above k m s.0) ∙ never))
        ],
      )
]

-- Each entry is the one of some number.
pick_landmark_at :
    (m : Map ℤ) (j : ℕ) (heard : ℤ) (counter : ℕ)
    → lookup j m ≡ some heard
    → (i : ℕ) × (i < length m) × (pick_landmark m (counter + i) counter ≡ ok j)
unfolding pick_landmark lookup
pick_landmark_at [] j heard counter e = cc
pick_landmark_at ((k, v) ∷ m) j heard counter e = elim (Bool-cases (k == j)) [
  | inl here ↦ (0, omega arith, ground arith)
  | inr other ↦
      let (i, below, found) = pick_landmark_at m j heard (counter + 1) (rw other at e) in
      (i + 1, omega arith, ground (arith, found))
]

-- What is returned: a landmark that is left, or "no such node" if none is.
abbrev pub Chosen : ℕ → Map ℤ → Type 0
Chosen r kept = ((heard : ℤ) × (lookup r kept ≡ some heard)) ⊎ ((r ≡ no_such_node) × (kept ≡ []))

pub draw_landmark_total :
    (l : LandmarkSet) (m : Map ℤ) (draw : ℕ)
    → Sorted m
    → (0 < length m → draw < length m)
    → (r : ℕ) × (draw_landmark l m draw ≡ ok (r, l)) × Chosen r m
unfolding draw_landmark
draw_landmark_total l [] draw s h = (no_such_node, refl, inr (refl, refl))
draw_landmark_total l (k ∷ ks) draw s h =
    let (j, heard, e, found) =
      pick_landmark_in (k ∷ ks) draw 0 s (omega arith) (omega (arith, h (omega arith))) in
    (j, rw e refl, inl (heard, found))

draw_landmark_each :
    (l : LandmarkSet) (m : Map ℤ) (j : ℕ) (heard : ℤ)
    → lookup j m ≡ some heard
    → (draw : ℕ) × (draw < length m) × (draw_landmark l m draw ≡ ok (j, l))
unfolding draw_landmark lookup
draw_landmark_each l [] j heard e = cc
draw_landmark_each l (k ∷ ks) j heard e =
    let (draw, below, found) = pick_landmark_at (k ∷ ks) j heard 0 e in
    let same : 0 + draw ≡ draw = omega arith in
    let at : pick_landmark (k ∷ ks) draw 0 ≡ ok j = rw same at found in (draw, below, rw at refl)

-- What `get_random_landmark` returns: a landmark, and what it leaves. Each that it leaves is
-- returned for some draw.
abbrev pub Answer : ℕ → ℤ → LandmarkSet → ℕ → Type 0
Answer first_landmark now l draw =
    (r : ℕ) × (get_random_landmark first_landmark l now draw
      ≡ ok (r, record l { landmarks = left first_landmark now l }))
    × Chosen r (left first_landmark now l)
    × ((j : ℕ)
        → lookup j (left first_landmark now l)
          ≡ remaining first_landmark now j (lookup j l.landmarks))
    × ((j : ℕ) (heard : ℤ)
        → lookup j (left first_landmark now l) ≡ some heard
        → (other : ℕ) × (other < length (left first_landmark now l))
          × (get_random_landmark first_landmark l now other
              ≡ ok (j, record l { landmarks = left first_landmark now l })))

module _ (first_landmark : ℕ) (now : ℤ) (l : LandmarkSet) (sorted : Sorted l.landmarks) where
  pub lookup-left :
      (j : ℕ)
      → lookup j (left first_landmark now l) ≡ remaining first_landmark now j (lookup j l.landmarks)
  lookup-left j = elim (Option-cases (lookup j l.landmarks)) [
    | inl e ↦ lookup-forget_loop first_landmark now j l.landmarks l.landmarks sorted ∙ rw e refl
    | inr (h, e) ↦
        lookup-forget_loop first_landmark now j l.landmarks l.landmarks sorted ∙ rw e refl
  ]

  -- With a draw of the range that is asked for, `get_random_landmark` fails no assertion. It
  -- forgets exactly the landmarks, other than the first one, that were last heard more than 20
  -- minutes ago, and changes nothing else. It returns a landmark that is left, and "no such node"
  -- only if none is; and each landmark that is left is returned for some draw of the range.
  pub get_random_landmark_lem :
      (draw : ℕ)
      → (0 < length (left first_landmark now l) → draw < length (left first_landmark now l))
      → Answer first_landmark now l draw
  unfolding get_random_landmark
  get_random_landmark_lem draw h =
      let l' : LandmarkSet = record l { landmarks = left first_landmark now l } in
      let (r, e, chosen) =
        draw_landmark_total l' (left first_landmark now l) draw
          (forget_loop-Sorted first_landmark now l.landmarks l.landmarks sorted) h in
      (
        r,
        e,
        chosen,
        lookup-left,
        λ j heard found. draw_landmark_each l' (left first_landmark now l) j heard found,
      )

-- ===== src/Candidates/Add.antt =====
-- src/rappel.cpp: `add_candidate` keeps the candidates within their bound.
use rappel.Base.{
  ℕ, ◌+◌, ◌<◌, ◌≤◌, ◌≡◌, ◌≢◌, refl, ◌∙◌, ◌⊎◌, inl, inr, true, false, [], ◌∷◌, none, some, arith,
  length, ltb, leb, ◌==◌, ==_iff, ==_refl, Bool-cases, Option-cases, ok, failed, le→leb,
  too_few_candidates,
}
use rappel.Base.Map.{Map, lookup, insert, lookup-insert, lookup-insert_cases}
use rappel.Base.Keys.{insert-Sorted, length-insert_new, length-insert_old}
use rappel.Base.Int.{ℤ, ◌≤ℤ◌, leb_ℤ}
use rappel.Bloom.{BloomFilter}
use rappel.Messages.{Coordinate}
use rappel.Neighbor.{
  CandidatePeer, new_candidate, candidate_set_nc, candidate_set_bloom_filter, add_vote,
}
use rappel.Candidates.{
  candidates_to_remove, introduced, voted_again, remove_old_candidate, add_candidate,
}
use rappel.Candidates.Ages.{Named}
use rappel.Candidates.Evict.{IsMap, Evicted, lookup-Within, remove_old_candidate_lem}

insert-Named :
    (k : ℕ) (c : CandidatePeer) (m : Map CandidatePeer) → c.id ≡ k → Named m → Named (insert k c m)
unfolding insert
insert-Named k c [] e n = (e, tt)
insert-Named k c ((j, d) ∷ m) e n = ground (arith, insert-Named k c m e n.1)

-- No candidate was voted for later than `now`.
abbrev pub Voted : ℤ → Map CandidatePeer → Type 0
Voted now m = (j : ℕ) (c : CandidatePeer) → lookup j m ≡ some c → c.last_voted_at ≤ℤ now

-- The candidates of a node with the id `self`.
pub record Inv (self num_candidates : ℕ) (now : ℤ) (m : Map CandidatePeer) : Type 0 where
  pub is_map : IsMap m
  pub bounded : length m ≤ num_candidates
  pub voted : Voted now m
  pub not_itself : lookup self m ≡ none

introduced_lem :
    (p : Map CandidatePeer) (c : CandidatePeer)
    → ((introduced p c).id ≡ c.id) × ((introduced p c).last_voted_at ≡ c.last_voted_at)
unfolding candidate_set_nc candidate_set_bloom_filter
introduced_lem p c = elim (Option-cases (lookup c.id p)) [
  | inl e ↦ rw (e, introduced) (refl, refl)
  | inr (d, e) ↦ rw (e, introduced) (ground arith)
]

voted_again_lem :
    (c : CandidatePeer) (nc : Coordinate) (now : ℤ)
    → c.last_voted_at ≤ℤ now
    → (c' : CandidatePeer) × (voted_again c nc now ≡ ok c')
      × (c'.id ≡ c.id)
      × (c'.last_voted_at ≡ now)
unfolding candidate_set_nc add_vote
voted_again_lem c nc now h =
    let in_time : leb_ℤ c.last_voted_at now ≡ true = ground arith in
    elim (Bool-cases (ltb c.nc.version nc.version)) [
      | inl newer ↦ rw (newer, in_time) (_, refl, refl, refl)
      | inr older ↦ rw (older, in_time) (_, refl, refl, refl)
    ]

module _ (self num_candidates : ℕ) (empty_filter : BloomFilter)
    (protected_candidates : Map CandidatePeer) (m : Map CandidatePeer) (now : ℤ) (id : ℕ)
    (nc : Coordinate) where
  abbrev new : CandidatePeer
  new = introduced protected_candidates (new_candidate id nc now empty_filter)

  -- The candidate that the call is about is there, voted for now.
  abbrev pub Present : Map CandidatePeer → Type 0
  Present m' = (c : CandidatePeer) × (lookup id m' ≡ some c) × (c.last_voted_at ≡ now)

  inserted-Inv :
      (bound : ℕ) (c : CandidatePeer)
      → Inv self bound now m
      → (id == self) ≡ false
      → c.id ≡ id
      → c.last_voted_at ≡ now
      → length (insert id c m) ≤ bound
      → Inv self bound now (insert id c m)
  inserted-Inv bound c v other named at size = record {
    is_map = record {
      sorted = insert-Sorted id c m v.is_map.sorted;
      named = insert-Named id c m named v.is_map.named;
    };
    bounded = size;
    voted = λ j d found. elim (lookup-insert_cases id j c m found) [
      | inl (_, same) ↦ rw (same, at) (omega arith)
      | inr (_, old) ↦ v.voted j d old
    ];
    not_itself = rw (lookup-insert id self c m, other) v.not_itself;
  }

  others_kept : (c : CandidatePeer) (j : ℕ) → j ≢ id → lookup j (insert id c m) ≡ lookup j m
  others_kept c j h =
      let other : (id == j) ≡ false = ground arith in rw (lookup-insert id j c m, other) refl

  there_after : (c : CandidatePeer) → c.last_voted_at ≡ now → Present (insert id c m)
  there_after c at = (c, rw (lookup-insert id id c m, ==_refl id) refl, at)

  -- The node itself is passed over; a known candidate, or one for which there is room, is there
  -- with a vote of now, and the others as before; a new one without room comes in before the
  -- eviction.
  abbrev pub Outcome : Map CandidatePeer → Type 0
  Outcome m' =
      ((id ≡ self) × (m' ≡ m))
      ⊎ ((id ≢ self) × Present m' × ((j : ℕ) → j ≢ id → lookup j m' ≡ lookup j m))
      ⊎ ((lookup id m ≡ none) × (length m ≡ num_candidates) × Evicted (insert id new m) m')

  apart : (id == self) ≡ false → id ≢ self
  apart other h = ground arith

  new_lem : (new.id ≡ id) × (new.last_voted_at ≡ now)
  new_lem = introduced_lem protected_candidates (new_candidate id nc now empty_filter)

  abbrev Added : Type 0
  Added =
      (m' : Map CandidatePeer) × (add_candidate self num_candidates empty_filter
          protected_candidates m now id nc
        ≡ ok m')
      × Inv self num_candidates now m'
      × Outcome m'

  passed_over : Inv self num_candidates now m → (id == self) ≡ true → Added
  unfolding add_candidate
  passed_over v itself = rw itself (m, refl, v, inl ((==_iff id self).0 itself, refl))

  still_absent :
      (m₁ m' : Map CandidatePeer) → Evicted m₁ m' → lookup self m₁ ≡ none → lookup self m' ≡ none
  still_absent m₁ m' evicted absent = elim (Option-cases (lookup self m')) [
    | inl e ↦ e
    | inr (c, e) ↦ let never = evicted.kept self c e in cc
  ]

  again :
      Inv self num_candidates now m
      → (id == self) ≡ false
      → (c : CandidatePeer) → lookup id m ≡ some c
      → Added
  unfolding add_candidate
  again v other c found =
      let (c', e, named, at) = voted_again_lem c nc now (v.voted id c found) in
      let m' = insert id c' m in
      let same : length m' ≡ length m = length-insert_old id c' c m v.is_map.sorted found in
      let i : c'.id ≡ id = named ∙ (lookup-Within m id c v.is_map.named found).1 in
      let v' = inserted-Inv num_candidates c' v other i at (omega (arith, v.bounded)) in
      let size : leb (length m') num_candidates ≡ true = le→leb _ _ v'.bounded in
      rw (other, found, e, size)
        (m', refl, v', inr (inl ((λ h. apart other h), there_after c' at, others_kept c')))

  joined :
      Inv self num_candidates now m
      → (id == self) ≡ false
      → lookup id m ≡ none
      → ltb (length m) num_candidates ≡ true
      → Added
  unfolding add_candidate
  joined v other unknown room =
      let m' = insert id new m in
      let size : length m' ≡ length m + 1 = length-insert_new id new m unknown in
      let v' = inserted-Inv num_candidates new v other new_lem.0 new_lem.1 (ground arith) in
      let checked : leb (length m') num_candidates ≡ true = le→leb _ _ v'.bounded in
      rw (other, unknown, room, checked)
        (m', refl, v', inr (inl ((λ h. apart other h), there_after new new_lem.1, others_kept new)))

  replaced :
      Inv self num_candidates now m
      → (id == self) ≡ false
      → lookup id m ≡ none
      → ltb (length m) num_candidates ≡ false
      → candidates_to_remove ≤ num_candidates
      → Added
  unfolding add_candidate
  replaced v other unknown full many =
      let m₁ = insert id new m in
      let size : length m₁ ≡ length m + 1 = length-insert_new id new m unknown in
      let at_bound : length m ≡ num_candidates = ground (arith, v.bounded) in
      let w : Inv self (num_candidates + 1) now m = record {
        is_map = v.is_map;
        bounded = omega (arith, v.bounded);
        voted = v.voted;
        not_itself = v.not_itself;
      } in
      let v₁ = inserted-Inv (num_candidates + 1) new w other new_lem.0 new_lem.1 (omega arith) in
      let (m', e, evicted, map') = remove_old_candidate_lem m₁ v₁.is_map (omega arith) in
      let small : length m' ≤ num_candidates = omega (arith, evicted.ten) in
      let checked : leb (length m') num_candidates ≡ true = le→leb _ _ small in
      rw (other, unknown, full, e, checked)
        (
          m',
          refl,
          record {
            is_map = map';
            bounded = small;
            voted = λ j c found. v₁.voted j c (evicted.kept j c found);
            not_itself = still_absent m₁ m' evicted v₁.not_itself;
          },
          inr (inr (refl, at_bound, evicted)),
        )

  -- With room for ten candidates at least, `add_candidate` on sound candidates fails no assertion,
  -- that the vote is not before the last one and that the bound holds included, and they stay
  -- sound: no more than the bound, none voted for later than now, never the node itself. The node
  -- itself is passed over. A candidate that is known, or for which there is room, is there with a
  -- vote of now, and every other one is as it was. For a new one without room, ten candidates of
  -- the map with the new one go, none of them voted for after one that stays.
  pub add_candidate_lem :
      Inv self num_candidates now m → candidates_to_remove ≤ num_candidates → Added
  add_candidate_lem v many = elim (Bool-cases (id == self)) [
    | inl itself ↦ passed_over v itself
    | inr other ↦ elim (Option-cases (lookup id m)) [
      | inr (c, found) ↦ again v other c found
      | inl unknown ↦ elim (Bool-cases (ltb (length m) num_candidates)) [
        | inl room ↦ joined v other unknown room
        | inr full ↦ replaced v other unknown full many
      ]
    ]
  ]

  -- With a bound below ten, which no option forbids, the first new candidate without room fails
  -- the assertion that there are more than ten.
  pub add_candidate_fails :
      Inv self num_candidates now m
      → id ≢ self
      → lookup id m ≡ none
      → length m ≡ num_candidates
      → num_candidates < candidates_to_remove
      → add_candidate self num_candidates empty_filter protected_candidates m now id nc
        ≡ failed too_few_candidates
  unfolding add_candidate remove_old_candidate
  add_candidate_fails v other unknown full few =
      let size : length (insert id new m) ≡ length m + 1 = length-insert_new id new m unknown in
      let t : (id == self) ≡ false = ground arith in
      let no_room : ltb (length m) num_candidates ≡ false = ground arith in
      let short : ltb candidates_to_remove (length (insert id new m)) ≡ false = ground arith in
      rw (t, unknown, no_room, short) refl

-- ===== src/Candidates/Popular.antt =====
-- src/rappel.cpp: the candidate that is audited next.
use rappel.Base.{
  ℕ, ◌≤◌, ◌<◌, ◌≡◌, refl, ◌⊎◌, inl, inr, true, false, List, [], ◌∷◌, some, arith, length, ◌==◌,
  if◌then◌else◌, Bool-cases, ok, get_elem?_below, contains-get_elem?,
}
use rappel.Base.Map.{Map, lookup, insert, lookup-insert}
use rappel.Events.{no_such_node}
use rappel.Neighbor.{Neighbor, CandidatePeer}
use rappel.Candidates.{audited_as, popular_loop, pick_one, most_popular_candidate}
use rappel.Candidates.Best.{Entry, is_open, Sound, Best, popular_loop-Best}

-- Each id is in the map once.
abbrev pub Once : Map CandidatePeer → Type 0
Once candidates =
    (id : ℕ) (c : CandidatePeer) → Entry (id, c) candidates → lookup id candidates ≡ some c

-- A number that the generator may draw for the candidates found.
abbrev pub Drawn : Map Neighbor → Map CandidatePeer → ℕ → Type 0
Drawn peers candidates draw =
    (ids : List ℕ) (votes : ℕ)
    → popular_loop peers candidates ([], 0) ≡ ok (ids, votes)
    → 0 < length ids
    → draw < length ids

-- What `most_popular_candidate` gives.
abbrev pub Outcome : Map Neighbor → Map CandidatePeer → ℕ → Type 0
Outcome peers candidates draw =
    ((most_popular_candidate peers candidates draw ≡ ok (no_such_node, candidates))
      × ((e : ℕ × CandidatePeer) → Entry e candidates → is_open peers e ≡ false))
    ⊎ ((id : ℕ) × (c : CandidatePeer) × (candidates' : Map CandidatePeer) × (most_popular_candidate
            peers candidates draw
          ≡ ok (id, candidates'))
        × Entry (id, c) candidates
        × (is_open peers (id, c) ≡ true)
        × ((e : ℕ × CandidatePeer)
            → Entry e candidates
            → is_open peers e ≡ true
            → e.1.num_votes ≤ c.num_votes)
        × ((k : ℕ)
            → lookup k candidates'
              ≡ (if id == k then some (audited_as true c) else lookup k candidates)))

module _ (peers : Map Neighbor) (candidates : Map CandidatePeer) (draw : ℕ) (sound : Sound peers)
    (once : Once candidates) where
  finish :
      (ids : List ℕ) (votes : ℕ)
      → popular_loop peers candidates ([], 0) ≡ ok (ids, votes)
      → (0 < length ids → draw < length ids)
      → Best peers sound (λ x. Entry x candidates ⊎ ⊥) (ids, votes)
      → Outcome peers candidates draw
  unfolding most_popular_candidate pick_one
  finish [] votes e range b = inl (
    rw e refl,
    λ x s. elim (Bool-cases (is_open peers x)) [
      | inl o ↦ absurd (omega (arith, (b.covers x (inl s) o).1))
      | inr shut ↦ shut
    ],
  )
  finish (i ∷ is) votes e range b =
      let (id, at) = get_elem?_below (i ∷ is) draw (range (omega arith)) in
      let (c, s, o, v) = b.chosen id (contains-get_elem? (i ∷ is) draw id at) in
      let s' : Entry (id, c) candidates = elim s [ inl h ↦ h | inr h ↦ absurd h ] in
      inr (
        id,
        c,
        insert id (audited_as true c) candidates,
        rw (e, at, once id c s') refl,
        s',
        o,
        (λ x s₁ o₁. omega (arith, (b.covers x (inl s₁) o₁).0, v)),
        λ k. lookup-insert id k (audited_as true c) candidates,
      )

-- With sound peers, and a draw of the range that is asked for, `most_popular_candidate` fails no
-- assertion. Either no candidate is open, that is neither audited nor a friend, and it returns
-- "no such node" and changes nothing; or it returns an open candidate with no fewer votes than
-- any other open one, which is now audited, the other entries unchanged.
pub most_popular_candidate_lem :
    (peers : Map Neighbor) (candidates : Map CandidatePeer) (draw : ℕ)
    → Sound peers
    → Once candidates
    → Drawn peers candidates draw
    → Outcome peers candidates draw
most_popular_candidate_lem peers candidates draw sound once drawn =
    let start : Best peers sound (λ x. ⊥) ([], 0) = record {
      covers = λ x s o. absurd s;
      filled = λ h. absurd (omega arith);
      chosen = λ i m. cc;
    } in
    let ((ids, votes), e, b) = popular_loop-Best peers sound (λ x. ⊥) candidates ([], 0) start in
    finish peers candidates draw sound once ids votes e (λ h. drawn ids votes e h) b

-- ===== src/Candidates/Tests.antt =====
-- Four candidates: 5 is a friend already, 8 has been audited, 6 and 7 have the same votes.
use rappel.Base.{
  subst, Bool-cases, ℕ, ◌≡◌, refl, ap, [], ◌∷◌, true, arith, ok, inl, inr, length, ◌==◌, some,
  failed, too_few_candidates,
}
use rappel.Base.Map.{Map, lookup, erase}
use rappel.Base.Int.{pos, ◌≤ℤ◌}
use rappel.Messages.{Coordinate}
use rappel.Bloom.{BloomFilter}
use rappel.Neighbor.{Neighbor, friend_role, new_role, plays_role, CandidatePeer, new_candidate}
use rappel.Neighbor.Roles.{Inv}
use rappel.Candidates.{
  popular_loop, peer_plays_role, remove_old_candidate, oldest_loop, push_age, erase_loop,
  add_candidate,
}
use rappel.Candidates.Evict.{IsMap, Evicted, remove_old_candidate_lem}
use rappel.Candidates.Add as Add
use rappel.Candidates.Add.{add_candidate_lem, add_candidate_fails}
use rappel.Candidates.Best.{Sound}
use rappel.Candidates.Popular.{Once, Drawn, Outcome, most_popular_candidate_lem}

abbrev nowhere : Coordinate
nowhere = record { app_coords = []; version = 1 }

abbrev no_feeds : BloomFilter
no_feeds = record { hash_table = 0 ∷ []; table_size = 1; version = 1 }

abbrev friend : Neighbor
friend = record {
  node_id = 1;
  nbr_id = 5;
  filter = no_feeds;
  nc = nowhere;
  last_heard_from = pos 5;
  roles = new_role friend_role (pos 5) ∷ [];
  node_check_event_id = 9;
}

abbrev peers : Map Neighbor
peers = (5, friend) ∷ []

abbrev voted : ℕ → ℕ → CandidatePeer
voted id votes = record (new_candidate id nowhere (pos 3) no_feeds) { num_votes = votes }

abbrev candidates : Map CandidatePeer
candidates =
    (5, voted 5 9)
    ∷ (6, voted 6 4)
    ∷ (7, voted 7 4)
    ∷ (8, record (voted 8 9) { audited = true })
    ∷ []

friend-Inv : Inv friend
friend-Inv = record { some_role = refl; checked = omega arith; once = (refl, tt) }

peers-Sound : Sound peers
unfolding lookup
peers-Sound id n e = elim (Bool-cases (5 == id)) [
  | inl h ↦ let same : friend ≡ n = let e' = rw h at e in cc in subst Inv same friend-Inv
  | inr h ↦ let never = rw h at e in absurd (ground arith)
]

candidates-Once : Once candidates
unfolding lookup
candidates-Once id c e = elim e [
  | inl s ↦ rw (ap (λ (x : ℕ × CandidatePeer). x.0) s, ap (λ (x : ℕ × CandidatePeer). x.1) s) refl
  | inr e₁ ↦ elim e₁ [
    | inl s ↦ rw (ap (λ (x : ℕ × CandidatePeer). x.0) s, ap (λ (x : ℕ × CandidatePeer). x.1) s) refl
    | inr e₂ ↦ elim e₂ [
      | inl s ↦
          rw (ap (λ (x : ℕ × CandidatePeer). x.0) s, ap (λ (x : ℕ × CandidatePeer). x.1) s) refl
      | inr e₃ ↦ elim e₃ [
        | inl s ↦
            rw (ap (λ (x : ℕ × CandidatePeer). x.0) s, ap (λ (x : ℕ × CandidatePeer). x.1) s) refl
        | inr h ↦ absurd h
      ]
    ]
  ]
]

found : popular_loop peers candidates ([], 0) ≡ ok (6 ∷ 7 ∷ [], 4)
unfolding popular_loop peer_plays_role plays_role lookup
found = refl

second-Drawn : Drawn peers candidates 1
second-Drawn ids votes e h = let is : ids ≡ 6 ∷ 7 ∷ [] = cc (found) in omega (arith, ap length is)

most_popular_candidate_lem_example : Outcome peers candidates 1
most_popular_candidate_lem_example =
    most_popular_candidate_lem peers candidates 1 peers-Sound candidates-Once second-Drawn

-- Ten candidates, voted for one after the other.
abbrev aged : ℕ → ℕ → CandidatePeer
aged id time = record (new_candidate id nowhere (pos time) no_feeds) { num_votes = 2 }

abbrev ten : Map CandidatePeer
ten =
    (10, aged 10 5)
    ∷ (11, aged 11 4)
    ∷ (12, aged 12 9)
    ∷ (13, aged 13 3)
    ∷ (14, aged 14 2)
    ∷ (15, aged 15 6)
    ∷ (16, aged 16 6)
    ∷ (17, aged 17 1)
    ∷ (18, aged 18 7)
    ∷ (19, aged 19 8)
    ∷ []

abbrev eleven : Map CandidatePeer
eleven = (9, aged 9 2) ∷ ten

eleven-IsMap : IsMap eleven
eleven-IsMap = record { sorted = omega arith; named = omega arith }

-- The one that was voted for last stays.
remove_old_candidate_runs : remove_old_candidate eleven ≡ ok ((12, aged 12 9) ∷ [])
unfolding remove_old_candidate oldest_loop push_age erase_loop lookup erase
remove_old_candidate_runs = refl

remove_old_candidate_example :
    (m' : Map CandidatePeer) × (remove_old_candidate eleven ≡ ok m') × Evicted eleven m' × IsMap m'
remove_old_candidate_example = remove_old_candidate_lem eleven eleven-IsMap (omega arith)

ten-Inv : Add.Inv 1 10 (pos 9) ten
ten-Inv = record {
  is_map = record { sorted = omega arith; named = omega arith };
  bounded = omega arith;
  voted = λ j c e. voted_ten j c e;
  not_itself = unfold lookup in refl;
}
  where
    voted_ten : (j : ℕ) (c : CandidatePeer) → lookup j ten ≡ some c → c.last_voted_at ≤ℤ pos 9
    voted_ten j c e = unfold lookup in ground (arith, e)

add_candidate_example :
    (m' : Map CandidatePeer) × (add_candidate 1 10 no_feeds [] ten (pos 9) 30 nowhere ≡ ok m')
    × Add.Inv 1 10 (pos 9) m'
    × Add.Outcome 1 10 no_feeds [] ten (pos 9) 30 nowhere m'
add_candidate_example =
    add_candidate_lem 1 10 no_feeds [] ten (pos 9) 30 nowhere ten-Inv (omega arith)

add_candidate_fails_example :
    add_candidate 1 1 no_feeds [] ((9, aged 9 2) ∷ []) (pos 9) 30 nowhere
    ≡ failed too_few_candidates
add_candidate_fails_example =
    add_candidate_fails 1 1 no_feeds [] ((9, aged 9 2) ∷ []) (pos 9) 30 nowhere one-Inv
      (omega arith) (unfold lookup in refl) refl (omega arith)
  where
    one-Inv : Add.Inv 1 1 (pos 9) ((9, aged 9 2) ∷ [])
    one-Inv = record {
      is_map = record { sorted = omega arith; named = omega arith };
      bounded = omega arith;
      voted = λ j c e. unfold lookup in ground (arith, e);
      not_itself = unfold lookup in refl;
    }

-- ===== src/Candidates.antt =====
-- src/rappel.cpp: the candidates for friendship that a node audits one after the other, the most
-- popular first, and the eviction of the candidates that were voted for least recently. A draw of
-- the random numbers and the time of the call are arguments.
pub mod Best
pub mod Popular
pub mod Queued
pub mod Ages
pub mod Evict
pub mod Add
mod Tests
use rappel.Base.{
  ℕ, zero, suc, Bool, true, false, List, [], ◌∷◌, ◌++◌, Option, none, some, get_elem?, ltb, ◌==◌,
  if◌then◌else◌, Result, ok, failed, ◌>>=◌, present, out_of_range, unreachable, ◌>>◌, assert,
  length, ◌||◌, leb, too_few_candidates, too_many_candidates,
}
use rappel.Base.Map.{Map, lookup, insert, erase}
use rappel.Base.Int.{ℤ, ltb_ℤ}
use rappel.Bloom.{BloomFilter}
use rappel.Messages.{Coordinate}
use rappel.Events.{no_such_node}
use rappel.Neighbor.{
  Neighbor, Role, friend_role, plays_role, CandidatePeer, new_candidate, candidate_set_nc,
  candidate_set_bloom_filter, add_vote,
}

-- `_peers` and `_candidates`.
unfoldable pub peer_plays_role : Map Neighbor → ℕ → Role → Result Bool
peer_plays_role peers peer_id role = elim (lookup peer_id peers) [
  | none ↦ ok false
  | some peer ↦ plays_role peer role
]

-- `set_audited` and `unset_audited`.
abbrev pub audited_as : Bool → CandidatePeer → CandidatePeer
audited_as b c = record c { audited = b }

unfoldable pub invalidate_candidate : Map CandidatePeer → ℕ → Map CandidatePeer
invalidate_candidate candidates node_id = elim (lookup node_id candidates) [
  | none ↦ candidates
  | some c ↦ insert node_id (audited_as false c) candidates
]

unfoldable pub invalidate_all_candidates : Map CandidatePeer → Map CandidatePeer
invalidate_all_candidates [] = []
invalidate_all_candidates ((id, c) ∷ rest) =
    (id, audited_as false c) ∷ invalidate_all_candidates rest

-- One round of the loop: the most popular candidates so far, and their votes. An audited
-- candidate is passed over like a friend, without a look at the roles.
abbrev pub more_popular : List ℕ × ℕ → ℕ → ℕ → List ℕ × ℕ
more_popular (ids, max_votes) id votes =
    if ltb max_votes votes
    then (id ∷ [], votes)
    else if votes == max_votes
    then (ids ++ id ∷ [], max_votes)
    else (ids, max_votes)

unfoldable pub popular_loop : Map Neighbor → Map CandidatePeer → List ℕ × ℕ → Result (List ℕ × ℕ)
popular_loop peers [] best = ok best
popular_loop peers ((id, c) ∷ rest) best = do
  passed ← if c.audited then ok true else peer_plays_role peers id friend_role
  popular_loop peers rest (if passed then best else more_popular best id c.num_votes)

-- What is done with the candidates found.
unfoldable pub pick_one : Map CandidatePeer → ℕ → List ℕ → Result (ℕ × Map CandidatePeer)
pick_one candidates draw [] = ok (no_such_node, candidates)
pick_one candidates draw (id ∷ ids) = do
  candidate ← present (get_elem? (id ∷ ids) draw) out_of_range
  c ← present (lookup candidate candidates) unreachable
  ok (candidate, insert candidate (audited_as true c) candidates)

unfoldable pub most_popular_candidate :
    Map Neighbor → Map CandidatePeer → ℕ → Result (ℕ × Map CandidatePeer)
most_popular_candidate peers candidates draw = do
  best ← popular_loop peers candidates ([], 0)
  pick_one candidates draw best.0

-- `class CandidateAge`.
pub record CandidateAge : Type 0 where
  pub id : ℕ
  pub age : ℤ

abbrev pub age_of : CandidatePeer → CandidateAge
age_of c = record { id = c.id; age = c.last_voted_at }

abbrev pub candidates_to_remove : ℕ
candidates_to_remove = 10

-- The `priority_queue` of ages, the greatest first. Which of equal ages is on top the standard
-- leaves open; here it is the last one pushed.
unfoldable pub push_age : CandidateAge → List CandidateAge → List CandidateAge
push_age e [] = e ∷ []
push_age e (t ∷ q) = if ltb_ℤ e.age t.age then t ∷ push_age e q else e ∷ t ∷ q

abbrev pub pop_age : List CandidateAge → List CandidateAge
pop_age [] = []
pop_age (t ∷ q) = q

-- `age < oldest_candidates.top().age`. The source reads the top of an empty queue, which is
-- undefined; what it reads does not matter there.
abbrev pub is_below_top : ℤ → List CandidateAge → Bool
is_below_top age [] = false
is_below_top age (t ∷ q) = ltb_ℤ age t.age

abbrev pub considered : CandidateAge → List CandidateAge → List CandidateAge
considered e q =
    if ltb (length q) candidates_to_remove || is_below_top e.age q
    then push_age e (if leb candidates_to_remove (length q) then pop_age q else q)
    else q

unfoldable pub oldest_loop : Map CandidatePeer → List CandidateAge → List CandidateAge
oldest_loop [] q = q
oldest_loop ((id, c) ∷ rest) q = oldest_loop rest (considered (age_of c) q)

unfoldable pub erase_loop : List CandidateAge → Map CandidatePeer → Result (Map CandidatePeer)
erase_loop [] candidates = ok candidates
erase_loop (e ∷ q) candidates = do
  c ← present (lookup e.id candidates) unreachable
  erase_loop q (erase e.id candidates)

unfoldable pub remove_old_candidate : Map CandidatePeer → Result (Map CandidatePeer)
remove_old_candidate candidates = do
  assert (ltb candidates_to_remove (length candidates)) too_few_candidates
  let oldest = oldest_loop candidates []
  assert (length oldest == candidates_to_remove) too_few_candidates
  erase_loop oldest candidates

-- What is known already of a new candidate, where it is a protected one.
abbrev pub introduced : Map CandidatePeer → CandidatePeer → CandidatePeer
introduced protected_candidates c = elim (lookup c.id protected_candidates) [
  | none ↦ c
  | some p ↦ (candidate_set_bloom_filter (candidate_set_nc c p.nc).1 p.filter).1
]

-- A vote for an old candidate.
abbrev pub voted_again : CandidatePeer → Coordinate → ℤ → Result CandidatePeer
voted_again c nc now =
    let r = candidate_set_nc c nc in add_vote (if r.0 then audited_as false r.1 else r.1) now

-- `self` is the node's own id, `num_candidates` is `globops.rappel_num_candidates`, and
-- `empty_filter` what `BloomFilter()` makes.
module _ (self num_candidates : ℕ) (empty_filter : BloomFilter)
    (protected_candidates : Map CandidatePeer) where
  unfoldable pub add_candidate : Map CandidatePeer → ℤ → ℕ → Coordinate → Result (Map CandidatePeer)
  add_candidate candidates now node_id nc =
      let new = introduced protected_candidates (new_candidate node_id nc now empty_filter) in
      let added = insert node_id new candidates in
      let again =
        λ (c : CandidatePeer). (do c' ← voted_again c nc now; ok (insert node_id c' candidates)) in
      let made_room =
        (if ltb (length candidates) num_candidates then ok added else remove_old_candidate added) in
      let changed : Result (Map CandidatePeer) = elim (lookup node_id candidates) [
        | none ↦ made_room
        | some c ↦ again c
      ] in
      let checked = (do
        candidates' ← changed
        assert (leb (length candidates') num_candidates) too_many_candidates
        ok candidates') in
      if node_id == self then ok candidates else checked

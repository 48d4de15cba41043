-- ===== src/Rappel/Peers/Partings.antt =====
-- src/rappel.cpp: what a friend takes along when it leaves its role.
use rappel.Base.{
  ℕ, zero, suc, ◌+◌, ◌-◌, ◌<◌, ◌≤◌, ◌≡◌, refl, ap, ◌∙◌, sym, inl, inr, false, List, [], ◌∷◌, ◌++◌,
  some, none, arith, length, ltb, ◌==◌, ==_iff, if◌then◌else◌, Bool-cases, Option-cases, ok,
  contains, erase_first, Distinct, contains-erase_first, contains-erase_first_ne,
}
use rappel.Base.Map.{Map, lookup, insert}
use rappel.Neighbor.{
  Neighbor, friend_role, CandidatePeer, candidate_set_nc, candidate_set_bloom_filter, finds,
}
use rappel.Messages.{Coordinate}
use rappel.Bloom.{BloomFilter}
use rappel.Candidates.{peer_plays_role}
use rappel.Rappel.{Rappel, key_at, get_candidate_list, update_bloom_filter}
use rappel.Rappel.Peers.Known.{is_friend, Known, known_plays, unknown_plays}

-- The generator draws in the range that it is asked for.
abbrev pub InRange : (ℕ → ℕ → ℕ → ℕ) → Type 0
InRange rand = (n low high : ℕ) → low ≤ high → rand n low high ≤ high

key_at_below : {V : Type 0} (m : Map V) (n : ℕ) → n < length m → (k : ℕ) × (key_at m n ≡ some k)
key_at_below [] n h = absurd (omega arith)
key_at_below ((k, v) ∷ m) zero h = (k, refl)
key_at_below ((k, v) ∷ m) (suc n) h = key_at_below m n (omega arith)

-- The candidates that a message tells of, and one draw if there are any.
pub candidate_list :
    {Queue : Type 0} (rand : ℕ → ℕ → ℕ → ℕ) (r : Rappel Queue)
    → InRange rand
    → (ids : List ℕ) × (draws : ℕ) × (get_candidate_list rand r
        ≡ ok (ids, record r { draws = draws }))
unfolding get_candidate_list
candidate_list rand r in_range = elim (Bool-cases (ltb 0 (length r.candidates))) [
  | inr none_left ↦ (r.friends, r.draws, rw none_left refl)
  | inl some_left ↦
      let n = rand r.draws 0 (length r.candidates - 1) in
      let (k, e) = key_at_below r.candidates n (
        let h = in_range r.draws 0 (length r.candidates - 1) (omega arith) in
        ground (arith, some_left, h)) in
      (r.friends ++ k ∷ [], r.draws + 1, rw (some_left, e) refl)
]

pub no_friend_plays :
    {peers : Map Neighbor} {friends : List ℕ} (v : Known peers friends) (id : ℕ)
    → contains friends id ≡ false
    → peer_plays_role peers id friend_role ≡ ok false
no_friend_plays {peers} v id out = elim (Option-cases (lookup id peers)) [
  | inl absent ↦ unknown_plays peers id friend_role absent
  | inr (n, at) ↦
      let none_such : finds friend_role n.roles ≡ false =
        rw (is_friend, at) at (sym (v.agree id) ∙ out) in
      known_plays peers id friend_role at (v.sound id n at) ∙ ap ok none_such
]

-- A candidate that is not a peer takes the filter and the coordinates.
pub update_candidate :
    {Queue : Type 0} (r : Rappel Queue) (id : ℕ) (f : BloomFilter) (nc : Coordinate)
    (c : CandidatePeer)
    → lookup id r.peers ≡ none
    → lookup id r.candidates ≡ some c
    → update_bloom_filter r id f nc false
      ≡ ok (record r {
        candidates =
            insert id (candidate_set_nc (candidate_set_bloom_filter c f).1 nc).1 r.candidates;
      })
unfolding update_bloom_filter
update_candidate r id f nc c gone at = rw (update_bloom_filter, gone, at) refl

pub erased :
    (friends : List ℕ) (id k : ℕ)
    → Distinct friends
    → contains (erase_first friends id) k ≡ (if id == k then false else contains friends k)
erased friends id k once = elim (Bool-cases (id == k)) [
  | inl here ↦
      let e : id ≡ k = (==_iff id k).0 here in rw (here, ← e) (contains-erase_first friends id once)
  | inr there ↦ rw there (contains-erase_first_ne friends id k (λ e. ground (arith, there, e)))
]

-- ===== src/Rappel.antt =====
-- src/rappel.cpp and include/rappel.h: the protocol of a node, on top of its peers, its candidates
-- for friendship and its feeds. This file has the state and what the handlers share; `Utility`,
-- `Audit`, `Peers` and `Friends` have the friend set, `Targets` the choice of the node to join at.
-- `rand` gives the numbers that the generator draws, one after the other, in the range asked for.
pub mod Utility
pub mod Audit
pub mod Targets
pub mod Peers
pub mod Friends
pub mod Joins
pub mod Updates
pub mod Fixture
mod Tests
use rappel.Base.{
  ℕ, zero, suc, ◌+◌, ◌-◌, Bool, true, false, not, ◌&&◌, List, [], ◌∷◌, ◌++◌, Option, none, some,
  length, ltb, leb, ◌==◌, if◌then◌else◌, Result, ok, failed, ◌>>=◌, ◌>>◌, assert, present,
  not_online, is_pending, unknown_filter, out_of_range, not_auditing,
}
use rappel.Base.Map.{Map, lookup, insert, erase, has}
use rappel.Base.Int.{ℤ, pos}
use rappel.Events.{Event, EventData, ProtocolEvent, protocol, application, no_such_node}
use rappel.Messages.{Coordinate, Message, MessageData, Outbox}
use rappel.Bloom.{BloomFilter, new_filter}
use rappel.Neighbor.{
  Neighbor, set_bloom_filter, set_nc, CandidatePeer, candidate_set_nc, candidate_set_bloom_filter,
}
use rappel.Candidates as Candidates
use rappel.Feed.{Feed}
use rappel.Timer.{Timer, schedule_event}
use rappel.Timer.Queue.{EventQueue}

-- `globops.rappel_friend_set_utility_depends_on`, a text.
pub data UtilityMode : Type 0 where
  network_alone interest_alone interest_alone_with_bonus both both_with_interest_bonus : UtilityMode

-- The fields of `globops` that are read here. `utility_delta` and `utility_k` are doubles.
pub record Options : Type 0 where
  pub num_friends : ℕ
  pub num_fans : ℕ
  pub num_candidates : ℕ
  pub reply_timeout : ℕ
  pub keep_alive_interval : ℕ
  pub heart_beat_interval : ℕ
  pub feed_rejoin_interval : ℕ
  pub num_feed_children : ℕ
  pub bloom_size : ℕ
  pub bloom_hash_funcs : ℕ
  pub utility_mode : UtilityMode
  pub utility_delta : ℕ
  pub utility_k : ℕ

-- The fields of a node's `Rappel` that the modelled handlers read, with the node's id, coordinates
-- and whether it is online, the timer, the messages sent, and the count of the draws.
pub record Rappel (Queue : Type 0) : Type 0 where
  pub node_id : ℕ
  pub nc : Coordinate
  pub is_online : Bool
  pub filter : BloomFilter
  pub feed_set : Map Feed
  pub peers : Map Neighbor
  pub friends : List ℕ
  pub candidates : Map CandidatePeer
  pub protected_candidates : Map CandidatePeer
  pub fans : Map ℤ
  pub currently_auditing : ℕ
  pub num_audits : ℕ
  pub pending_events : Map Bool
  pub timer : Timer Queue
  pub sent : Outbox
  pub draws : ℕ

-- The key after so many steps of the iterator.
abbrev pub key_at {ℓ} : {V : Type ℓ} → Map V → ℕ → Option ℕ
key_at [] n = none
key_at ((k, v) ∷ m) zero = some k
key_at ((k, v) ∷ m) (suc n) = key_at m n

module _ {Queue : Type 0} where
  -- Versions and filters of a node that is a peer, a candidate or a protected candidate, looked
  -- for in this order.
  unfoldable pub find_filter : Rappel Queue → ℕ → Option BloomFilter
  find_filter r node_id =
      let in_protected : Option BloomFilter = elim (lookup node_id r.protected_candidates) [
        | none ↦ none
        | some c ↦ some c.filter
      ] in
      let in_candidates : Option BloomFilter = elim (lookup node_id r.candidates) [
        | none ↦ in_protected
        | some c ↦ some c.filter
      ] in
      elim (lookup node_id r.peers) [ none ↦ in_candidates | some n ↦ some n.filter ]

  unfoldable pub know_bloom_filter : Rappel Queue → ℕ → Bool
  know_bloom_filter r node_id = elim (find_filter r node_id) [
    | none ↦ false
    | some f ↦ ltb 0 f.version
  ]

  unfoldable pub get_bloom_filter : Rappel Queue → ℕ → Result BloomFilter
  get_bloom_filter r node_id = present (find_filter r node_id) unknown_filter

  unfoldable pub bloom_filter_version : Rappel Queue → ℕ → Result ℕ
  bloom_filter_version r node_id = get_bloom_filter r node_id >>= λ f. ok f.version

  unfoldable pub find_nc : Rappel Queue → ℕ → Option Coordinate
  find_nc r node_id =
      let in_protected : Option Coordinate = elim (lookup node_id r.protected_candidates) [
        | none ↦ none
        | some c ↦ some c.nc
      ] in
      let in_candidates : Option Coordinate = elim (lookup node_id r.candidates) [
        | none ↦ in_protected
        | some c ↦ some c.nc
      ] in
      elim (lookup node_id r.peers) [ none ↦ in_candidates | some n ↦ some n.nc ]

  unfoldable pub know_nc : Rappel Queue → ℕ → Bool
  know_nc r node_id = elim (find_nc r node_id) [ none ↦ false | some nc ↦ ltb 0 nc.version ]

  unfoldable pub get_nc : Rappel Queue → ℕ → Result Coordinate
  get_nc r node_id = present (find_nc r node_id) unknown_filter

  unfoldable pub update_bloom_filter :
      Rappel Queue → ℕ → BloomFilter → Coordinate → Bool → Result (Rappel Queue)
  update_bloom_filter r node_id filter nc while_auditing =
      let of_candidate : Result (Rappel Queue) = elim (lookup node_id r.candidates) [
        | none ↦ assert (not while_auditing) not_auditing >> ok r
        | some c ↦
            let c' = (candidate_set_nc (candidate_set_bloom_filter c filter).1 nc).1 in
            ok (record r { candidates = insert node_id c' r.candidates })
      ] in
      elim (lookup node_id r.peers) [
        | none ↦ of_candidate
        | some n ↦
            let n' = (set_nc (set_bloom_filter n filter).1 nc).1 in
            ok (record r { peers = insert node_id n' r.peers })
      ]

  unfoldable pub invalidate_candidate : Rappel Queue → ℕ → Rappel Queue
  unfolding Candidates.invalidate_candidate
  invalidate_candidate r node_id = record r {
    candidates = Candidates.invalidate_candidate r.candidates node_id;
  }

  unfoldable pub safe_send : Rappel Queue → ℕ → MessageData → Result (Rappel Queue)
  safe_send r dst content = do
    assert r.is_online not_online
    let msg : Message = record {
      src = r.node_id;
      dst = dst;
      layer = application;
      content = content;
    }
    ok (record r { sent = r.sent ++ msg ∷ [] })

  module _ (rand : ℕ → ℕ → ℕ → ℕ) where
    unfoldable pub get_candidate_list : Rappel Queue → Result (List ℕ × Rappel Queue)
    get_candidate_list r =
        let lucky = (do
          let n = rand r.draws 0 (length r.candidates - 1)
          candidate ← present (key_at r.candidates n) out_of_range
          ok (r.friends ++ candidate ∷ [], record r { draws = r.draws + 1 })) in
        if ltb 0 (length r.candidates) then lucky else ok (r.friends, r)

    unfoldable pub most_popular_candidate : Rappel Queue → Result (ℕ × Rappel Queue)
    most_popular_candidate r = do
      best ← Candidates.popular_loop r.peers r.candidates ([], 0)
      let n = length best.0
      p ← Candidates.pick_one r.candidates (rand r.draws 0 (n - 1)) best.0
      ok (p.0, record r { candidates = p.1; draws = if ltb 0 n then r.draws + 1 else r.draws })

  -- `add_candidate` for one node, and for those that a message tells of, whose coordinates are
  -- not known: `Coordinate()` has version 0.
  module _ (o : Options) where
    unfoldable pub add_candidate : Rappel Queue → ℕ → Coordinate → Result (Rappel Queue)
    add_candidate r node_id nc = do
      candidates ←
          Candidates.add_candidate r.node_id o.num_candidates (new_filter o.bloom_size)
            r.protected_candidates r.candidates r.timer.time node_id nc
      ok (record r { candidates = candidates })

    unfoldable pub add_candidates : Coordinate → Rappel Queue → List ℕ → Result (Rappel Queue)
    add_candidates dummy r [] = ok r
    add_candidates dummy r (id ∷ ids) = do
      r' ← add_candidate r id dummy
      add_candidates dummy r' ids

-- The timer of a request: its event is pending until it comes, or is cancelled by the reply.
unfoldable pub schedule_wait :
    (pq : EventQueue)
    → Options
    → Rappel (pq.Queue)
    → ProtocolEvent
    → EventData
    → Result (ℕ × Rappel (pq.Queue))
schedule_wait pq o r flag payload = do
  let event : Event = record {
    id = 0;
    whence = pos o.reply_timeout;
    node_id = r.node_id;
    layer = application;
    flag = protocol flag;
    payload = some payload;
  }
  s ← schedule_event pq r.timer event
  assert (not (has s.0 r.pending_events)) is_pending
  ok (s.0, record r { timer = s.1; pending_events = insert s.0 true r.pending_events })

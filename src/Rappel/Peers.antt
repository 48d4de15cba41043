-- ===== src/Rappel/Peers.antt =====
-- src/rappel.cpp: the peers of a node and the roles that they play, as a friend or as the parent or
-- a child in the tree of a feed. `Befriend` and `Dismiss` have what holds of
-- the friends and the peers.
pub mod Known
pub mod Befriend
pub mod Partings
pub mod Dismiss
use rappel.Base.{
  ℕ, zero, suc, ◌+◌, ◌-◌, ◌*◌, ◌/◌, Bool, true, false, not, ◌&&◌, ◌||◌, List, [], ◌∷◌, ◌++◌, Option,
  none, some, length, contains, erase_first, ◌==◌, if◌then◌else◌, Result, ok, failed, ◌>>=◌, ◌>>◌,
  assert, present, unknown_peer, unknown_friend, unknown_feed, unknown_role, known_role, bad_role,
}
use rappel.Base.Map.{Map, lookup, insert, erase, has}
use rappel.Events.{no_such_node, minute}
use rappel.Messages.{Coordinate, remove_friend, rejoin_due_to_lost_parent}
use rappel.Bloom.{BloomFilter}
use rappel.Coordinate.{Doubles}
use rappel.Neighbor.{
  Neighbor, Role, RoleType, role_none, role_friend, role_feed_parent, role_feed_child, new_neighbor,
  add_role, remove_role, set_bloom_filter, set_nc, get_roles,
}
use rappel.Candidates.{peer_plays_role, invalidate_all_candidates}
use rappel.Feed.{Feed}
use rappel.Feed.Tree.{
  get_parent, get_grand_parent, set_parent, unset_parent, add_child, remove_child,
  reschedule_rejoin,
}
use rappel.Timer.Queue.{EventQueue}
use rappel.Rappel.{
  Rappel, Options, update_bloom_filter, invalidate_candidate, safe_send, get_candidate_list,
}
use rappel.Random.{rand_ulonglong}
use rappel.Rappel.Audit.{audit}
use rappel.Rappel.Targets.{initiate_feed_join_req}

-- `RappelInstruction`, the flags that the callers give.
pub record Instruction : Type 0 where
  pub invoke_fault_handler : Bool
  pub dont_send_remove_msg : Bool

-- `~(instruction & DONT_SEND_REMOVE_MSG)`, an `int` of 32 bits as a truth value.
abbrev pub send_remove_msg : Instruction → Bool
send_remove_msg i =
    let masked = if i.dont_send_remove_msg then 16 else 0 in not (4294967295 - masked == 0)

module _ (pq : EventQueue) (o : Options) (rand : ℕ → ℕ → ℕ → ℕ) where
  -- The number that `schedule_rejoin` draws; an own feed has no rejoin and draws none.
  abbrev pub rejoin_draw : Rappel (pq.Queue) → Bool → ℕ
  rejoin_draw r initial_rejoin =
      rand_ulonglong
        (rand r.draws 0 (if initial_rejoin then o.feed_rejoin_interval else 2 * minute))

  abbrev pub drawn : Feed → ℕ → ℕ
  drawn feed n = if feed.owner == feed.id then n else n + 1

  -- The tasks of a new role.
  unfoldable pub take_role : Rappel (pq.Queue) → ℕ → Role → Result (Rappel (pq.Queue))
  take_role r peer_id role = elim (role.role_type) [
    | role_none ↦ failed bad_role
    | role_friend ↦ ok (record r {
      friends = r.friends ++ peer_id ∷ [];
      candidates = invalidate_all_candidates r.candidates;
    })
    | role_feed_parent ↦ do
      feed ← present (lookup role.feed_id r.feed_set) unknown_feed
      let initial = feed.parent == no_such_node
      s ← set_parent pq o.feed_rejoin_interval (rejoin_draw r initial) feed r.timer peer_id
      ok (record r {
        feed_set = insert role.feed_id s.0 r.feed_set;
        timer = s.1;
        draws = drawn feed r.draws;
      })
    | role_feed_child ↦ do
      feed ← present (lookup role.feed_id r.feed_set) unknown_feed
      feed' ← add_child o.num_feed_children feed peer_id
      ok (record r { feed_set = insert role.feed_id feed' r.feed_set })
  ]

  -- The role is entered, and the last assertion.
  unfoldable pub enter_role : Rappel (pq.Queue) → ℕ → Role → Result (Rappel (pq.Queue))
  enter_role r peer_id role = do
    r' ← take_role r peer_id role
    plays ← peer_plays_role r'.peers peer_id role
    assert plays unknown_role
    ok r'

  -- A peer that is present: its filter and coordinates, and the role if it is new.
  unfoldable pub add_known_peer :
      Rappel (pq.Queue)
      → Neighbor
      → ℕ
      → Coordinate
      → Role
      → BloomFilter
      → Result (Rappel (pq.Queue))
  add_known_peer r peer peer_id nc role filter =
      let f = set_bloom_filter peer filter in
      let n = set_nc f.1 nc in
      let r₁ = record r { peers = insert peer_id n.1 r.peers } in
      let r₂ = if f.0 || n.0 then invalidate_candidate r₁ peer_id else r₁ in
      let entered = (do
        n' ← add_role n.1 r.timer.time role
        enter_role (record r₂ { peers = insert peer_id n' r₂.peers }) peer_id role) in
      do plays ← peer_plays_role r₂.peers peer_id role; if plays then ok r₂ else entered

  unfoldable pub add_new_peer :
      Rappel (pq.Queue) → ℕ → Coordinate → Role → BloomFilter → Result (Rappel (pq.Queue))
  add_new_peer r peer_id nc role filter = do
    let draw = rand r.draws (o.heart_beat_interval / 8) (7 * o.heart_beat_interval / 8)
    n ← new_neighbor pq r.timer draw r.node_id peer_id nc role filter
    enter_role (record r { peers = insert peer_id n.0 r.peers; timer = n.1; draws = r.draws + 1 })
        peer_id role

  unfoldable pub add_peer_with_role :
      Rappel (pq.Queue) → ℕ → Coordinate → Role → BloomFilter → Result (Rappel (pq.Queue))
  add_peer_with_role r peer_id nc role filter = elim (lookup peer_id r.peers) [
    | none ↦ add_new_peer r peer_id nc role filter
    | some peer ↦ add_known_peer r peer peer_id nc role filter
  ]

  -- The role leaves the peer, and the peer the list when it was its last. A candidate then gets
  -- the filter and the coordinates that the peer had.
  unfoldable pub drop_role : Rappel (pq.Queue) → ℕ → Role → Result (Rappel (pq.Queue))
  drop_role r peer_id role = do
    peer ← present (lookup peer_id r.peers) unknown_peer
    n ← remove_role pq peer r.timer role
    let r₁ = record r { timer = n.2 }
    let gone = record r₁ { peers = erase peer_id r.peers }
    let last =
        if has peer_id r.candidates
        then update_bloom_filter gone peer_id peer.filter peer.nc false
        else ok gone
    if n.0 then last else ok (record r₁ { peers = insert peer_id n.1 r.peers })

  module _ (hash_funcs : List (List ℕ → ℕ)) (str : ℕ → List ℕ) (d : Doubles) where
    -- What follows for a friend, a parent and a child.
    unfoldable pub drop_friend : Rappel (pq.Queue) → ℕ → Instruction → Result (Rappel (pq.Queue))
    drop_friend r peer_id instruction = do
      assert (contains r.friends peer_id) unknown_friend
      let r₁ = record r { friends = erase_first r.friends peer_id }
      let told = (do c ← get_candidate_list rand r₁; safe_send c.1 peer_id (remove_friend c.0))
      r₂ ← if send_remove_msg instruction then told else ok r₁
      let audited =
          audit pq o rand d (record r₂ { candidates = invalidate_all_candidates r₂.candidates })
      if instruction.invoke_fault_handler then audited else ok r₂

    unfoldable pub drop_parent :
        Rappel (pq.Queue) → ℕ → ℕ → Instruction → Result (Rappel (pq.Queue))
    drop_parent r peer_id feed_id instruction = do
      feed ← present (lookup feed_id r.feed_set) unknown_feed
      old_parent ← get_parent feed
      let of_publisher = old_parent == feed.id
      grand_parent ← if of_publisher then ok no_such_node else get_grand_parent feed
      feed' ← unset_parent feed
      let r₁ = record r { feed_set = insert feed_id feed' r.feed_set }
      let pinged = (do
        s ← reschedule_rejoin pq o.feed_rejoin_interval (rejoin_draw r₁ false) feed' r₁.timer false
        ok (record r₁ {
          feed_set = insert feed_id s.0 r₁.feed_set;
          timer = s.1;
          draws = drawn feed' r₁.draws;
        }))
      let joined =
          initiate_feed_join_req hash_funcs str d o pq rand r₁ feed_id [] (peer_id ∷ [])
            grand_parent rejoin_due_to_lost_parent
      let handled = if of_publisher then pinged else joined
      if instruction.invoke_fault_handler then handled else ok r₁

    unfoldable pub drop_child : Rappel (pq.Queue) → ℕ → ℕ → Result (Rappel (pq.Queue))
    drop_child r peer_id feed_id = do
      feed ← present (lookup feed_id r.feed_set) unknown_feed
      feed' ← remove_child feed peer_id
      ok (record r { feed_set = insert feed_id feed' r.feed_set })

    unfoldable pub remove_peer_from_role :
        Rappel (pq.Queue) → ℕ → Role → Instruction → Result (Rappel (pq.Queue))
    remove_peer_from_role r peer_id role instruction = do
      r₁ ← drop_role r peer_id role
      r₂ ← elim (role.role_type) as (λ _. Result (Rappel (pq.Queue))) [
        | role_none ↦ failed bad_role
        | role_friend ↦ drop_friend r₁ peer_id instruction
        | role_feed_parent ↦ drop_parent r₁ peer_id role.feed_id instruction
        | role_feed_child ↦ drop_child r₁ peer_id role.feed_id
      ]
      plays ← peer_plays_role r₂.peers peer_id role
      assert (not plays) known_role
      ok r₂

    abbrev faulty : Instruction
    faulty = record { invoke_fault_handler = true; dont_send_remove_msg = false }

    unfoldable pub remove_from_roles :
        ℕ → List Role → Rappel (pq.Queue) → Result (Rappel (pq.Queue))
    remove_from_roles peer_id [] r = ok r
    remove_from_roles peer_id (role ∷ roles) r = do
      r' ← remove_peer_from_role r peer_id role faulty
      remove_from_roles peer_id roles r'

    unfoldable pub peer_has_failed : Rappel (pq.Queue) → ℕ → Result (Rappel (pq.Queue))
    peer_has_failed r peer_id = elim (lookup peer_id r.peers) [
      | none ↦ ok r
      | some nbr ↦ do
        r' ← remove_from_roles peer_id (get_roles nbr) r
        assert (not (has peer_id r'.peers)) unknown_peer
        ok r'
    ]

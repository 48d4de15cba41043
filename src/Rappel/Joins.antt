-- ===== src/Rappel/Joins.antt =====
-- src/rappel.cpp: what a node does when a request to join is denied or not answered, when a child has
-- left, and when a ping is not answered. `Requests`, `Handlers` and `Rounds` are about the
-- requests that follow each other.
pub mod Requests
mod Alive
mod Handlers
pub mod Rounds
mod Tests
use rappel.Base.{
  ℕ, Bool, true, false, not, ◌&&◌, ◌||◌, List, [], ◌∷◌, ◌++◌, Option, none, some, contains, ◌==◌,
  if◌then◌else◌, Result, ok, failed, ◌>>=◌, ◌>>◌, assert, present, not_pending, unknown_feed,
  no_target, no_version, ltb,
}
use rappel.Base.Map.{Map, lookup, insert, erase, has}
use rappel.Events.{no_such_node}
use rappel.Messages.{Coordinate, JoinType}
use rappel.Coordinate.{Doubles}
use rappel.Neighbor.{Neighbor, Role, role_feed_child}
use rappel.Candidates.{peer_plays_role}
use rappel.Feed.{Feed, set_publisher_nc}
use rappel.Feed.Tree.{has_parent, is_rejoin_scheduled, reschedule_rejoin}
use rappel.Timer.{cancel_event}
use rappel.Timer.Queue.{EventQueue}
use rappel.Rappel.{Rappel, Options, add_candidate, add_candidates}
use rappel.Rappel.Targets.{initiate_feed_join_req}
use rappel.Rappel.Peers.{Instruction, rejoin_draw, drawn, remove_peer_from_role, peer_has_failed}

-- A node is put among those that have failed, once.
unfoldable pub with_failed : List ℕ → ℕ → List ℕ
with_failed failed_nodes node =
    if contains failed_nodes node then failed_nodes else failed_nodes ++ node ∷ []

abbrev pub change_feed : {Queue : Type 0} → Rappel Queue → ℕ → Feed → Rappel Queue
change_feed r feed_id feed = record r { feed_set = insert feed_id feed r.feed_set }

-- `dummy` is `Coordinate()`.
module _ (o : Options) (rand : ℕ → ℕ → ℕ → ℕ) (dummy : Coordinate) (pq : EventQueue) (d : Doubles)
    (hash_funcs : List (List ℕ → ℕ)) (str : ℕ → List ℕ) where
  -- The part of both handlers that asks another node.
  abbrev pub join_again :
      Rappel (pq.Queue) → ℕ → Map ℕ → List ℕ → ℕ → JoinType → Result (Rappel (pq.Queue))
  join_again r feed_id attempted failed_nodes node request_type =
      initiate_feed_join_req hash_funcs str d o pq rand r feed_id attempted
        (with_failed failed_nodes node) no_such_node request_type

  -- `publisher_nc` is there if it is attached.
  unfoldable pub receive_feed_join_reply_deny :
      Rappel (pq.Queue)
      → ℕ
      → Coordinate
      → ℕ
      → List ℕ
      → ℕ
      → Option Coordinate
      → JoinType
      → Map ℕ
      → List ℕ
      → Result (Rappel (pq.Queue))
  receive_feed_join_reply_deny r src sender_coord wait_for_timer candidates feed_id publisher_nc
        request_type attempted failed_nodes =
      let cancelled = cancel_event pq r.timer wait_for_timer in
      let denied = (do
        r₁ ← add_candidate o (record r { timer = cancelled.1 }) src sender_coord
        r₂ ← add_candidates o dummy r₁ candidates
        feed ← present (lookup feed_id r₂.feed_set) unknown_feed
        told ← elim publisher_nc [
          | none ↦ ok feed
          | some nc ↦ do
            let told : Feed = (set_publisher_nc feed nc).1
            assert (ltb 0 told.publisher_nc.version) no_version
            ok told
        ]
        let r₃ = change_feed r₂ feed_id (record told { seeking_parent = false })
        r₄ ←
            if has_parent feed
            then ok r₃
            else join_again r₃ feed_id attempted failed_nodes src request_type
        feed' ← present (lookup feed_id r₄.feed_set) unknown_feed
        assert (has_parent feed' || feed'.seeking_parent || is_rejoin_scheduled feed') no_target
        ok r₄) in
      if cancelled.0 then denied else ok r

  unfoldable pub ask_another :
      Rappel (pq.Queue) → ℕ → Map ℕ → List ℕ → ℕ → JoinType → Result (Rappel (pq.Queue))
  ask_another r feed_id attempted failed_nodes neighbor request_type = do
    r' ← join_again r feed_id attempted failed_nodes neighbor request_type
    feed ← present (lookup feed_id r'.feed_set) unknown_feed
    assert feed.seeking_parent no_target
    ok r'

  unfoldable pub ping_publisher : Rappel (pq.Queue) → ℕ → Result (Rappel (pq.Queue))
  ping_publisher r feed_id = do
    feed ← present (lookup feed_id r.feed_set) unknown_feed
    s ←
        reschedule_rejoin pq o.feed_rejoin_interval (rejoin_draw pq o rand r false) feed r.timer
          false
    ok (record r {
      feed_set = insert feed_id s.0 r.feed_set;
      timer = s.1;
      draws = drawn pq o rand feed r.draws;
    })

  unfoldable pub timer_wait_after_feed_join_req :
      Rappel (pq.Queue) → ℕ → ℕ → JoinType → ℕ → Map ℕ → List ℕ → Result (Rappel (pq.Queue))
  timer_wait_after_feed_join_req r event_id feed_id request_type neighbor attempted failed_nodes =
      do
        assert (has event_id r.pending_events) not_pending
        feed ← present (lookup feed_id r.feed_set) unknown_feed
        let r₁ =
            change_feed (record r { pending_events = erase event_id r.pending_events }) feed_id
              (record feed { seeking_parent = false })
        r₂ ←
            if not (has_parent feed) && not (neighbor == feed.id)
            then ask_another r₁ feed_id attempted failed_nodes neighbor request_type
            else ok r₁
        r₃ ← if neighbor == feed.id then ping_publisher r₂ feed_id else ok r₂
        peer_has_failed pq o rand hash_funcs str d r₃ neighbor

  abbrev pub quiet : Instruction
  quiet = record { invoke_fault_handler = false; dont_send_remove_msg = false }

  unfoldable pub receive_feed_no_longer_your_child :
      Rappel (pq.Queue) → ℕ → Coordinate → ℕ → Coordinate → Result (Rappel (pq.Queue))
  receive_feed_no_longer_your_child r src sender_coord feed_id publisher_nc = do
    r₁ ← add_candidate o r src sender_coord
    assert (has feed_id r₁.feed_set) unknown_feed
    let role : Role = record { role_type = role_feed_child; feed_id = feed_id }
    plays ← peer_plays_role r₁.peers src role
    r₂ ← if plays then remove_peer_from_role pq o rand hash_funcs str d r₁ src role quiet else ok r₁
    feed ← present (lookup feed_id r₂.feed_set) unknown_feed
    ok (change_feed r₂ feed_id (set_publisher_nc feed publisher_nc).1)

  -- The peer has failed if it still plays one of the roles that the ping was about.
  unfoldable pub plays_one : Map Neighbor → ℕ → List Role → Result Bool
  plays_one peers id [] = ok false
  plays_one peers id (role ∷ roles) = do
    plays ← peer_plays_role peers id role
    if plays then ok true else plays_one peers id roles

  unfoldable pub timer_wait_after_ping_req :
      Rappel (pq.Queue) → ℕ → ℕ → List Role → Result (Rappel (pq.Queue))
  timer_wait_after_ping_req r event_id neighbor roles = do
    assert (has event_id r.pending_events) not_pending
    let r₁ = record r { pending_events = erase event_id r.pending_events }
    plays ← plays_one r₁.peers neighbor roles
    if plays then peer_has_failed pq o rand hash_funcs str d r₁ neighbor else ok r₁

-- ===== src/Rappel/Targets.antt =====
-- src/rappel.cpp: `initiate_feed_join_req`, which asks one node after the other to be the parent in the
-- tree of a feed, and the choice of the node that is asked.
pub mod Least
pub mod Choice
pub mod Alive
use rappel.Base.{
  ℕ, zero, suc, ◌+◌, Bool, true, false, not, ◌&&◌, ◌||◌, List, [], ◌∷◌, ◌++◌, Option, none, some,
  length, ltb, leb, contains, ◌==◌, if◌then◌else◌, Result, ok, failed, ◌>>=◌, ◌>>◌, assert, present,
  out_of_range, unknown_feed, no_target, too_often, unknown_peer, bad_data,
}
use rappel.Base.Map.{Map, lookup, insert, has}
use rappel.Base.Word.{add32}
use rappel.Events.{no_such_node, rappel_wait_after_feed_join_req, join_wait_data}
use rappel.Messages.{
  JoinType, initial_join, periodic_rejoin, rejoin_due_to_lost_parent, rejoin_due_to_change_parent,
  redirected_periodic_rejoin, join_req,
}
use rappel.Bloom.{contains_key}
use rappel.Coordinate.{Doubles, get_distance}
use rappel.Neighbor.{Neighbor}
use rappel.Feed.{Feed}
use rappel.Feed.Tree.{has_parent}
use rappel.Timer.Queue.{EventQueue}
use rappel.Rappel.{Rappel, Options, safe_send, get_candidate_list, schedule_wait}

-- `find(failed.begin(), failed.end(), node) == failed.end()` and not in `attempted`.
abbrev pub is_new : Map ℕ → List ℕ → ℕ → Bool
is_new attempted failed_nodes node = not (has node attempted) && not (contains failed_nodes node)

-- The subscribers with the publisher at the end, and the forwarding node, which has been tried, at
-- the beginning, unless they are there.
abbrev pub with_publisher : ℕ → List ℕ → List ℕ
with_publisher publisher nodes = if contains nodes publisher then nodes else nodes ++ publisher ∷ []

abbrev pub with_fwd_node : Map ℕ → List ℕ → ℕ → List ℕ → List ℕ
with_fwd_node attempted failed_nodes fwd_node nodes =
    if fwd_node == no_such_node || is_new attempted failed_nodes fwd_node || contains nodes fwd_node
    then nodes
    else fwd_node ∷ nodes

-- The first node that has not been asked.
unfoldable pub first_new : Map ℕ → List ℕ → List ℕ → ℕ
first_new attempted failed_nodes [] = no_such_node
first_new attempted failed_nodes (n ∷ ns) =
    if is_new attempted failed_nodes n then n else first_new attempted failed_nodes ns

-- The node with the fewest attempts of those that have not failed; `999999` is the start of
-- `min_attempts`.
unfoldable pub least_attempted : Map ℕ → List ℕ → List ℕ → ℕ → ℕ → Result ℕ
least_attempted attempted failed_nodes [] min_node min_attempts = ok min_node
least_attempted attempted failed_nodes (n ∷ ns) min_node min_attempts =
    let compared = (do
      attempts ← present (lookup n attempted) no_target
      let fewer = min_node == no_such_node || ltb attempts min_attempts
      least_attempted attempted failed_nodes ns (if fewer then n else min_node)
          (if fewer then attempts else min_attempts)) in
    let skipped = least_attempted attempted failed_nodes ns min_node min_attempts in
    if contains failed_nodes n then skipped else compared

unfoldable pub choose_target : Map ℕ → List ℕ → ℕ → ℕ → List ℕ → Result ℕ
choose_target attempted failed_nodes fwd_node publisher subscribers = do
  let nodes = with_fwd_node attempted failed_nodes fwd_node (with_publisher publisher subscribers)
  let forwarded = not (fwd_node == no_such_node) && is_new attempted failed_nodes fwd_node
  let target = if forwarded then fwd_node else first_new attempted failed_nodes nodes
  target' ←
      if target == no_such_node
      then least_attempted attempted failed_nodes nodes no_such_node 999999
      else ok target
  assert (not (target' == no_such_node)) no_target
  ok target'

-- `attempted[target_node]++`, at most three times, or a first attempt.
unfoldable pub attempt : Map ℕ → ℕ → Result (Map ℕ)
attempt attempted target = elim (lookup target attempted) [
  | none ↦ ok (insert target 1 attempted)
  | some n ↦ assert (leb (add32 n 1) 3) too_often >> ok (insert target (add32 n 1) attempted)
]

module _ (hash_funcs : List (List ℕ → ℕ)) (str : ℕ → List ℕ) (d : Doubles) (o : Options) where
  module _ {Queue : Type 0} (r : Rappel Queue) where
    -- The place of a subscriber in the list, which is in the order of the distances.
    unfoldable pub insert_near : ℕ → Neighbor → List ℕ → Result (List ℕ)
    insert_near id nbr [] = ok (id ∷ [])
    insert_near id nbr (n ∷ ns) =
        let later = (do rest ← insert_near id nbr ns; ok (n ∷ rest)) in
        do
          nbr2 ← present (lookup n r.peers) unknown_peer
          near ← get_distance d r.nc nbr.nc
          far ← get_distance d r.nc nbr2.nc
          if d.less near far then ok (id ∷ n ∷ ns) else later

    unfoldable pub subscribers_loop : List ℕ → Map Neighbor → List ℕ → Result (List ℕ)
    subscribers_loop key [] nodes = ok nodes
    subscribers_loop key ((id, nbr) ∷ rest) nodes = do
      subscribed ← contains_key hash_funcs o.bloom_hash_funcs nbr.filter key
      nodes' ←
          if subscribed
          then (assert (not (contains nodes id)) bad_data >> insert_near id nbr nodes)
          else ok nodes
      subscribers_loop key rest nodes'

    -- `Feed::str` is the text of the feed's id, which boost makes.
    unfoldable pub find_feed_subscribers : ℕ → Result (List ℕ)
    find_feed_subscribers feed_id = do
      feed ← present (lookup feed_id r.feed_set) unknown_feed
      subscribers_loop (str feed.id) r.peers []

  abbrev pub is_periodic : JoinType → Bool
  is_periodic periodic_rejoin = true
  is_periodic _ = false

  module _ (pq : EventQueue) (rand : ℕ → ℕ → ℕ → ℕ) where
    -- The request itself: the timer, then the message.
    unfoldable pub send_join_req :
        Rappel (pq.Queue) → ℕ → Feed → Map ℕ → List ℕ → ℕ → JoinType → Result (Rappel (pq.Queue))
    send_join_req r feed_id feed attempted failed_nodes target request_type = do
      attempted' ← attempt attempted target
      let r₁ = record r {
        feed_set = insert feed_id (record feed { seeking_parent = true }) r.feed_set;
      }
      s ←
          schedule_wait pq o r₁ rappel_wait_after_feed_join_req
            (join_wait_data feed_id request_type target attempted' failed_nodes)
      c ← get_candidate_list rand s.1
      safe_send c.1 target (join_req r.nc s.0 c.0 feed_id request_type attempted' failed_nodes)

    unfoldable pub initiate_feed_join_req :
        Rappel (pq.Queue) → ℕ → Map ℕ → List ℕ → ℕ → JoinType → Result (Rappel (pq.Queue))
    initiate_feed_join_req r feed_id attempted failed_nodes fwd_node request_type = do
      feed ← present (lookup feed_id r.feed_set) unknown_feed
      let asked = (do
        subscribers ← find_feed_subscribers r feed_id
        target ← choose_target attempted failed_nodes fwd_node feed.id subscribers
        let pointless = is_periodic request_type && has_parent feed && feed.parent == target
        if pointless
            then ok r
            else send_join_req r feed_id feed attempted failed_nodes target request_type)
      if feed.seeking_parent then ok r else asked

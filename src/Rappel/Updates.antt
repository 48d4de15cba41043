-- ===== src/Rappel/Updates.antt =====
-- src/rappel.cpp: the dissemination of updates in the tree of a feed. The publisher hands an update to
-- its children, and each node that receives one adds it to its feed and hands it on. `Passed` is
-- about what arrives. `updates_cache` is `globops.rappel_feed_updates_cache`.
pub mod Passed
mod Tests
use rappel.Base.{
  ℕ, Bool, true, false, not, List, [], ◌∷◌, Option, none, some, if◌then◌else◌, Result, ok, failed,
  ◌>>=◌, ◌>>◌, assert, present, unknown_feed, not_a_publisher,
}
use rappel.Base.Map.{lookup, insert, has}
use rappel.Base.Int.{ℤ, ◌+ℤ◌}
use rappel.Base.Word.{add32}
use rappel.Coordinate.{Doubles}
use rappel.Feed.{Feed, add_entry}
use rappel.Feed.Pull.{send_entry, send_entry_to_children, mark_pull_as_failed}
use rappel.Timer.Queue.{EventQueue}
use rappel.Rappel.{Rappel, Options}
use rappel.Rappel.Peers.{peer_has_failed}

module _ (updates_cache : ℕ) {Queue : Type 0} where
  -- `add_entry`, then `send_entry_to_children`.
  unfoldable pub add_and_send : Rappel Queue → ℕ → Feed → ℕ → List ℕ → ℤ → Result (Rappel Queue)
  add_and_send r feed_id feed seq_num msg emission_time = do
    feed' ← add_entry updates_cache feed seq_num msg emission_time
    s ← send_entry_to_children feed' r.sent seq_num
    ok (record r { feed_set = insert feed_id feed' r.feed_set; sent = s.1 })

  -- The update has no text in the simulator.
  unfoldable pub publish_update : Rappel Queue → Bool → Result (Rappel Queue)
  publish_update r is_publisher = do
    assert is_publisher not_a_publisher
    feed ← present (lookup r.node_id r.feed_set) unknown_feed
    add_and_send r r.node_id feed (add32 feed.latest_update_seq 1) []
        (r.timer.time +ℤ r.timer.sync_offset)

  unfoldable pub receive_feed_update : Rappel Queue → ℕ → ℕ → List ℕ → ℤ → Result (Rappel Queue)
  receive_feed_update r feed_id seq_num msg sync_emission_time = do
    feed ← present (lookup feed_id r.feed_set) unknown_feed
    add_and_send r feed_id feed seq_num msg sync_emission_time

  unfoldable pub receive_feed_update_pull_req : Rappel Queue → ℕ → ℕ → ℕ → Result (Rappel Queue)
  receive_feed_update_pull_req r src feed_id seq_num = do
    feed ← present (lookup feed_id r.feed_set) unknown_feed
    sent ← send_entry feed r.sent seq_num src true
    ok (record r { sent = sent })

module _ (o : Options) (rand : ℕ → ℕ → ℕ → ℕ) (pq : EventQueue) (d : Doubles)
    (hash_funcs : List (List ℕ → ℕ)) (str : ℕ → List ℕ) where
  unfoldable pub timer_wait_after_feed_update_pull_req :
      Rappel (pq.Queue) → ℕ → ℕ → ℕ → Result (Rappel (pq.Queue))
  timer_wait_after_feed_update_pull_req r feed_id seq_num neighbor = do
    feed ← present (lookup feed_id r.feed_set) unknown_feed
    let given_up = (do
      feed' ← mark_pull_as_failed feed seq_num neighbor
      peer_has_failed pq o rand hash_funcs str d
          (record r { feed_set = insert feed_id feed' r.feed_set }) neighbor)
    if has seq_num feed.cache then ok r else given_up

-- ===== src/Rappel/Audit.antt =====
-- src/rappel.cpp: the audit of the friend set. One candidate at a time is asked for its filter, then
-- compared with each friend, and asked to be a friend where that is better.
use rappel.Base.{
  ℕ, zero, suc, ◌+◌, Bool, true, not, ◌||◌, List, [], length, ltb, leb, get_elem?, set, ◌==◌,
  if◌then◌else◌, Result, ok, ◌>>=◌, ◌>>◌, assert, present, out_of_range, not_auditing,
  protected_left, not_protected, unknown_filter, too_many_friends,
}
use rappel.Base.Map.{lookup, insert, has}
use rappel.Base.Word.{add32}
use rappel.Events.{
  no_such_node, rappel_wait_after_bloom_req, rappel_wait_after_add_friend_req, bloom_wait_data,
  add_friend_wait_data,
}
use rappel.Messages.{bloom_req, add_friend_req}
use rappel.Bloom.{new_filter}
use rappel.Coordinate.{Doubles}
use rappel.Neighbor.{new_candidate, candidate_set_bloom_filter}
use rappel.Timer.Queue.{EventQueue}
use rappel.Rappel.{
  Rappel, Options, know_bloom_filter, get_bloom_filter, bloom_filter_version, get_nc, safe_send,
  get_candidate_list, most_popular_candidate, schedule_wait,
}
use rappel.Rappel.Utility.{calculate_friend_set_utility}

module _ (pq : EventQueue) (o : Options) where
  unfoldable pub send_bloom_req : Rappel (pq.Queue) → ℕ → Bool → Result (Rappel (pq.Queue))
  send_bloom_req r node_id audit_friend = do
    s ← schedule_wait pq o r rappel_wait_after_bloom_req (bloom_wait_data node_id audit_friend)
    safe_send s.1 node_id (bloom_req r.nc s.0 audit_friend)

  module _ (rand : ℕ → ℕ → ℕ → ℕ) where
    unfoldable pub send_friend_req : Rappel (pq.Queue) → ℕ → ℕ → List ℕ → Result (Rappel (pq.Queue))
    send_friend_req r target_node_id node_to_prune next_targets = do
      assert (r.currently_auditing == target_node_id) not_auditing
      assert (know_bloom_filter r target_node_id) unknown_filter
      cp ← present (lookup target_node_id r.protected_candidates) not_protected
      assert (ltb 0 cp.filter.version) unknown_filter
      s ←
          schedule_wait pq o r rappel_wait_after_add_friend_req
            (add_friend_wait_data target_node_id next_targets)
      c ← get_candidate_list rand s.1
      version ← bloom_filter_version c.1 target_node_id
      safe_send c.1 target_node_id (add_friend_req r.nc s.0 c.0 node_to_prune version next_targets)

    module _ (d : Doubles) where
      -- The loop over the friends: the best utility so far, and the index of the friend to replace.
      unfoldable pub replacement_loop : Rappel (pq.Queue) → ℕ → ℕ → ℕ → ℕ → ℕ → Result (ℕ × ℕ)
      replacement_loop r candidate zero i best index = ok (best, index)
      replacement_loop r candidate (suc n) i best index = do
        util ← calculate_friend_set_utility r d o (set r.friends i candidate)
        let better = d.less best util
        replacement_loop r candidate n (i + 1) (if better then util else best)
            (if better then i else index)

      -- `replacement_index`, which is the number of friends allowed where none is found.
      unfoldable pub replacement_index : Rappel (pq.Queue) → ℕ → Result ℕ
      replacement_index r candidate =
          let searched = (do
            base ← calculate_friend_set_utility r d o r.friends
            found ←
                replacement_loop r candidate (length r.friends) 0 (d.mul base o.utility_delta)
                  o.num_friends
            ok found.1) in
          if length r.friends == o.num_friends then searched else ok o.num_friends

      -- The candidate is protected and asked.
      unfoldable pub ask_candidate : Rappel (pq.Queue) → ℕ → ℕ → Result (Rappel (pq.Queue))
      ask_candidate r candidate index = do
        prune ←
            if length r.friends == o.num_friends
            then present (get_elem? r.friends index) out_of_range
            else ok no_such_node
        f ← get_bloom_filter r candidate
        assert (ltb 0 f.version) unknown_filter
        nc ← get_nc r candidate
        let cp = new_candidate candidate nc r.timer.time (new_filter o.bloom_size)
        assert (not (has candidate r.protected_candidates)) protected_left
        send_friend_req
            (record r {
              protected_candidates =
                  insert candidate (candidate_set_bloom_filter cp f).1 r.protected_candidates;
            })
            candidate prune []

      unfoldable pub audit_with : Rappel (pq.Queue) → ℕ → Result (Rappel (pq.Queue))
      audit_with r candidate = do
        assert (r.currently_auditing == candidate) not_auditing
        assert (length r.protected_candidates == 0) protected_left
        index ← replacement_index r candidate
        let ended = record r { currently_auditing = no_such_node }
        if ltb (length r.friends) o.num_friends || not (index == o.num_friends)
            then ask_candidate r candidate index
            else ok ended

      -- What `audit` does with the candidate that it has found.
      unfoldable pub audit_candidate : Rappel (pq.Queue) → ℕ → Result (Rappel (pq.Queue))
      audit_candidate r candidate =
          let r' = record r { num_audits = add32 r.num_audits 1; currently_auditing = candidate } in
          if candidate == no_such_node
          then ok r
          else (if know_bloom_filter r' candidate
              then audit_with r' candidate
              else send_bloom_req r' candidate true)

      unfoldable pub audit : Rappel (pq.Queue) → Result (Rappel (pq.Queue))
      audit r =
          let started = (do
            assert (length r.protected_candidates == 0) protected_left
            c ← most_popular_candidate rand r
            audit_candidate c.1 c.0) in
          do
            assert (leb (length r.friends) o.num_friends) too_many_friends
            if r.currently_auditing == no_such_node then started else ok r

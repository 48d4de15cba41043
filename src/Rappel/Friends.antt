-- ===== src/Rappel/Friends.antt =====
-- src/rappel.cpp: the handlers of the messages and the timers by which two nodes become friends: a
-- request for the filter, a request to be a friend, their replies, and what happens when no reply
-- comes. `Fans` and `Changed` have what holds of them.
pub mod Kept
pub mod Fans
pub mod Changed
use rappel.Base.{
  ℕ, zero, suc, ◌+◌, Bool, true, false, not, ◌&&◌, ◌||◌, List, [], ◌∷◌, ◌++◌, Option, none, some,
  length, ltb, leb, contains, ◌==◌, if◌then◌else◌, Result, ok, failed, ◌>>=◌, ◌>>◌, assert, present,
  is_pending, not_pending, not_auditing, protected_left, not_protected, unknown_filter,
  too_many_friends, too_many_fans,
}
use rappel.Base.Map.{Map, lookup, insert, erase, has}
use rappel.Base.Int.{ℤ, pos, ◌+ℤ◌, ltb_ℤ}
use rappel.Events.{no_such_node}
use rappel.Messages.{Coordinate, bloom_reply, add_friend_reply}
use rappel.Bloom.{BloomFilter}
use rappel.Coordinate.{Doubles}
use rappel.Neighbor.{CandidatePeer, Role, friend_role}
use rappel.Candidates.{peer_plays_role, audited_as, invalidate_all_candidates}
use rappel.Timer.{cancel_event}
use rappel.Timer.Queue.{EventQueue}
use rappel.Rappel.{
  Rappel, Options, know_bloom_filter, get_bloom_filter, update_bloom_filter, invalidate_candidate,
  safe_send, get_candidate_list, add_candidate, add_candidates,
}
use rappel.Rappel.Audit.{send_bloom_req, send_friend_req, audit_with, audit}
use rappel.Rappel.Peers.{Instruction, add_peer_with_role, remove_peer_from_role, peer_has_failed}

-- The loop that purges the fans that were not heard of for too long.
unfoldable pub purge_loop : ℤ → ℕ → Map ℤ → Map ℤ
purge_loop now interval [] = []
purge_loop now interval ((id, heard) ∷ fans) =
    let rest = purge_loop now interval fans in
    if ltb_ℤ (heard +ℤ pos interval) now then rest else (id, heard) ∷ rest

-- The part of `receive_add_friend_req` that is about the fans: may `src` be one, and the fans.
unfoldable pub take_fan : Options → ℤ → Map ℤ → ℕ → Bool × Map ℤ
take_fan o now fans src =
    let recent = purge_loop now o.keep_alive_interval fans in
    if ltb (length recent) o.num_fans || has src recent
    then (true, insert src now recent)
    else (false, recent)

-- A node that is not protected any more.
unfoldable pub release : {Queue : Type 0} → Rappel Queue → ℕ → Result (Rappel Queue)
release r id = do
  assert (has id r.protected_candidates) not_protected
  let r' = record r { protected_candidates = erase id r.protected_candidates }
  assert (not (has id r'.protected_candidates)) not_protected
  ok r'

-- `dummy` is `Coordinate()`.
module _ (o : Options) (rand : ℕ → ℕ → ℕ → ℕ) (dummy : Coordinate) where
  unfoldable pub receive_bloom_req :
      {Queue : Type 0} → Rappel Queue → ℕ → Coordinate → ℕ → Bool → Result (Rappel Queue)
  receive_bloom_req r src sender_coord wait_for_timer audit_friend = do
    r₁ ← add_candidate o r src sender_coord
    safe_send r₁ src (bloom_reply r₁.nc wait_for_timer r₁.filter audit_friend)

  unfoldable pub receive_add_friend_req :
      {Queue : Type 0}
      → Rappel Queue
      → ℕ
      → Coordinate
      → ℕ
      → List ℕ
      → ℕ
      → ℕ
      → List ℕ
      → Result (Rappel Queue)
  receive_add_friend_req r src sender_coord wait_for_timer candidates pruned version next_targets =
      do
        r₁ ← add_candidate o r src sender_coord
        r₂ ← add_candidates o dummy r₁ candidates
        c ← get_candidate_list rand r₂
        let changed = ltb version r₂.filter.version
        let fan = take_fan o (r₂.timer.time) r₂.fans src
        let ok_to_add = not changed && fan.0
        let fans = if changed then r₂.fans else fan.1
        assert (leb (length fans) o.num_fans) too_many_fans
        safe_send (record c.1 { fans = fans }) src
            (add_friend_reply r₂.nc wait_for_timer c.0 pruned next_targets ok_to_add changed)

  unfoldable pub receive_remove_friend :
      {Queue : Type 0} → Rappel Queue → ℕ → List ℕ → Result (Rappel Queue)
  receive_remove_friend r src candidates = do
    r₁ ← add_candidates o dummy r candidates
    ok (record r₁ { fans = erase src r₁.fans })

  module _ (pq : EventQueue) (d : Doubles) where
    unfoldable pub receive_bloom_reply :
        Rappel (pq.Queue) → ℕ → Coordinate → ℕ → BloomFilter → Bool → Result (Rappel (pq.Queue))
    receive_bloom_reply r src sender_coord wait_for_timer filter audit_friend =
        let cancelled = cancel_event pq r.timer wait_for_timer in
        let r₁ = record r { timer = cancelled.1 } in
        let evicted = not (has src r₁.candidates) in
        let auditing = (do
          assert (r₁.currently_auditing == src) not_auditing
          if evicted then add_candidate o r₁ src sender_coord else ok r₁) in
        let replied = (do
          r₂ ← if audit_friend then auditing else ok r₁
          r₃ ← update_bloom_filter r₂ src filter sender_coord audit_friend
          assert (not audit_friend || know_bloom_filter r₃ src) unknown_filter
          if audit_friend
              then audit_with pq o rand d r₃ src
              else ok (invalidate_candidate r₃ src)) in
        if cancelled.0 then replied else ok r

    -- The end of an audit, and what comes next: the next of the friends to come, or another audit.
    unfoldable pub next_friend : Rappel (pq.Queue) → List ℕ → Result (Rappel (pq.Queue))
    next_friend r [] =
        let ended = record r { currently_auditing = no_such_node } in
        let again = (do
          assert (length r.protected_candidates == 0) protected_left
          audit pq o rand d ended) in
        if ltb (length r.friends) o.num_friends then again else ok ended
    next_friend r (target ∷ targets) = do
      assert (ltb (length r.friends) o.num_friends) too_many_friends
      send_friend_req pq o rand (record r { currently_auditing = target }) target no_such_node
          targets

    module _ (hash_funcs : List (List ℕ → ℕ)) (str : ℕ → List ℕ) where
      abbrev quietly : Instruction
      quietly = record { invoke_fault_handler = false; dont_send_remove_msg = false }

      unfoldable pub timer_wait_after_bloom_req :
          Rappel (pq.Queue) → ℕ → ℕ → Bool → Result (Rappel (pq.Queue))
      timer_wait_after_bloom_req r event_id neighbor audit_friend = do
        assert (has event_id r.pending_events) not_pending
        r₁ ←
            peer_has_failed pq o rand hash_funcs str d
              (record r { pending_events = erase event_id r.pending_events }) neighbor
        let r₂ = record r₁ { currently_auditing = no_such_node }
        let ended = (do
          assert (length r₂.protected_candidates == 0) protected_left
          if ltb (length r₂.friends) o.num_friends then audit pq o rand d r₂ else ok r₂)
        if audit_friend then ended else ok r₁

      -- The reply that lets the node be a friend.
      unfoldable pub befriend :
          Rappel (pq.Queue) → ℕ → Coordinate → ℕ → List ℕ → Result (Rappel (pq.Queue))
      befriend r src sender_coord pruned next_targets =
          let prune = (do
            plays ← peer_plays_role r.peers pruned friend_role
            if plays
                then remove_peer_from_role pq o rand hash_funcs str d r pruned friend_role quietly
                else ok r) in
          do
            r₁ ← if not (pruned == no_such_node) then prune else ok r
            assert (know_bloom_filter r₁ src) unknown_filter
            f ← get_bloom_filter r₁ src
            r₂ ← add_peer_with_role pq o rand r₁ src sender_coord friend_role f
            r₃ ← release r₂ src
            next_friend r₃ next_targets

      unfoldable pub receive_add_friend_reply :
          Rappel (pq.Queue)
          → ℕ
          → Coordinate
          → ℕ
          → List ℕ
          → ℕ
          → List ℕ
          → Bool
          → Bool
          → Result (Rappel (pq.Queue))
      receive_add_friend_reply r src sender_coord wait_for_timer candidates pruned next_targets
            ok_to_add filter_has_changed =
          let cancelled = cancel_event pq r.timer wait_for_timer in
          let retried = λ (r₁ : Rappel (pq.Queue)). (do
            assert (r₁.currently_auditing == src) not_auditing
            send_bloom_req pq o r₁ src true) in
          let rejected =
            λ (r₁ : Rappel (pq.Queue)). release r₁ src >>= λ r₂. next_friend r₂ next_targets in
          let replied = (do
            r₁ ← add_candidates o dummy (record r { timer = cancelled.1 }) candidates
            if ok_to_add
                then befriend r₁ src sender_coord pruned next_targets
                else (if filter_has_changed then retried r₁ else rejected r₁)) in
          if cancelled.0 then replied else ok r

      unfoldable pub timer_wait_after_add_friend_req :
          Rappel (pq.Queue) → ℕ → ℕ → List ℕ → Result (Rappel (pq.Queue))
      timer_wait_after_add_friend_req r event_id neighbor next_targets = do
        assert (has event_id r.pending_events) not_pending
        r₁ ←
            peer_has_failed pq o rand hash_funcs str d
              (record r { pending_events = erase event_id r.pending_events }) neighbor
        r₂ ← release r₁ neighbor
        next_friend r₂ next_targets

      abbrev silently : Instruction
      silently = record { invoke_fault_handler = false; dont_send_remove_msg = true }

      -- `src`, if it is a candidate, is marked so that it is not tried.
      abbrev set_audited : Rappel (pq.Queue) → ℕ → Rappel (pq.Queue)
      set_audited r src = elim (lookup src r.candidates) [
        | none ↦ r
        | some c ↦ record r { candidates = insert src (audited_as true c) r.candidates }
      ]

      unfoldable pub receive_remove_fan :
          Rappel (pq.Queue) → ℕ → List ℕ → Result (Rappel (pq.Queue))
      receive_remove_fan r src candidates = do
        r₁ ← add_candidates o dummy r candidates
        let dropped = (do
          r₂ ← remove_peer_from_role pq o rand hash_funcs str d r₁ src friend_role silently
          let r₃ = record r₂ { candidates = invalidate_all_candidates r₂.candidates }
          audit pq o rand d (set_audited r₃ src))
        if contains r₁.friends src then dropped else ok r₁

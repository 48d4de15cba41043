-- ===== src/Rappel/Friends/Changed.antt =====
-- src/rappel.cpp: what follows when a request to be a friend is refused because the filter of the
-- node asked has changed: the filter is asked for once more, with the candidate still protected.
use rappel.Base.{
  ℕ, ◌≡◌, ◌≢◌, ap, ◌∙◌, inl, inr, Bool, true, false, not, List, [], ◌∷◌, none, arith, length, ◌==◌,
  if◌then◌else◌, Bool-cases, Result, ok, failed, ◌>>◌, stages, assert, protected_left, not_auditing,
  unknown_filter,
}
use rappel.Base.Map.{Map, lookup, has}
use rappel.Coordinate.{Doubles}
use rappel.Messages.{Coordinate}
use rappel.Bloom.{BloomFilter}
use rappel.Timer.{cancel_event}
use rappel.Timer.Queue.{EventQueue}
use rappel.Rappel.{
  Rappel, Options, add_candidate, add_candidates, update_bloom_filter, know_bloom_filter, safe_send,
  schedule_wait,
}
use rappel.Rappel.Audit.{audit_with, send_bloom_req}
use rappel.Rappel.Friends.Kept.{add_candidate-Kept, add_candidates-Kept}
use rappel.Rappel.Friends.{
  receive_bloom_reply, receive_add_friend_reply, timer_wait_after_bloom_req,
}
use rappel.Rappel.Peers.{peer_has_failed}

-- A step that leaves the protected candidates as they are.
abbrev Keeps : {Queue : Type 0} → Rappel Queue → Result (Rappel Queue) → Type 0
Keeps {Queue} r m =
    (r' : Rappel Queue) → m ≡ ok r' → r'.protected_candidates ≡ r.protected_candidates

add_candidate-Keeps :
    {Queue : Type 0} (o : Options) (r : Rappel Queue) (id : ℕ) (nc : Coordinate)
    → Keeps r (add_candidate o r id nc)
add_candidate-Keeps o r id nc r' e =
    ap (λ s. s.protected_candidates) (add_candidate-Kept o r id nc r' e)

add_candidates-Keeps :
    {Queue : Type 0} (o : Options) (dummy : Coordinate) (r : Rappel Queue) (ids : List ℕ)
    → Keeps r (add_candidates o dummy r ids)
add_candidates-Keeps o dummy r ids r' e =
    ap (λ s. s.protected_candidates) (add_candidates-Kept o dummy r ids r' e)

update_bloom_filter-Keeps :
    {Queue : Type 0} (r : Rappel Queue) (id : ℕ) (f : BloomFilter) (nc : Coordinate) (b : Bool)
    → Keeps r (update_bloom_filter r id f nc b)
unfolding update_bloom_filter
update_bloom_filter-Keeps r id f nc b r' e = ground (arith, e)

module _ (pq : EventQueue) (o : Options) where
  send_bloom_req-Keeps :
      (r : Rappel (pq.Queue)) (id : ℕ) (b : Bool) → Keeps r (send_bloom_req pq o r id b)
  unfolding send_bloom_req safe_send schedule_wait
  send_bloom_req-Keeps r id b r' e = ground (arith, e)

some_protected : {V : Type 0} (id : ℕ) (m : Map V) → has id m ≡ true → (length m == 0) ≡ false
unfolding has lookup
some_protected id [] h = cc
some_protected id ((k, v) ∷ m) h = ground arith

module _ (pq : EventQueue) (o : Options) (rand : ℕ → ℕ → ℕ → ℕ) (d : Doubles) where
  audit_with-fails :
      (r : Rappel (pq.Queue)) (id : ℕ) (r' : Rappel (pq.Queue))
      → (length r.protected_candidates == 0) ≡ false
      → audit_with pq o rand d r id ≢ ok r'
  unfolding audit_with
  audit_with-fails r id r' left e = ground (arith, left, e)

  module _ (dummy : Coordinate) where
    -- The candidate that is audited is put back where it was evicted.
    abbrev restored : Rappel (pq.Queue) → ℕ → Coordinate → Result (Rappel (pq.Queue))
    restored r src nc = do
      assert (r.currently_auditing == src) not_auditing
      if not (has src r.candidates) then add_candidate o r src nc else ok r

    restored-Keeps :
        (r : Rappel (pq.Queue)) (src : ℕ) (nc : Coordinate) → Keeps r (restored r src nc)
    restored-Keeps r src nc r' e = ground (arith, e, add_candidate-Keeps o r src nc r')

    bloom_reply-fails :
        (r : Rappel (pq.Queue)) (src : ℕ) (nc : Coordinate) (wait : ℕ) (filter : BloomFilter)
        (r' : Rappel (pq.Queue))
        → has src r.protected_candidates ≡ true
        → (cancel_event pq r.timer wait).0 ≡ true
        → receive_bloom_reply o rand dummy pq d r src nc wait filter true ≢ ok r'
    unfolding receive_bloom_reply
    bloom_reply-fails r src nc wait filter r' left waits e =
        let r₁ = record r { timer = (cancel_event pq r.timer wait).1 } in
        let (r₂, e₂, rest₂) = stages (restored r₁ src nc) _ (rw waits at e) in
        let (r₃, e₃, rest₃) = stages (update_bloom_filter r₂ src filter nc true) _ rest₂ in
        let (u, e₄, rest₄) = stages (assert (know_bloom_filter r₃ src) unknown_filter) _ rest₃ in
        let same : r₃.protected_candidates ≡ r.protected_candidates =
          update_bloom_filter-Keeps r₂ src filter nc true r₃ e₃ ∙ restored-Keeps r₁ src nc r₂ e₂ in
        audit_with-fails r₃ src r' (rw same (some_protected src _ left)) rest₄

    module _ (hash_funcs : List (List ℕ → ℕ)) (str : ℕ → List ℕ) where
      changed-Keeps :
          (r : Rappel (pq.Queue)) (src : ℕ) (nc : Coordinate) (wait : ℕ) (candidates : List ℕ)
          (pruned : ℕ) (next_targets : List ℕ)
          → Keeps r (
              receive_add_friend_reply o rand dummy pq d hash_funcs str r src nc wait candidates
                pruned next_targets false true)
      unfolding receive_add_friend_reply
      changed-Keeps r src nc wait candidates pruned next_targets r' e =
          elim (Bool-cases ((cancel_event pq r.timer wait).0)) [
            | inr late ↦ (let same = rw late at e in ground (arith, same))
            | inl waits ↦
                let r₁ = record r { timer = (cancel_event pq r.timer wait).1 } in
                let (r₂, e₂, rest₂) =
                  stages (add_candidates o dummy r₁ candidates) _ (rw waits at e) in
                let (u, e₃, rest₃) =
                  stages (assert (r₂.currently_auditing == src) not_auditing) _ rest₂ in
                send_bloom_req-Keeps pq o r₂ src true r' rest₃
                ∙ add_candidates-Keeps o dummy r₁ candidates r₂ e₂
          ]

      -- A refusal because the filter has changed leaves the candidate protected, so that the reply
      -- with the new filter never returns: where the reply to the request to be a friend is handled
      -- and ends in a state, and the audited node then answers with its filter before its timer, the
      -- handler of that answer fails an assertion, whatever the filter and the coordinates are.
      pub receive_add_friend_reply-receive_bloom_reply :
          (r : Rappel (pq.Queue)) (src : ℕ) (nc : Coordinate) (wait : ℕ) (candidates : List ℕ)
          (pruned : ℕ) (next_targets : List ℕ) (r₁ : Rappel (pq.Queue)) (nc' : Coordinate)
          (wait' : ℕ) (filter : BloomFilter) (r₂ : Rappel (pq.Queue))
          → has src r.protected_candidates ≡ true
          → receive_add_friend_reply o rand dummy pq d hash_funcs str r src nc wait candidates
              pruned next_targets false true
            ≡ ok r₁
          → (cancel_event pq r₁.timer wait').0 ≡ true
          → receive_bloom_reply o rand dummy pq d r₁ src nc' wait' filter true ≢ ok r₂
      receive_add_friend_reply-receive_bloom_reply r src nc wait candidates pruned next_targets r₁
            nc' wait' filter r₂ left e waits =
          let same = changed-Keeps r src nc wait candidates pruned next_targets r₁ e in
          bloom_reply-fails r₁ src nc' wait' filter r₂ (rw same left) waits

      -- Nor is it any better without an answer: where the node is not a peer and the timer of that
      -- request is pending, its handler fails the assertion that no candidate is protected.
      pub receive_add_friend_reply-timer_wait_after_bloom_req :
          (r : Rappel (pq.Queue)) (src : ℕ) (nc : Coordinate) (wait : ℕ) (candidates : List ℕ)
          (pruned : ℕ) (next_targets : List ℕ) (r₁ : Rappel (pq.Queue)) (event_id : ℕ)
          → has src r.protected_candidates ≡ true
          → receive_add_friend_reply o rand dummy pq d hash_funcs str r src nc wait candidates
              pruned next_targets false true
            ≡ ok r₁
          → has event_id r₁.pending_events ≡ true
          → lookup src r₁.peers ≡ none
          → timer_wait_after_bloom_req o rand dummy pq d hash_funcs str r₁ event_id src true
            ≡ failed protected_left
      unfolding timer_wait_after_bloom_req peer_has_failed
      receive_add_friend_reply-timer_wait_after_bloom_req r src nc wait candidates pruned
            next_targets r₁ event_id left e pending stranger =
          let same = changed-Keeps r src nc wait candidates pruned next_targets r₁ e in
          let some_left : (length r₁.protected_candidates == 0) ≡ false =
            some_protected src _ (rw same left) in
          ground (arith, pending, stranger, some_left)

-- ===== src/Rappel/Joins/Handlers.antt =====
-- src/rappel.cpp: the request that `receive_feed_join_reply_deny` and
-- `timer_wait_after_feed_join_req` send to another node.
use rappel.Base.{
  ℕ, ◌≡◌, ap, sym, ◌∙◌, inl, inr, false, ◌||◌, Option, none, some, List, contains, if◌then◌else◌,
  Bool-cases, Result, ok, stages, present, assert, unknown_feed, no_target, no_version, ltb, ◌>>=◌,
  ◌>>◌, not, ◌&&◌, ◌==◌, not_pending, true,
}
use rappel.Base.Map.{Map, lookup, erase, has}
use rappel.Events.{no_such_node}
use rappel.Messages.{Coordinate, JoinType}
use rappel.Coordinate.{Doubles}
use rappel.Feed.{Feed, set_publisher_nc}
use rappel.Feed.Tree.{has_parent, is_rejoin_scheduled}
use rappel.Timer.{cancel_event}
use rappel.Timer.Queue.{EventQueue}
use rappel.Rappel.{Rappel, Options, add_candidate, add_candidates}
use rappel.Rappel.Friends.Kept.{add_candidate-Kept, add_candidates-Kept}
use rappel.Rappel.Targets.{attempt}
use rappel.Rappel.Joins.{
  timer_wait_after_feed_join_req, with_failed, change_feed, join_again, ask_another,
  receive_feed_join_reply_deny,
}
use rappel.Rappel.Joins.Requests.{Asked, Sends, Sends-from, append_one, initiate-Sends}

-- The state in which `timer_wait_after_feed_join_req` asks another.
abbrev pub stopped : {Queue : Type 0} → Rappel Queue → ℕ → ℕ → Feed → Rappel Queue
stopped r event_id feed_id feed =
    change_feed (record r { pending_events = erase event_id r.pending_events }) feed_id
      (record feed { seeking_parent = false })

same_ok : {A : Type 0} {a b : A} → ok a ≡ ok b → a ≡ b
same_ok e = cc

module _ (o : Options) (rand : ℕ → ℕ → ℕ → ℕ) (dummy : Coordinate) (pq : EventQueue) (d : Doubles)
    (hash_funcs : List (List ℕ → ℕ)) (str : ℕ → List ℕ) where
  -- What a request that either handler sends is made of.
  join_again-Sends :
      (r : Rappel (pq.Queue)) (feed_id : ℕ) (a : Map ℕ) (f : List ℕ) (t : ℕ)
      (request_type : JoinType) (r' : Rappel (pq.Queue)) (q : Asked)
      → join_again o rand dummy pq d hash_funcs str r feed_id a f t request_type ≡ ok r'
      → Sends feed_id r r' q
      → (attempt a q.target ≡ ok q.attempted)
        × (contains (with_failed f t) q.target ≡ false)
        × (q.failed_nodes ≡ with_failed f t)
  join_again-Sends r feed_id a f t request_type r' q e m =
      initiate-Sends hash_funcs str d o pq rand r feed_id a (with_failed f t) no_such_node
        request_type r' q e m

  -- The last assertion of the handler.
  abbrev Checked : ℕ → Rappel (pq.Queue) → Result (Rappel (pq.Queue))
  Checked feed_id r = do
    feed ← present (lookup feed_id r.feed_set) unknown_feed
    assert (has_parent feed || feed.seeking_parent || is_rejoin_scheduled feed) no_target
    ok r

  checked_same : (feed_id : ℕ) (r r' : Rappel (pq.Queue)) → Checked feed_id r ≡ ok r' → r ≡ r'
  checked_same feed_id r r' e =
      let (feed, _, e₁) = stages (present (lookup feed_id r.feed_set) unknown_feed) _ e in
      let (_, _, e₂) =
        stages
          (assert (has_parent feed || feed.seeking_parent || is_rejoin_scheduled feed) no_target) _
          e₁ in
      same_ok e₂

  -- The handler from where the feed seeks no parent.
  resumed-Sends :
      (r r₂ : Rappel (pq.Queue)) (src feed_id : ℕ) (feed told : Feed) (request_type : JoinType)
      (a : Map ℕ) (f : List ℕ) (r' : Rappel (pq.Queue)) (q : Asked)
      → r₂.sent ≡ r.sent
      → r₂.node_id ≡ r.node_id
      → (let r₃ = change_feed r₂ feed_id (record told { seeking_parent = false }) in
          ((if has_parent feed
              then ok r₃
              else join_again o rand dummy pq d hash_funcs str r₃ feed_id a f src request_type)
            >>= λ r₄. Checked feed_id r₄)
          ≡ ok r')
      → Sends feed_id r r' q
      → (attempt a q.target ≡ ok q.attempted)
        × (contains (with_failed f src) q.target ≡ false)
        × (q.failed_nodes ≡ with_failed f src)
  resumed-Sends r r₂ src feed_id feed told request_type a f r' q sent id e m =
      let r₃ = change_feed r₂ feed_id (record told { seeking_parent = false }) in
      elim (Bool-cases (has_parent feed)) [
        | inl parent ↦
            let done : r₃ ≡ r' = checked_same feed_id r₃ r' (rw parent at e) in
            absurd (append_one r.sent _ (sym m.is_sent ∙ ap (λ x. x.sent) (sym done) ∙ sent))
        | inr none_yet ↦
            let (r₄, e₁, e₂) =
              stages (join_again o rand dummy pq d hash_funcs str r₃ feed_id a f src request_type)
                (λ r₄. Checked feed_id r₄) (rw none_yet at e) in
            join_again-Sends r₃ feed_id a f src request_type r' q
              (e₁ ∙ ap ok (checked_same feed_id r₄ r' e₂)) (Sends-from feed_id r r₃ r' q sent id m)
      ]

  pub denied-Sends :
      (r : Rappel (pq.Queue)) (src : ℕ) (sender_coord : Coordinate) (wait : ℕ) (candidates : List ℕ)
      (feed_id : ℕ) (publisher_nc : Option Coordinate) (request_type : JoinType) (a : Map ℕ)
      (f : List ℕ) (r' : Rappel (pq.Queue)) (q : Asked)
      → receive_feed_join_reply_deny o rand dummy pq d hash_funcs str r src sender_coord wait
          candidates feed_id publisher_nc request_type a f
        ≡ ok r'
      → Sends feed_id r r' q
      → (attempt a q.target ≡ ok q.attempted)
        × (contains (with_failed f src) q.target ≡ false)
        × (q.failed_nodes ≡ with_failed f src)
  unfolding receive_feed_join_reply_deny
  denied-Sends r src sender_coord wait candidates feed_id publisher_nc request_type a f r' q e m =
      elim (Bool-cases (cancel_event pq r.timer wait).0) [
        | inr late ↦
            let same : r ≡ r' = same_ok (rw late at e) in
            absurd (append_one r.sent _ (sym m.is_sent ∙ ap (λ x. x.sent) (sym same)))
        | inl waiting ↦
            let r₀ = record r { timer = (cancel_event pq r.timer wait).1 } in
            let (r₁, e₁, s₁) = stages (add_candidate o r₀ src sender_coord) _ (rw waiting at e) in
            let (r₂, e₂, s₂) = stages (add_candidates o dummy r₁ candidates) _ s₁ in
            let (feed, e₃, s₃) = stages (present (lookup feed_id r₂.feed_set) unknown_feed) _ s₂ in
            let (told, e₄, s₄) =
              stages
                (elim publisher_nc as (λ _. Result Feed) [
                  | none ↦ ok feed
                  | some nc ↦
                      assert (ltb 0 (set_publisher_nc feed nc).1.publisher_nc.version) no_version
                      >> ok (set_publisher_nc feed nc).1
                ])
                _ s₃ in
            let kept₁ = add_candidate-Kept o r₀ src sender_coord r₁ e₁ in
            let kept₂ = add_candidates-Kept o dummy r₁ candidates r₂ e₂ in
            resumed-Sends r r₂ src feed_id feed told request_type a f r' q
              (ap (λ x. x.sent) kept₂ ∙ ap (λ x. x.sent) kept₁)
              (ap (λ x. x.node_id) kept₂ ∙ ap (λ x. x.node_id) kept₁) s₄ m
      ]

  pub ask_another-Sends :
      (r : Rappel (pq.Queue)) (feed_id : ℕ) (a : Map ℕ) (f : List ℕ) (t : ℕ)
      (request_type : JoinType) (r' : Rappel (pq.Queue)) (q : Asked)
      → ask_another o rand dummy pq d hash_funcs str r feed_id a f t request_type ≡ ok r'
      → Sends feed_id r r' q
      → (attempt a q.target ≡ ok q.attempted)
        × (contains (with_failed f t) q.target ≡ false)
        × (q.failed_nodes ≡ with_failed f t)
  unfolding ask_another
  ask_another-Sends r feed_id a f t request_type r' q e m =
      let (r₁, e₁, s₁) =
        stages (join_again o rand dummy pq d hash_funcs str r feed_id a f t request_type) _ e in
      let (feed, e₂, s₂) = stages (present (lookup feed_id r₁.feed_set) unknown_feed) _ s₁ in
      let (_, _, s₃) = stages (assert feed.seeking_parent no_target) _ s₂ in
      let last : r₁ ≡ r' = same_ok s₃ in
      join_again-Sends r feed_id a f t request_type r' q (e₁ ∙ ap ok last) m

  -- The handler runs `ask_another` where its condition holds.
  pub unanswered_asks :
      (r : Rappel (pq.Queue)) (event_id feed_id : ℕ) (feed : Feed) (request_type : JoinType) (t : ℕ)
      (a : Map ℕ) (f : List ℕ) (r' : Rappel (pq.Queue))
      → lookup feed_id r.feed_set ≡ some feed
      → (not (has_parent feed) && not (t == feed.id)) ≡ true
      → timer_wait_after_feed_join_req o rand dummy pq d hash_funcs str r event_id feed_id
          request_type t a f
        ≡ ok r'
      → (r₂ : Rappel (pq.Queue)) × (ask_another o rand dummy pq d hash_funcs str
            (stopped r event_id feed_id feed)
            feed_id
            a
            f
            t
            request_type
          ≡ ok r₂)
  unfolding timer_wait_after_feed_join_req
  unanswered_asks r event_id feed_id feed request_type t a f r' at asks e =
      let (_, _, e₁) = stages (assert (has event_id r.pending_events) not_pending) _ e in
      let (r₂, e₂, _) =
        stages
          (ask_another o rand dummy pq d hash_funcs str (stopped r event_id feed_id feed) feed_id a
            f t request_type)
          _ (rw (at, asks) at e₁) in
      (r₂, e₂)

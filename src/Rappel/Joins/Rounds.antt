-- ===== src/Rappel/Joins/Rounds.antt =====
-- src/rappel.cpp: the requests of one attempt to join. A handler of a request that is denied or not
-- answered puts its node among those that have failed, and asks another.
use rappel.Base.{
  ℕ, suc, ◌+◌, ◌≤◌, ◌≡◌, refl, ◌∙◌, inl, inr, true, false, ◌⊎◌, Option, some, List, [], arith,
  length, contains, ==_refl, Bool-cases, ok, not, ◌&&◌, ◌==◌,
}
use rappel.Base.Map.{Map, lookup, insert, has, has-insert, lookup-insert, lookup_of_not_has}
use rappel.Messages.{Coordinate, JoinType}
use rappel.Coordinate.{Doubles}
use rappel.Feed.{Feed}
use rappel.Timer.Queue.{EventQueue}
use rappel.Rappel.{Rappel, Options}
use rappel.Rappel.Targets.{attempt, initiate_feed_join_req}
use rappel.Rappel.Joins.{
  with_failed, ask_another, timer_wait_after_feed_join_req, receive_feed_join_reply_deny,
}
use rappel.Rappel.Joins.Requests.{Asked, Sends, initiate-Sends}
use rappel.Feed.Tree.{has_parent}
use rappel.Rappel.Joins.Alive.{alive, contains-with_failed, alive-with_failed, alive_le}
use rappel.Rappel.Joins.Handlers.{stopped, unanswered_asks, denied-Sends, ask_another-Sends}

-- What has been asked has failed, but for the node that is asked now.
abbrev AskedFailed : Asked → Type 0
AskedFailed q =
    (k : ℕ) → has k q.attempted ≡ true → (k ≡ q.target) ⊎ (contains q.failed_nodes k ≡ true)

attempt_new :
    (attempted : Map ℕ) (t : ℕ)
    → has t attempted ≡ false
    → attempt attempted t ≡ ok (insert t 1 attempted)
unfolding attempt
attempt_new attempted t new = rw (attempt, lookup_of_not_has t attempted new) refl

-- What holds of the request after `n` others of the same attempt.
pub record InAttempt (nodes : List ℕ) (q : Asked) (n : ℕ) : Type 0 where
  pub enough : n + alive (with_failed q.failed_nodes q.target) nodes ≤ length nodes
  pub lives : contains q.failed_nodes q.target ≡ false
  pub once : lookup q.target q.attempted ≡ some 1
  pub asked : AskedFailed q

has_none : (k : ℕ) → has {V = ℕ} k [] ≡ false
unfolding has lookup
has_none k = refl

first-InAttempt :
    (nodes : List ℕ) (q : Asked)
    → attempt [] q.target ≡ ok q.attempted
    → contains q.failed_nodes q.target ≡ false
    → InAttempt nodes q 0
first-InAttempt nodes q tried lives =
    let b : insert q.target 1 [] ≡ q.attempted =
      let e = attempt_new [] q.target (has_none _) in cc in
    record {
      enough = omega (arith, alive_le (with_failed q.failed_nodes q.target) nodes);
      lives = lives;
      once = rw (← b) (lookup-insert q.target q.target 1 [] ∙ rw (==_refl q.target) refl);
      asked =
          λ k. rw (← b) (λ h. ground (arith, h, has-insert {V = ℕ} q.target k 1 [], has_none k));
    }

next-InAttempt :
    (nodes : List ℕ) (q q' : Asked) (n : ℕ)
    → InAttempt nodes q n
    → contains nodes q'.target ≡ true
    → attempt q.attempted q'.target ≡ ok q'.attempted
    → contains (with_failed q.failed_nodes q.target) q'.target ≡ false
    → q'.failed_nodes ≡ with_failed q.failed_nodes q.target
    → InAttempt nodes q' (suc n)
next-InAttempt nodes q q' n v among tried lives f =
    let new : has q'.target q.attempted ≡ false = elim (Bool-cases (has q'.target q.attempted)) [
      | inr new ↦ new
      | inl old ↦
          let gone : contains (with_failed q.failed_nodes q.target) q'.target ≡ true =
            contains-with_failed q.failed_nodes q.target q'.target ∙ elim (v.asked q'.target old) [
              | inl same ↦ ground (arith, same)
              | inr dead ↦ rw dead refl
            ] in
          cc
    ] in
    let b : insert q'.target 1 q.attempted ≡ q'.attempted =
      let e = attempt_new q.attempted q'.target new in cc in
    let less =
      alive-with_failed (with_failed q.failed_nodes q.target) q'.target nodes lives among in
    record {
      enough = rw f (omega (arith, v.enough, less));
      lives = rw f lives;
      once =
          rw (← b) (lookup-insert q'.target q'.target 1 q.attempted ∙ rw (==_refl q'.target) refl);
      asked =
          rw (← b, f)
            λ k h. ground (
              arith,
              has-insert q'.target k 1 q.attempted,
              contains-with_failed q.failed_nodes q.target k,
              v.asked k,
            );
    }

module _ (o : Options) (rand : ℕ → ℕ → ℕ → ℕ) (dummy : Coordinate) (pq : EventQueue) (d : Doubles)
    (hash_funcs : List (List ℕ → ℕ)) (str : ℕ → List ℕ) where
  module _ (feed_id : ℕ) (nodes : List ℕ) where
    -- A request, and how many others of the same attempt came before it. Between two requests
    -- anything may happen to the node, so that each handler starts from any state. A node that
    -- answers gives back the nodes attempted and failed that it was sent, and so does the timer.
    pub data SentAfter : Asked → ℕ → Type 0 where
      -- The first request of an attempt, or of a rejoin past nodes that have failed.
      first :
          (r r' : Rappel (pq.Queue)) (failed_nodes : List ℕ) (fwd_node : ℕ)
          (request_type : JoinType) (q : Asked)
          → initiate_feed_join_req hash_funcs str d o pq rand r feed_id [] failed_nodes fwd_node
              request_type
            ≡ ok r'
          → Sends feed_id r r' q
          → SentAfter q 0
      -- `receive_feed_join_reply_deny` asks one of `nodes`.
      denied :
          (r r' : Rappel (pq.Queue)) (sender_coord : Coordinate) (wait : ℕ) (candidates : List ℕ)
          (publisher_nc : Option Coordinate) (request_type : JoinType) (q q' : Asked) (n : ℕ)
          → SentAfter q n
          → receive_feed_join_reply_deny o rand dummy pq d hash_funcs str r q.target sender_coord
              wait candidates feed_id publisher_nc request_type q.attempted q.failed_nodes
            ≡ ok r'
          → Sends feed_id r r' q'
          → contains nodes q'.target ≡ true
          → SentAfter q' (suc n)
      -- `timer_wait_after_feed_join_req`, where the feed has no parent and it was not the publisher
      -- that did not answer, asks one of `nodes`, before it declares the other one failed.
      unanswered :
          (r r' : Rappel (pq.Queue)) (feed : Feed) (event_id : ℕ) (request_type : JoinType)
          (q q' : Asked) (n : ℕ)
          → SentAfter q n
          → lookup feed_id r.feed_set ≡ some feed
          → (not (has_parent feed) && not (q.target == feed.id)) ≡ true
          → timer_wait_after_feed_join_req o rand dummy pq d hash_funcs str r event_id feed_id
              request_type q.target q.attempted q.failed_nodes
            ≡ ok r'
          → ((r₂ : Rappel (pq.Queue))
              → ask_another o rand dummy pq d hash_funcs str
                  (stopped r event_id feed_id feed)
                  feed_id
                  q.attempted
                  q.failed_nodes
                  q.target
                  request_type
                ≡ ok r₂
              → Sends feed_id (stopped r event_id feed_id feed) r₂ q')
          → contains nodes q'.target ≡ true
          → SentAfter q' (suc n)

    SentAfter-InAttempt : {q : Asked} {n : ℕ} → SentAfter q n → InAttempt nodes q n
    SentAfter-InAttempt (first r r' f fwd type q e m) =
        let (tried, lives, same) =
          initiate-Sends hash_funcs str d o pq rand r feed_id [] f fwd type r' q e m in
        first-InAttempt nodes q tried (rw same lives)
    SentAfter-InAttempt (denied r r' nc wait cs p_nc type q q' n before e m among) =
        let (tried, lives, f) =
          denied-Sends o rand dummy pq d hash_funcs str r q.target nc wait cs feed_id p_nc type
            q.attempted q.failed_nodes r' q' e m in
        next-InAttempt nodes q q' n (SentAfter-InAttempt before) among tried lives f
    SentAfter-InAttempt (unanswered r r' feed event type q q' n before at asks e m among) =
        let (r₂, e₂) =
          unanswered_asks o rand dummy pq d hash_funcs str r event feed_id feed type q.target
            q.attempted q.failed_nodes r' at asks e in
        let (tried, lives, f) =
          ask_another-Sends o rand dummy pq d hash_funcs str (stopped r event feed_id feed) feed_id
            q.attempted q.failed_nodes q.target type r₂ q' e₂ (m r₂ e₂) in
        next-InAttempt nodes q q' n (SentAfter-InAttempt before) among tried lives f

    -- The requests of an attempt to join come to an end. Where each one is denied or not answered,
    -- and the handler of that sends another, to one of `nodes`, no more requests follow the first
    -- one than there are such nodes. Each request goes to a node that is not among those given as
    -- failed, and is the first of the attempt to that node; every other node that the attempt has
    -- asked is among them.
    pub requests_end :
        (q : Asked) (n : ℕ)
        → SentAfter q n
        → (n ≤ length nodes)
          × (contains q.failed_nodes q.target ≡ false)
          × (lookup q.target q.attempted ≡ some 1)
          × ((k : ℕ)
              → has k q.attempted ≡ true
              → (k ≡ q.target) ⊎ (contains q.failed_nodes k ≡ true))
    requests_end q n requests =
        let v = SentAfter-InAttempt requests in (omega (arith, v.enough), v.lives, v.once, v.asked)

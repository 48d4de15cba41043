-- ===== src/Rappel/Joins/Requests.antt =====
-- src/rappel.cpp: the message of a request to join, and the node that it is sent to.
use rappel.Base.{
  ℕ, ◌≡◌, ◌≢◌, ap, sym, ◌∙◌, ◌⊎◌, inl, inr, true, false, ◌&&◌, List, [], ◌∷◌, ◌++◌, arith, contains,
  ◌==◌, Bool-cases, ok, stages, present, unknown_feed,
}
use mathlib.Core.List.{append_cancel_left, head-eq_of_cons-eq, tail-eq_of_cons-eq}
use rappel.Base.Map.{Map, lookup, insert}
use rappel.Events.{
  application, ProtocolEvent, EventData, rappel_wait_after_feed_join_req, join_wait_data,
}
use rappel.Messages.{Coordinate, JoinType, Message, MessageData, join_req}
use rappel.Coordinate.{Doubles}
use rappel.Feed.{Feed}
use rappel.Feed.Tree.{has_parent}
use rappel.Timer.Queue.{EventQueue}
use rappel.Rappel.{Rappel, Options, safe_send, schedule_wait, get_candidate_list}
use rappel.Rappel.Friends.Kept.{get_candidate_list-Kept}
use rappel.Rappel.Targets.{
  choose_target, attempt, find_feed_subscribers, is_periodic, send_join_req, initiate_feed_join_req,
}
use rappel.Rappel.Targets.Alive.{choose_target-alive}

pub append_one : {A : Type 0} (xs : List A) (x : A) → xs ++ x ∷ [] ≢ xs
append_one [] x e = cc
append_one (y ∷ ys) x e = append_one ys x (tail-eq_of_cons-eq e)

-- The request to join that one message is.
pub record Asked : Type 0 where
  pub target : ℕ
  pub attempted : Map ℕ
  pub failed_nodes : List ℕ

-- The one message that is sent between two states of a node is this request.
pub record Sends {Queue : Type 0} (feed_id : ℕ) (r r' : Rappel Queue) (q : Asked) : Type 0 where
  pub nc : Coordinate
  pub wait : ℕ
  pub candidates : List ℕ
  pub request_type : JoinType
  pub is_sent :
      r'.sent
      ≡ r.sent
        ++ record {
          src = r.node_id;
          dst = q.target;
          layer = application;
          content = join_req nc wait candidates feed_id request_type q.attempted q.failed_nodes;
        }
          ∷ []

-- A node with the same messages sends the same request.
pub Sends-from :
    {Queue : Type 0} (feed_id : ℕ) (r s r' : Rappel Queue) (q : Asked)
    → s.sent ≡ r.sent
    → s.node_id ≡ r.node_id
    → Sends feed_id r r' q
    → Sends feed_id s r' q
Sends-from feed_id r s r' q e id m = record {
  nc = m.nc;
  wait = m.wait;
  candidates = m.candidates;
  request_type = m.request_type;
  is_sent = rw (e, id) m.is_sent;
}

safe_send-sent :
    {Queue : Type 0} (r s : Rappel Queue) (dst : ℕ) (content : MessageData) (r' : Rappel Queue)
    → s.sent ≡ r.sent
    → s.node_id ≡ r.node_id
    → safe_send s dst content ≡ ok r'
    → r'.sent
      ≡ r.sent ++ record { src = r.node_id; dst = dst; layer = application; content = content } ∷ []
unfolding safe_send
safe_send-sent r s dst content r' sent id e = ground (arith, e, sent, id)

schedule_wait-sent :
    (pq : EventQueue) (o : Options) (r : Rappel (pq.Queue)) (flag : ProtocolEvent)
    (payload : EventData) (s : ℕ × Rappel (pq.Queue))
    → schedule_wait pq o r flag payload ≡ ok s
    → (s.1.sent ≡ r.sent) × (s.1.node_id ≡ r.node_id)
unfolding schedule_wait
schedule_wait-sent pq o r flag payload s e = ground (arith, e)

module _ (hash_funcs : List (List ℕ → ℕ)) (str : ℕ → List ℕ) (d : Doubles) (o : Options)
    (pq : EventQueue) (rand : ℕ → ℕ → ℕ → ℕ) where
  -- The request that `send_join_req` sends.
  send_join_req-Sends :
      (r : Rappel (pq.Queue)) (feed_id : ℕ) (feed : Feed) (a : Map ℕ) (f : List ℕ) (t : ℕ)
      (request_type : JoinType) (r' : Rappel (pq.Queue))
      → send_join_req hash_funcs str d o pq rand r feed_id feed a f t request_type ≡ ok r'
      → (b : Map ℕ) × (attempt a t ≡ ok b)
        × Sends feed_id r r' (record { target = t; attempted = b; failed_nodes = f })
  unfolding send_join_req
  send_join_req-Sends r feed_id feed a f t request_type r' e =
      let (b, tried, e₁) = stages (attempt a t) _ e in
      let r₁ = record r {
        feed_set = insert feed_id (record feed { seeking_parent = true }) r.feed_set;
      } in
      let (s, waits, e₂) =
        stages
          (schedule_wait pq o r₁ rappel_wait_after_feed_join_req
            (join_wait_data feed_id request_type t b f))
          _ e₁ in
      let (c, told, e₃) = stages (get_candidate_list rand s.1) _ e₂ in
      let (sent₁, id₁) = schedule_wait-sent pq o r₁ _ _ s waits in
      let kept = get_candidate_list-Kept rand s.1 c told in
      let sent₂ : c.1.sent ≡ r.sent = ap (λ x. x.sent) kept ∙ sent₁ in
      let id₂ : c.1.node_id ≡ r.node_id = ap (λ x. x.node_id) kept ∙ id₁ in
      (
        b,
        tried,
        record {
          nc = r.nc;
          wait = s.0;
          candidates = c.0;
          request_type = request_type;
          is_sent = safe_send-sent r (c.1) t _ r' sent₂ id₂ e₃;
        },
      )

  -- `initiate_feed_join_req` sends nothing, or one request, to a node that has not failed.
  initiate_cases :
      (r : Rappel (pq.Queue)) (feed_id : ℕ) (a : Map ℕ) (f : List ℕ) (fwd_node : ℕ)
      (request_type : JoinType) (r' : Rappel (pq.Queue))
      → initiate_feed_join_req hash_funcs str d o pq rand r feed_id a f fwd_node request_type
        ≡ ok r'
      → (r'.sent ≡ r.sent)
        ⊎ ((t : ℕ) × (b : Map ℕ) × (attempt a t ≡ ok b)
            × (contains f t ≡ false)
            × Sends feed_id r r' (record { target = t; attempted = b; failed_nodes = f }))
  unfolding initiate_feed_join_req
  initiate_cases r feed_id a f fwd_node request_type r' e =
      let (feed, _, e₁) = stages (present (lookup feed_id r.feed_set) unknown_feed) _ e in
      elim (Bool-cases feed.seeking_parent) [
        | inl seeking ↦ let same : ok r ≡ ok r' = rw seeking at e₁ in inl cc
        | inr idle ↦
            let (subscribers, _, e₂) =
              stages (find_feed_subscribers hash_funcs str d o r feed_id) _ (rw idle at e₁) in
            let (t, chosen, e₃) = stages (choose_target a f fwd_node feed.id subscribers) _ e₂ in
            elim (Bool-cases (
              is_periodic hash_funcs str d o request_type && has_parent feed && feed.parent == t)) [
                | inl pointless ↦ let same : ok r ≡ ok r' = rw pointless at e₃ in inl cc
                | inr useful ↦
                    let (b, tried, m) =
                      send_join_req-Sends r feed_id feed a f t request_type r' (rw useful at e₃) in
                    inr (
                      t,
                      b,
                      tried,
                      choose_target-alive a f fwd_node feed.id subscribers t chosen,
                      m,
                    )
              ]
      ]

  -- What a request that `initiate_feed_join_req` sends is made of.
  pub initiate-Sends :
      (r : Rappel (pq.Queue)) (feed_id : ℕ) (a : Map ℕ) (f : List ℕ) (fwd_node : ℕ)
      (request_type : JoinType) (r' : Rappel (pq.Queue)) (q : Asked)
      → initiate_feed_join_req hash_funcs str d o pq rand r feed_id a f fwd_node request_type
        ≡ ok r'
      → Sends feed_id r r' q
      → (attempt a q.target ≡ ok q.attempted) × (contains f q.target ≡ false) × (q.failed_nodes ≡ f)
  initiate-Sends r feed_id a f fwd_node request_type r' q e m =
      elim (initiate_cases r feed_id a f fwd_node request_type r' e) [
        | inl nothing ↦ absurd (append_one r.sent _ (sym m.is_sent ∙ nothing))
        | inr (t, b, tried, lives, m') ↦
            let same =
              head-eq_of_cons-eq (append_cancel_left r.sent _ _ (sym m.is_sent ∙ m'.is_sent)) in
            let one : join_req m.nc m.wait m.candidates feed_id m.request_type q.attempted
                  q.failed_nodes
                ≡ join_req m'.nc m'.wait m'.candidates feed_id m'.request_type b f =
              ap (λ (x : Message). x.content) same in
            let to : q.target ≡ t = ap (λ (x : Message). x.dst) same in
            let tries : q.attempted ≡ b = cc in
            let fails : q.failed_nodes ≡ f = cc in (rw (to, tries) tried, rw to lives, fails)
      ]

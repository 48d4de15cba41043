-- ===== src/Rappel/Peers/Befriend.antt =====
-- src/rappel.cpp: `add_peer_with_role` for a friend.
use rappel.Base.{
  ℕ, ◌+◌, ◌*◌, ◌/◌, ◌≡◌, ◌≢◌, refl, ap, ◌∙◌, inl, inr, true, false, ◌||◌, [], ◌∷◌, ◌++◌, some, none,
  arith, ◌==◌, ==_iff, ==_refl, Bool-cases, Option-cases, Result, ok, contains, contains-append,
  Distinct-append,
}
use rappel.Base.Map.{Map, lookup, insert, lookup-insert}
use rappel.Neighbor.{Neighbor, friend_role, new_neighbor, check_event, finds, new_role}
use rappel.Neighbor.Roles.{Inv, plays_role_lem, add_role-remove_role}
use rappel.Messages.{Coordinate}
use rappel.Bloom.{BloomFilter}
use rappel.Candidates.{peer_plays_role, invalidate_all_candidates}
use rappel.Timer.Queue.{EventQueue}
use rappel.Timer.{Timer, schedule_event}
use rappel.Events.{no_such_event_id}
use rappel.Candidates as Candidates
use rappel.Rappel as Node
use rappel.Rappel.{Rappel, Options}
use rappel.Rappel.Peers.Known.{
  is_friend, Known, Known-insert, renewed, renewed_roles, renewed-Inv, renewed_changed, known_plays,
}
use rappel.Rappel.Peers.{enter_role, add_new_peer, add_known_peer, take_role, add_peer_with_role}

module _ (pq : EventQueue) (o : Options) (rand : ℕ → ℕ → ℕ → ℕ) where
  -- The call ends in a state with sound peers, where the node is a friend, and who else was one.
  abbrev pub Befriended : Rappel (pq.Queue) → ℕ → Result (Rappel (pq.Queue)) → Type 0
  Befriended r id m =
      (r' : Rappel (pq.Queue)) × (m ≡ ok r')
      × Known r'.peers r'.friends
      × ((k : ℕ) → contains r'.friends k ≡ (contains r.friends k || id == k))

  enter_friend :
      (r : Rappel (pq.Queue)) (id : ℕ) (n : Neighbor) (peers : Map Neighbor)
      → r.peers ≡ insert id n peers
      → Known peers r.friends
      → contains r.friends id ≡ false
      → Inv n
      → finds friend_role n.roles ≡ true
      → Befriended r id (enter_role pq o rand r id friend_role)
  unfolding enter_role take_role
  enter_friend r id n peers is v new inv plays =
      let at : lookup id (insert id n peers) ≡ some n =
        lookup-insert id id n peers ∙ rw (==_refl id) refl in
      (
        record r {
          friends = r.friends ++ id ∷ [];
          candidates = invalidate_all_candidates r.candidates;
        },
        rw (is, known_plays (insert id n peers) id friend_role at inv, plays) refl,
        rw is (
            Known-insert v id n (r.friends ++ id ∷ []) inv
              (λ k. contains-append r.friends id k ∙ ground (arith, plays))
              (Distinct-append r.friends id v.once new)),
        λ k. contains-append r.friends id k,
      )

  -- A peer that is new, whose check is scheduled.
  start_friend :
      (r : Rappel (pq.Queue)) (id : ℕ) (nc : Coordinate) (f : BloomFilter)
      (s : ℕ × Timer (pq.Queue))
      → Known r.peers r.friends
      → lookup id r.peers ≡ none
      → schedule_event pq r.timer (
          check_event r.node_id id
            (rand r.draws (o.heart_beat_interval / 8) (7 * o.heart_beat_interval / 8)))
        ≡ ok s
      → s.0 ≢ no_such_event_id
      → Befriended r id (add_new_peer pq o rand r id nc friend_role f)
  unfolding add_new_peer new_neighbor
  start_friend r id nc f s v absent scheduled real =
      let n : Neighbor = record {
        node_id = r.node_id;
        nbr_id = id;
        filter = f;
        nc = nc;
        last_heard_from = r.timer.time;
        roles = new_role friend_role r.timer.time ∷ [];
        node_check_event_id = s.0;
      } in
      let inv : Inv n = record { some_role = refl; checked = real; once = (refl, tt) } in
      let new : contains r.friends id ≡ false = v.agree id ∙ rw (absent, is_friend) refl in
      let entered =
        enter_friend (record r { peers = insert id n r.peers; timer = s.1; draws = r.draws + 1 }) id
          n r.peers refl v new inv refl in
      (entered.0, rw scheduled entered.1, entered.2, entered.3)

  renew_friend :
      (r : Rappel (pq.Queue)) (peer : Neighbor) (id : ℕ) (nc : Coordinate) (f : BloomFilter)
      → Known r.peers r.friends
      → lookup id r.peers ≡ some peer
      → Befriended r id (add_known_peer pq o rand r peer id nc friend_role f)
  unfolding add_known_peer Node.invalidate_candidate
  renew_friend r peer id nc f v present_at =
      let n = renewed peer f nc in
      let inv : Inv n = renewed-Inv peer f nc (v.sound id peer present_at) in
      let was : contains r.friends id ≡ finds friend_role n.roles =
        v.agree id ∙ rw (is_friend, present_at, renewed_roles peer f nc) refl in
      let r₁ : Rappel (pq.Queue) = record r {
        peers = insert id n r.peers;
        candidates = Candidates.invalidate_candidate r.candidates id;
      } in
      let at : lookup id r₁.peers ≡ some n = lookup-insert id id n r.peers ∙ rw (==_refl id) refl in
      let v₁ : Known r₁.peers r₁.friends =
        Known-insert v id n r.friends inv
          (λ k. elim (Bool-cases (id == k)) [
            | inl here ↦ let e : id ≡ k = (==_iff id k).0 here in rw (here, ← e) was
            | inr there ↦ rw there refl
          ])
          v.once in
      elim (Bool-cases (finds friend_role n.roles)) [
        | inl plays ↦ (
          r₁,
          rw (renewed_changed peer f nc, known_plays r₁.peers id friend_role at inv, plays) refl,
          v₁,
          λ k. elim (Bool-cases (id == k)) [
            | inl here ↦
                let e : id ≡ k = (==_iff id k).0 here in
                let there : contains r.friends k ≡ true = rw e at (was ∙ plays) in rw there refl
            | inr there ↦ ground (arith, there)
          ],
        )
        | inr new ↦
            let (n', added, plays', inv', back) =
              add_role-remove_role pq n (r.timer.time) friend_role r.timer inv
                (plays_role_lem inv friend_role ∙ ap ok new) in
            let found : finds friend_role n'.roles ≡ true =
              let a = plays_role_lem inv' friend_role in
              let b = plays' friend_role in ground (arith, a, b, new) in
            let entered =
              enter_friend (record r₁ { peers = insert id n' r₁.peers }) id n' r₁.peers refl v₁
                (was ∙ new) inv' found in
            (
              entered.0,
              rw (renewed_changed peer f nc, known_plays r₁.peers id friend_role at inv, new, added)
                  entered.1,
              entered.2,
              entered.3,
            )
      ]

  -- In a node whose friends are the peers in that role, each once, `add_peer_with_role` for a friend
  -- ends, where the timer gives the check of a new peer an event: no assertion fails, the friends
  -- afterwards are those before and this node, and again they are the peers in that role, each
  -- once, whether the node was no peer, a peer in other roles, or a friend.
  pub add_peer_with_role-Known :
      (r : Rappel (pq.Queue)) (id : ℕ) (nc : Coordinate) (f : BloomFilter)
      (s : ℕ × Timer (pq.Queue))
      → Known r.peers r.friends
      → schedule_event pq r.timer (
          check_event r.node_id id
            (rand r.draws (o.heart_beat_interval / 8) (7 * o.heart_beat_interval / 8)))
        ≡ ok s
      → s.0 ≢ no_such_event_id
      → Befriended r id (add_peer_with_role pq o rand r id nc friend_role f)
  unfolding add_peer_with_role
  add_peer_with_role-Known r id nc f s v scheduled real = elim (Option-cases (lookup id r.peers)) [
    | inl absent ↦
        rw (add_peer_with_role, absent) (start_friend r id nc f s v absent scheduled real)
    | inr (peer, at) ↦ rw (add_peer_with_role, at) (renew_friend r peer id nc f v at)
  ]

-- ===== src/Rappel/Peers/Dismiss.antt =====
-- src/rappel.cpp: `remove_peer_from_role` for a friend, without the fault handler.
use rappel.Base.{
  ℕ, ◌≡◌, refl, ap, ◌∙◌, sym, inl, inr, true, false, List, [], ◌∷◌, ◌++◌, some, none, ==_refl,
  Bool-cases, Option-cases, Result, ok, contains, erase_first, Distinct-erase_first,
  contains-erase_first,
}
use rappel.Base.Map.{Map, lookup, insert, erase, has, lookup-erase, lookup_of_has}
use rappel.Neighbor.{
  Neighbor, friend_role, remove_role, CandidatePeer, candidate_set_nc, candidate_set_bloom_filter,
  finds,
}
use rappel.Neighbor.Roles.{Inv, plays_role_lem, remove_role_lem}
use rappel.Messages.{Message, remove_friend}
use rappel.Coordinate.{Doubles}
use rappel.Candidates.{peer_plays_role}
use rappel.Timer.Queue.{EventQueue}
use rappel.Timer.{Timer}
use rappel.Events.{application}
use rappel.Rappel.{Rappel, Options, get_candidate_list, safe_send}
use rappel.Rappel.Peers.Known.{is_friend, Known, Known-insert, Known-erase}
use rappel.Rappel.Peers.{Instruction, drop_role, drop_friend, remove_peer_from_role}
use rappel.Rappel.Peers.Partings.{
  InRange, candidate_list, no_friend_plays, update_candidate, erased,
}

module _ (pq : EventQueue) (o : Options) (rand : ℕ → ℕ → ℕ → ℕ) where
  -- `drop_role`: nothing but the peers, the candidates and the timer changes.
  abbrev Dropped : Rappel (pq.Queue) → ℕ → Result (Rappel (pq.Queue)) → Type 0
  Dropped r id m =
      (peers : Map Neighbor) × (candidates : Map CandidatePeer) × (t : Timer (pq.Queue)) × (m
        ≡ ok (record r { peers = peers; candidates = candidates; timer = t }))
      × Known peers (erase_first r.friends id)

  drop_last :
      (r : Rappel (pq.Queue)) (id : ℕ) (peer n : Neighbor) (t : Timer (pq.Queue))
      → Known r.peers r.friends
      → lookup id r.peers ≡ some peer
      → remove_role pq peer r.timer friend_role ≡ ok (true, n, t)
      → Dropped r id (drop_role pq o rand r id friend_role)
  unfolding drop_role
  drop_last r id peer n t v at e =
      let gone : lookup id (erase id r.peers) ≡ none =
        lookup-erase id id r.peers ∙ rw (==_refl id) refl in
      let v' =
        Known-erase v id (erase_first r.friends id) (λ k. erased r.friends id k v.once)
          (Distinct-erase_first r.friends id v.once) in
      elim (Bool-cases (has id r.candidates)) [
        | inr stranger ↦ (erase id r.peers, r.candidates, t, rw (at, e, stranger) refl, v')
        | inl candidate ↦
            let (c, at_c) = lookup_of_has id r.candidates candidate in
            let c' = (candidate_set_nc (candidate_set_bloom_filter c peer.filter).1 peer.nc).1 in
            let updated =
              update_candidate (record r { peers = erase id r.peers; timer = t }) id peer.filter
                peer.nc c gone at_c in
            (erase id r.peers, insert id c' r.candidates, t, rw (at, e, candidate) updated, v')
      ]

  drop_more :
      (r : Rappel (pq.Queue)) (id : ℕ) (peer n : Neighbor) (t : Timer (pq.Queue))
      → Known r.peers r.friends
      → lookup id r.peers ≡ some peer
      → remove_role pq peer r.timer friend_role ≡ ok (false, n, t)
      → Inv n
      → finds friend_role n.roles ≡ false
      → Dropped r id (drop_role pq o rand r id friend_role)
  unfolding drop_role
  drop_more r id peer n t v at e inv left =
      let v' =
        Known-insert v id n (erase_first r.friends id) inv
          (λ k. erased r.friends id k v.once ∙ rw left refl)
          (Distinct-erase_first r.friends id v.once) in
      (insert id n r.peers, r.candidates, t, rw (at, e) refl, v')

  drop_role_lem :
      (r : Rappel (pq.Queue)) (id : ℕ)
      → Known r.peers r.friends
      → contains r.friends id ≡ true
      → Dropped r id (drop_role pq o rand r id friend_role)
  drop_role_lem r id v friend = elim (Option-cases (lookup id r.peers)) [
    | inl absent ↦
        let never : false ≡ true = rw (is_friend, absent) at (sym (v.agree id) ∙ friend) in cc
    | inr (peer, at) ↦
        let plays : finds friend_role peer.roles ≡ true =
          rw (is_friend, at) at (sym (v.agree id) ∙ friend) in
        let inv = v.sound id peer at in
        let (last, n, t, e, roles, empty, ended, more) =
          remove_role_lem pq peer r.timer friend_role inv
            (plays_role_lem inv friend_role ∙ ap ok plays) in
        elim (Bool-cases last) [
          | inl all ↦ drop_last r id peer n t v at (e ∙ ap (λ b. ok (b, n, t)) all)
          | inr some_left ↦
              drop_more r id peer n t v at (e ∙ ap (λ b. ok (b, n, t)) some_left) (more some_left).0
                (roles friend_role)
        ]
  ]

  module _ (hash_funcs : List (List ℕ → ℕ)) (str : ℕ → List ℕ) (d : Doubles) where
    -- The message to the node that was a friend.
    abbrev pub farewell : Rappel (pq.Queue) → ℕ → List ℕ → Message
    farewell r id candidates = record {
      src = r.node_id;
      dst = id;
      layer = application;
      content = remove_friend candidates;
    }

    drop_friend_lem :
        (r : Rappel (pq.Queue)) (id : ℕ) (i : Instruction) (told : List ℕ) (draws : ℕ)
        → contains r.friends id ≡ true
        → r.is_online ≡ true
        → i.invoke_fault_handler ≡ false
        → get_candidate_list rand (record r { friends = erase_first r.friends id })
          ≡ ok (told, record r { friends = erase_first r.friends id; draws = draws })
        → drop_friend pq o rand hash_funcs str d r id i
          ≡ ok (record r {
            friends = erase_first r.friends id;
            draws = draws;
            sent = r.sent ++ farewell r id told ∷ [];
          })
    unfolding drop_friend safe_send
    drop_friend_lem r id i told draws friend online quiet listed =
        elim (Bool-cases (i.dont_send_remove_msg)) [
          | inl dont ↦ rw (friend, dont, listed, online, quiet) refl
          | inr do_send ↦ rw (friend, do_send, listed, online, quiet) refl
        ]

    -- In a node whose friends are the peers in that role, each once, `remove_peer_from_role` for a
    -- friend ends, where the node is online, the generator draws in its range and the fault handler
    -- is not asked for: no assertion fails, the last one included, exactly this friend is gone, and
    -- again the friends are the peers in that role. One message is sent, which tells the node that
    -- it is removed, also where the caller asks for `DONT_SEND_REMOVE_MSG`.
    pub remove_peer_from_role-Known :
        (r : Rappel (pq.Queue)) (id : ℕ) (i : Instruction)
        → InRange rand
        → Known r.peers r.friends
        → contains r.friends id ≡ true
        → r.is_online ≡ true
        → i.invoke_fault_handler ≡ false
        → (r' : Rappel (pq.Queue)) × (told : List ℕ) × (remove_peer_from_role pq o rand hash_funcs
              str d r id friend_role i
            ≡ ok r')
          × Known r'.peers r'.friends
          × (r'.friends ≡ erase_first r.friends id)
          × (contains r'.friends id ≡ false)
          × (r'.sent ≡ r.sent ++ farewell r id told ∷ [])
    unfolding remove_peer_from_role
    remove_peer_from_role-Known r id i in_range v friend online quiet =
        let (peers, candidates, t, dropped, v') = drop_role_lem r id v friend in
        let r₂ : Rappel (pq.Queue) = record r {
          peers = peers;
          candidates = candidates;
          timer = t;
        } in
        let r₁ : Rappel (pq.Queue) = record r {
          peers = peers;
          candidates = candidates;
          timer = t;
          friends = erase_first r.friends id;
        } in
        let (told, draws, listed) = candidate_list rand r₁ in_range in
        let r' : Rappel (pq.Queue) = record r₁ {
          draws = draws;
          sent = r.sent ++ farewell r id told ∷ [];
        } in
        let gone : contains (erase_first r.friends id) id ≡ false =
          contains-erase_first r.friends id v.once in
        let role_gone : peer_plays_role peers id friend_role ≡ ok false =
          no_friend_plays v' id gone in
        (
          r',
          told,
          rw (dropped, drop_friend_lem r₂ id i told draws friend online quiet listed, role_gone)
              refl,
          v',
          refl,
          gone,
          refl,
        )

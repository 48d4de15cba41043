-- ===== src/Rappel/Tests.antt =====
-- The protocol of a node at concrete states: a node that audits node 7, which it has asked to be a
-- friend, and a node that has friends and fans.
use rappel.Base.{
  ℕ, ◌≡◌, ◌≢◌, ◌⊎◌, inl, inr, refl, Bool-cases, Bool, true, false, List, [], ◌∷◌, ◌++◌, some, none,
  arith, Result, ok, failed, protected_left, contains, erase_first, ◌==◌,
}
use rappel.Base.Map.{lookup, insert, erase, has}
use rappel.Base.Int.{pos}
use rappel.Events.{
  Event, application, protocol, rappel_wait_after_bloom_req, bloom_wait_data, no_such_node,
}
use rappel.Messages.{bloom_req}
use rappel.Bloom.{new_filter}
use rappel.Coordinate.Fixture.{whole}
use rappel.Neighbor.{new_candidate, friend_role, check_event}
use rappel.Timer.{Timer, schedule_event, schedule_event_aux, cancel_event, stamped, inserted}
use rappel.Timer.Queue.{TimeOrderedEvent, list_queue}
use rappel.Rappel.{
  Rappel, safe_send, schedule_wait, add_candidate, add_candidates, get_candidate_list,
}
use rappel.Candidates as Candidates
use rappel.Rappel.Peers.{Instruction, add_peer_with_role, remove_peer_from_role}
use rappel.Rappel.Peers.Befriend.{Befriended, add_peer_with_role-Known}
use rappel.Rappel.Peers.Dismiss.{farewell, remove_peer_from_role-Known}
use rappel.Rappel.Peers.Known.{Known, is_friend}
use rappel.Neighbor.Roles.{Inv}
use rappel.Rappel.Audit.{send_bloom_req}
use rappel.Rappel.Friends.{
  receive_add_friend_reply, receive_bloom_reply, timer_wait_after_bloom_req, receive_add_friend_req,
}
use rappel.Rappel.Friends.Changed.{
  receive_add_friend_reply-receive_bloom_reply, receive_add_friend_reply-timer_wait_after_bloom_req,
}
use rappel.Rappel.Friends.Fans.{Taken, reply, receive_add_friend_req_lem}
use rappel.Rappel.Fixture.{
  options, nowhere, lowest, hash_funcs, text, no_bits, friend, waiting, node,
}

-- The event that waits for the filter of node 7, and the node after its reply that the filter has
-- changed.
abbrev filter_wait : Event
filter_wait = record {
  id = 0;
  whence = pos 100;
  node_id = 1;
  layer = application;
  flag = protocol rappel_wait_after_bloom_req;
  payload = some (bloom_wait_data 7 true);
}

abbrev cancelled : Timer (List TimeOrderedEvent)
cancelled = record waiting { events = [] }

abbrev again : Rappel (List TimeOrderedEvent)
again = record node {
  timer = inserted list_queue cancelled (stamped list_queue cancelled filter_wait);
  pending_events = (21, true) ∷ [];
  sent = record { src = 1; dst = 7; layer = application; content = bloom_req nowhere 21 true } ∷ [];
}

abbrev refused : Result (Rappel (List TimeOrderedEvent))
refused =
    receive_add_friend_reply options lowest nowhere list_queue whole hash_funcs text node 7 nowhere
      20 [] no_such_node [] false true

refused-again : refused ≡ ok again
unfolding receive_add_friend_reply cancel_event lookup erase insert has add_candidates
    send_bloom_req schedule_wait safe_send schedule_event schedule_event_aux
refused-again = refl

receive_add_friend_reply-receive_bloom_reply_example :
    receive_bloom_reply options lowest nowhere list_queue whole again 7 nowhere 21
      (record no_bits { version = 3 })
      true
    ≢ ok node
receive_add_friend_reply-receive_bloom_reply_example =
    receive_add_friend_reply-receive_bloom_reply list_queue options lowest whole nowhere hash_funcs
      text node 7 nowhere 20 [] no_such_node [] again nowhere 21 (record no_bits { version = 3 })
      node (unfold has lookup in refl) refused-again (unfold cancel_event lookup insert in refl)

receive_add_friend_reply-timer_wait_after_bloom_req_example :
    timer_wait_after_bloom_req options lowest nowhere list_queue whole hash_funcs text again 21 7
      true
    ≡ failed protected_left
receive_add_friend_reply-timer_wait_after_bloom_req_example =
    receive_add_friend_reply-timer_wait_after_bloom_req list_queue options lowest whole nowhere
      hash_funcs text node 7 nowhere 20 [] no_such_node [] again 21 (unfold has lookup in refl)
      refused-again (unfold has lookup in refl) (unfold lookup in refl)

-- A node that node 9 asks; its fan 6 was heard of at 0, and 100 have passed.
abbrev asked_node : Rappel (List TimeOrderedEvent)
asked_node = record node { candidates = []; timer = record waiting { time = pos 100 } }

abbrev introduced_node : Rappel (List TimeOrderedEvent)
introduced_node = record asked_node {
  candidates = (9, new_candidate 9 nowhere (pos 100) (new_filter 1)) ∷ [];
}

receive_add_friend_req_lem_example :
    (r' : Rappel (List TimeOrderedEvent)) × (accepted : Bool) × (receive_add_friend_req options
        lowest nowhere asked_node 9 nowhere 5 [] no_such_node 2 []
      ≡ ok r')
    × (r'.sent ≡ [] ++ reply asked_node 9 5 (3 ∷ 9 ∷ []) no_such_node [] accepted false ∷ [])
    × (((false ≡ true) × (accepted ≡ false) × (r'.fans ≡ asked_node.fans))
        ⊎ ((false ≡ false) × Taken options (pos 100) (asked_node.fans) 9 (tt, tt) accepted r'.fans))
receive_add_friend_req_lem_example =
    receive_add_friend_req_lem options lowest nowhere asked_node 9 nowhere 5 [] no_such_node 2 []
      introduced_node introduced_node (3 ∷ 9 ∷ [], record introduced_node { draws = 1 }) (tt, tt)
      (omega arith) refl (unfold add_candidate Candidates.add_candidate lookup insert has in refl)
      (unfold add_candidates in refl) (unfold get_candidate_list in refl)

friend-Inv : Inv friend
friend-Inv = record { some_role = refl; checked = omega arith; once = (refl, tt) }

node-Known : Known node.peers node.friends
unfolding lookup
node-Known = record {
  sound = λ id n e. elim (Bool-cases (3 == id)) [
    | inl here ↦
        let same : some friend ≡ some n = rw here at e in
        let same' : friend ≡ n = cc in rw (← same') friend-Inv
    | inr there ↦ let never : none ≡ some n = rw there at e in cc
  ];
  agree = λ id. elim (Bool-cases (3 == id)) [
    | inl here ↦ rw (is_friend, here) refl
    | inr there ↦ rw (is_friend, there) refl
  ];
  once = (refl, tt);
}

abbrev checked : ℕ × Timer (List TimeOrderedEvent)
checked = (21, inserted list_queue waiting (stamped list_queue waiting (check_event 1 7 10)))

add_peer_with_role-Known_example :
    Befriended list_queue options lowest node 7
      (add_peer_with_role list_queue options lowest node 7 nowhere friend_role no_bits)
add_peer_with_role-Known_example =
    add_peer_with_role-Known list_queue options lowest node 7 nowhere no_bits checked node-Known
      (unfold schedule_event schedule_event_aux has lookup in refl) (omega arith)

abbrev silently : Instruction
silently = record { invoke_fault_handler = false; dont_send_remove_msg = true }

remove_peer_from_role-Known_example :
    (r' : Rappel (List TimeOrderedEvent)) × (told : List ℕ) × (remove_peer_from_role list_queue
        options lowest hash_funcs text whole node 3 friend_role silently
      ≡ ok r')
    × Known r'.peers r'.friends
    × (r'.friends ≡ erase_first (3 ∷ []) 3)
    × (contains r'.friends 3 ≡ false)
    × (r'.sent ≡ [] ++ farewell list_queue options lowest hash_funcs text whole node 3 told ∷ [])
remove_peer_from_role-Known_example =
    remove_peer_from_role-Known list_queue options lowest hash_funcs text whole node 3 silently
      (λ n low high h. h) node-Known refl refl refl

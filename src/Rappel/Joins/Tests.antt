-- ===== src/Rappel/Joins/Tests.antt =====
-- The choice of the node to join at, and the requests that follow each other.
use rappel.Base.{
  ℕ, ◌≡◌, ◌⊎◌, ◌≤◌, refl, true, false, List, [], ◌∷◌, arith, ok, failed, no_target, contains,
  length, some, none,
}
use rappel.Base.Map.{Map, lookup, insert, erase, has}
use rappel.Rappel.Targets.{
  attempt, choose_target, least_attempted, first_new, with_fwd_node, with_publisher,
  initiate_feed_join_req, send_join_req, find_feed_subscribers, subscribers_loop,
}
use rappel.Rappel.Targets.Least.{AllFailed}
use rappel.Rappel.Targets.Choice.{Chosen, choose_target_lem}
use rappel.Messages.{Message, initial_join, join_req}
use rappel.Candidates as Candidates
use rappel.Events.{Event, application, protocol, rappel_wait_after_feed_join_req, join_wait_data}
use rappel.Rappel.Joins.{with_failed, receive_feed_join_reply_deny}
use rappel.Rappel.Joins.Requests.{Asked}
use rappel.Rappel.Joins.Rounds.{SentAfter, first, denied, requests_end}
use rappel.Base.Int.{pos, ◌+ℤ◌}
use rappel.Coordinate.Fixture.{whole}
use rappel.Feed.{new_feed}
use rappel.Timer.{Timer, inserted, stamped, cancel_event, schedule_event, schedule_event_aux}
use rappel.Timer.Queue.{TimeOrderedEvent, list_queue}
use rappel.Rappel.{
  Rappel, schedule_wait, get_candidate_list, safe_send, add_candidate, add_candidates,
}
use rappel.Rappel.Fixture.{node, waiting, candidate, nowhere, options, lowest, hash_funcs, text}

-- Nodes 3 and 4 have been asked twice and once, 5 has failed.
abbrev asked : Map ℕ
asked = (3, 2) ∷ (4, 1) ∷ []

abbrev targets : List ℕ
targets = with_fwd_node asked (5 ∷ []) 4 (with_publisher 3 (4 ∷ 5 ∷ []))

choose_target_lem_example :
    ((choose_target asked (5 ∷ []) 4 3 (4 ∷ 5 ∷ []) ≡ failed no_target)
      × AllFailed asked (5 ∷ []) targets)
    ⊎ ((t : ℕ) × (choose_target asked (5 ∷ []) 4 3 (4 ∷ 5 ∷ []) ≡ ok t)
        × Chosen asked (5 ∷ []) t 4 targets)
choose_target_lem_example = choose_target_lem asked (5 ∷ []) 4 3 (4 ∷ 5 ∷ []) refl (omega arith)

asks_the_least_attempted : choose_target asked (5 ∷ []) 4 3 (4 ∷ 5 ∷ []) ≡ ok 4
unfolding choose_target least_attempted first_new has lookup
asks_the_least_attempted = refl

abbrev start : Rappel (List TimeOrderedEvent)
unfolding new_feed
start = record node { peers = []; candidates = []; feed_set = (5, new_feed 1 5 nowhere) ∷ [] }

abbrev wait_event : Event
wait_event = record {
  id = 0;
  whence = pos 100;
  node_id = 1;
  layer = application;
  flag = protocol rappel_wait_after_feed_join_req;
  payload = some (join_wait_data 5 initial_join 4 ((4, 1) ∷ []) []);
}

-- The node has asked node 4, which another node has named.
abbrev asked_4 : Asked
asked_4 = record { target = 4; attempted = (4, 1) ∷ []; failed_nodes = [] }

abbrev sent_to_4 : Message
sent_to_4 = record {
  src = 1;
  dst = 4;
  layer = application;
  content = join_req nowhere 21 (3 ∷ []) 5 initial_join ((4, 1) ∷ []) [];
}

abbrev first_state : Rappel (List TimeOrderedEvent)
unfolding new_feed
first_state = record start {
  feed_set = (5, record (new_feed 1 5 nowhere) { seeking_parent = true }) ∷ [];
  pending_events = (21, true) ∷ [];
  timer = inserted list_queue waiting (stamped list_queue waiting wait_event);
  sent = sent_to_4 ∷ [];
}

asks_4 :
    initiate_feed_join_req hash_funcs text whole options list_queue lowest start 5 [] [] 4
      initial_join
    ≡ ok first_state
unfolding initiate_feed_join_req send_join_req find_feed_subscribers subscribers_loop choose_target
    first_new has lookup insert attempt schedule_wait schedule_event schedule_event_aux
    get_candidate_list safe_send new_feed ◌+ℤ◌
asks_4 = refl

-- Node 4 denies, and the publisher is asked.
abbrev asked_publisher : Asked
asked_publisher = record { target = 5; attempted = (4, 1) ∷ (5, 1) ∷ []; failed_nodes = 4 ∷ [] }

abbrev sent_to_5 : Message
sent_to_5 = record {
  src = 1;
  dst = 5;
  layer = application;
  content = join_req nowhere 22 (3 ∷ 4 ∷ []) 5 initial_join ((4, 1) ∷ (5, 1) ∷ []) (4 ∷ []);
}

abbrev second_event : Event
second_event = record wait_event {
  payload = some (join_wait_data 5 initial_join 5 ((4, 1) ∷ (5, 1) ∷ []) (4 ∷ []));
}

abbrev cancelled : Timer (List TimeOrderedEvent)
cancelled = record first_state.timer { events = waiting.events }

abbrev second_state : Rappel (List TimeOrderedEvent)
second_state = record first_state {
  candidates =
      (
        4,
        record (candidate 4) {
          filter = record { hash_table = 0 ∷ []; table_size = 1; version = 0 };
        },
      )
      ∷ [];
  pending_events = (21, true) ∷ (22, true) ∷ [];
  timer = inserted list_queue cancelled (stamped list_queue cancelled second_event);
  sent = sent_to_4 ∷ sent_to_5 ∷ [];
  draws = 1;
}

asks_publisher :
    receive_feed_join_reply_deny options lowest nowhere list_queue whole hash_funcs text first_state
      4 nowhere 21 [] 5 none initial_join
      ((4, 1) ∷ [])
      []
    ≡ ok second_state
unfolding initiate_feed_join_req send_join_req find_feed_subscribers subscribers_loop choose_target
    first_new has lookup insert erase attempt schedule_wait schedule_event schedule_event_aux
    get_candidate_list safe_send new_feed ◌+ℤ◌ receive_feed_join_reply_deny with_failed cancel_event
    add_candidate add_candidates Candidates.add_candidate
asks_publisher = refl

two_requests :
    SentAfter options lowest nowhere list_queue whole hash_funcs text 5
      (4 ∷ 5 ∷ [])
      asked_publisher
      1
unfolding start first_state
two_requests =
    denied first_state second_state nowhere 21 [] none initial_join asked_4 asked_publisher 0
      (first start first_state [] 4 initial_join asked_4 asks_4 (record {
        nc = nowhere;
        wait = 21;
        candidates = 3 ∷ [];
        request_type = initial_join;
        is_sent = refl;
      }))
      asks_publisher
      (record {
        nc = nowhere;
        wait = 22;
        candidates = 3 ∷ 4 ∷ [];
        request_type = initial_join;
        is_sent = refl;
      })
      refl

requests_end_example :
    (1 ≤ length {A = ℕ} (4 ∷ 5 ∷ []))
    × (contains asked_publisher.failed_nodes 5 ≡ false)
    × (lookup 5 asked_publisher.attempted ≡ some 1)
    × ((k : ℕ)
        → has k asked_publisher.attempted ≡ true
        → (k ≡ 5) ⊎ (contains asked_publisher.failed_nodes k ≡ true))
requests_end_example =
    requests_end options lowest nowhere list_queue whole hash_funcs text 5 (4 ∷ 5 ∷ [])
      asked_publisher 1 two_requests

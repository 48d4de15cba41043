-- ===== src/Feed/Pull.antt =====
-- src/feed.cpp: asking for missing updates, and passing updates on. A method takes and returns
-- the feed and its host: the timer, and the messages handed to the transport.
use rappel.Base.{
  ℕ, zero, suc, ◌+◌, Bool, false, ◌&&◌, not, List, [], ◌∷◌, ◌++◌, some, length, ltb, leb, ◌==◌,
  if◌then◌else◌, Result, ok, ◌>>=◌, ◌>>◌, assert, present, no_node, below_latest, entry_present,
  entry_missing, above_highest, not_pulled,
}
use rappel.Base.Map.{lookup, insert, erase, has}
use rappel.Base.Word.{add32}
use rappel.Base.Int.{pos}
use rappel.Events.{
  Event, no_such_node, application, protocol, rappel_wait_after_feed_update_pull_req,
  update_pull_data,
}
use rappel.Messages.{Message, feed_update, feed_update_pull_req, Outbox}
use rappel.Timer.{Timer, schedule_event}
use rappel.Timer.Queue.{EventQueue}
use rappel.Feed.{Feed, EntryDetails, start_seq, rounds}

pub record Host (Queue : Type 0) : Type 0 where
  pub timer : Timer Queue
  pub sent : Outbox

-- `set<event_id_t>::insert`.
abbrev pub set_insert : ℕ → List ℕ → List ℕ
set_insert k [] = k ∷ []
set_insert k (x ∷ xs) =
    if x == k then x ∷ xs else if ltb k x then k ∷ x ∷ xs else x ∷ set_insert k xs

abbrev pub pull_request : ℕ → ℕ → ℕ → ℕ → Message
pull_request owner feed_id src seq = record {
  src = owner;
  dst = src;
  layer = application;
  content = feed_update_pull_req feed_id seq;
}

-- The event after which the pull has failed; `timeout` is `globops.rappel_reply_timeout`.
abbrev pub pull_timeout : ℕ → ℕ → ℕ → ℕ → ℕ → Event
pull_timeout owner feed_id src timeout seq = record {
  id = 0;
  whence = pos timeout;
  node_id = owner;
  layer = application;
  flag = protocol rappel_wait_after_feed_update_pull_req;
  payload = some (update_pull_data feed_id seq src);
}

abbrev pub entry_message : Feed → ℕ → ℕ → Bool → EntryDetails → Message
entry_message f seq node pulled details = record {
  src = f.owner;
  dst = node;
  layer = application;
  content = feed_update f.id f.publisher_nc seq details.msg details.sync_emission_time pulled;
}

-- `send_entry`; `_cache[seq_num]` is there by the assertion.
unfoldable pub send_entry : Feed → Outbox → ℕ → ℕ → Bool → Result Outbox
send_entry f sent seq node pulled = do
  details ← present (lookup seq f.cache) entry_missing
  ok (sent ++ entry_message f seq node pulled details ∷ [])

unfoldable pub send_to_all : Feed → Outbox → ℕ → List ℕ → Result Outbox
send_to_all f sent seq [] = ok sent
send_to_all f sent seq (c ∷ cs) = do
  sent' ← send_entry f sent seq c false
  send_to_all f sent' seq cs

unfoldable pub send_entry_to_children : Feed → Outbox → ℕ → Result (ℕ × Outbox)
send_entry_to_children f sent seq = do
  assert (leb seq f.highest_update_seq) above_highest
  assert (has seq f.cache) entry_missing
  sent' ← send_to_all f sent seq f.children
  ok (length f.children, sent')

unfoldable pub mark_pull_as_failed : Feed → ℕ → ℕ → Result Feed
mark_pull_as_failed f seq old_src =
    let dropped = (do
      src ← present (lookup seq f.missing_entries) not_pulled
      assert (src == old_src) not_pulled
      ok (record f { missing_entries = erase seq f.missing_entries })) in
    do
      f' ← if has seq f.cache then ok f else dropped
      assert (not (has seq f'.missing_entries)) entry_present
      ok f'

module _ (pq : EventQueue) (size timeout : ℕ) where
  unfoldable pub pull_entry : Feed → Host (pq.Queue) → ℕ → ℕ → Result (Feed × Host (pq.Queue))
  pull_entry f h seq src = do
    assert (ltb f.latest_update_seq seq) below_latest
    assert (not (has seq f.cache)) entry_present
    r ← schedule_event pq h.timer (pull_timeout f.owner f.id src timeout seq)
    ok (
      record f { pull_entry_events = set_insert r.0 f.pull_entry_events },
      record { timer = r.1; sent = h.sent ++ pull_request f.owner f.id src seq ∷ [] },
    )

  -- The loop of `request_missing_entries`.
  unfoldable pub pull_loop :
      ℕ → ℕ → ℕ → ℕ → Feed → Host (pq.Queue) → Result (ℕ × Feed × Host (pq.Queue))
  pull_loop zero u src pulled f h = ok (pulled, f, h)
  pull_loop (suc n) u src pulled f h =
      let skip = pull_loop n (add32 u 1) src pulled f h in
      let pull = (do
        r ← pull_entry (record f { missing_entries = insert u src f.missing_entries }) h u src
        pull_loop n (add32 u 1) src (pulled + 1) r.0 r.1) in
      if not (has u f.cache) && not (has u f.missing_entries) then pull else skip

  unfoldable pub request_missing_entries :
      Feed → Host (pq.Queue) → ℕ → ℕ → Result (ℕ × Feed × Host (pq.Queue))
  request_missing_entries f h seq src = do
    assert (not (src == no_such_node)) no_node
    let f' = record f {
      highest_update_seq = if ltb f.highest_update_seq seq then seq else f.highest_update_seq;
    }
    if ltb seq f.latest_update_seq
        then ok (0, f', h)
        else pull_loop (rounds size seq) (start_seq size seq) src 0 f' h

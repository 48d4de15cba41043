-- ===== src/Feed/Tree.antt =====
-- src/feed.cpp and include/feed.h: the node's place in the dissemination tree of the feed, its
-- parent, ancestors and children, and the event of the periodic rejoin. A method takes and
-- returns the feed, and the timer where it schedules. Draws of the random numbers are arguments.
use rappel.Base.{
  ℕ, ◌+◌, ◌-◌, ◌*◌, Bool, not, List, [], ◌∷◌, ◌++◌, some, length, ltb, leb, ◌==◌, if◌then◌else◌,
  Result, ok, ◌>>=◌, ◌>>◌, assert, present, contains, erase_first, get_elem?, no_node, no_event,
  is_scheduled, bad_ancestors, too_many_children, is_a_child, not_a_child, out_of_range,
  interval_too_short,
}
use rappel.Base.Int.{pos}
use rappel.Events.{
  Event, no_such_node, no_such_event_id, application, protocol, rappel_periodic_feed_rejoin,
  rejoin_data, minute,
}
use rappel.Timer.{Timer, schedule_event, cancel_event}
use rappel.Timer.Queue.{EventQueue}
use rappel.Feed.{Feed}

abbrev pub has_parent : Feed → Bool
has_parent f = not (f.parent == no_such_node)

unfoldable pub get_parent : Feed → Result ℕ
get_parent f = do assert (has_parent f) no_node; ok f.parent

abbrev pub is_parent : Feed → ℕ → Bool
is_parent f node = f.parent == node

abbrev pub is_child : Feed → ℕ → Bool
is_child f node = contains f.children node

abbrev pub is_an_ancestor : Feed → ℕ → Bool
is_an_ancestor f node = contains f.ancestors node

abbrev pub is_rejoin_scheduled : Feed → Bool
is_rejoin_scheduled f = not (f.rejoin_event_id == no_such_event_id)

-- `a[i] == node`, an assertion; an index out of range is undefined in the source.
unfoldable pub expect : List ℕ → ℕ → ℕ → Result (Unit {0})
expect nodes i node = do
  n ← present (get_elem? nodes i) out_of_range
  assert (n == node) bad_ancestors

unfoldable pub get_grand_parent : Feed → Result ℕ
get_grand_parent f =
    let n = length f.ancestors in
    let checked = (do
      expect f.ancestors 0 f.id
      parent ← get_parent f
      expect f.ancestors (n - 1) parent
      present (get_elem? f.ancestors (n - 2)) out_of_range) in
    if ltb 1 n then checked else ok no_such_node

-- `ancestor_num` is what the generator draws.
unfoldable pub get_random_ancestor : Feed → ℕ → Result ℕ
get_random_ancestor f ancestor_num = do
  let n = length f.ancestors
  assert (ltb 1 n) bad_ancestors
  expect f.ancestors 0 f.id
  if has_parent f then expect f.ancestors (n - 1) f.parent else ok tt
  assert (leb ancestor_num (n - 2)) out_of_range
  present (get_elem? f.ancestors ancestor_num) out_of_range

unfoldable pub set_ancestors : Feed → List ℕ → Result Feed
set_ancestors f ancestors = do
  assert (ltb 0 (length ancestors)) bad_ancestors
  expect ancestors 0 f.id
  parent ← get_parent f
  expect ancestors (length ancestors - 1) parent
  assert (ltb (length ancestors) 100) bad_ancestors
  assert (not (contains ancestors f.owner)) bad_ancestors
  ok (record f { ancestors = ancestors })

abbrev pub clear_ancestors : Feed → Feed
clear_ancestors f = record f { ancestors = [] }

unfoldable pub set_grand_parent : Feed → ℕ → Result Feed
set_grand_parent f node = do
  assert (not (node == no_such_node)) no_node
  ok (record f { grand_parent = node })

unfoldable pub unset_parent : Feed → Result Feed
unset_parent f = do
  assert (has_parent f) no_node
  ok (record f { parent = no_such_node; grand_parent = no_such_node })

-- `max_children` is `globops.rappel_num_feed_children`.
unfoldable pub add_child : ℕ → Feed → ℕ → Result Feed
add_child max_children f child = do
  assert (leb (length f.children) max_children) too_many_children
  assert (not (is_child f child)) is_a_child
  ok (record f { children = f.children ++ child ∷ [] })

unfoldable pub remove_child : Feed → ℕ → Result Feed
remove_child f child = do
  assert (is_child f child) not_a_child
  ok (record f { children = erase_first f.children child })

-- The event that `schedule_rejoin` schedules.
abbrev pub rejoin_event : Feed → ℕ → Event
rejoin_event f whence = record {
  id = 0;
  whence = pos whence;
  node_id = f.owner;
  layer = application;
  flag = protocol rappel_periodic_feed_rejoin;
  payload = some (rejoin_data f.id);
}

-- The pulls that a list of event ids waits for are given up.
unfoldable pub cancel_all : (pq : EventQueue) → Timer (pq.Queue) → List ℕ → Timer (pq.Queue)
cancel_all pq t [] = t
cancel_all pq t (id ∷ ids) = cancel_all pq (cancel_event pq t id).1 ids

-- `interval` is `globops.rappel_feed_rejoin_interval`, `draw` the result of `rand_ulonglong`.
module _ (pq : EventQueue) (interval draw : ℕ) where
  -- The time to the rejoin.
  unfoldable pub rejoin_whence : Bool → Result ℕ
  rejoin_whence initial_rejoin =
      if initial_rejoin
      then ok draw
      else (assert (ltb (1 * minute) interval) interval_too_short
          >> ok (interval - 1 * minute + draw))

  unfoldable pub schedule_rejoin : Feed → Timer (pq.Queue) → Bool → Result (Feed × Timer (pq.Queue))
  schedule_rejoin f t initial_rejoin =
      let scheduled = (do
        whence ← rejoin_whence initial_rejoin
        r ← schedule_event pq t (rejoin_event f whence)
        ok (record f { rejoin_event_id = r.0 }, r.1)) in
      do
        assert (not (is_rejoin_scheduled f)) is_scheduled
        if not (f.owner == f.id) then scheduled else ok (f, t)

  unfoldable pub reschedule_rejoin :
      Feed → Timer (pq.Queue) → Bool → Result (Feed × Timer (pq.Queue))
  reschedule_rejoin f t initial_rejoin = do
    let scheduled = is_rejoin_scheduled f
    let f₁ = if scheduled then record f { rejoin_event_id = no_such_event_id } else f
    let t₁ = if scheduled then (cancel_event pq t f.rejoin_event_id).1 else t
    r ← schedule_rejoin f₁ t₁ initial_rejoin
    assert (is_rejoin_scheduled r.0) no_event
    ok r

  unfoldable pub set_parent : Feed → Timer (pq.Queue) → ℕ → Result (Feed × Timer (pq.Queue))
  set_parent f t parent = do
    assert (not (parent == no_such_node)) no_node
    r ← reschedule_rejoin (record f { parent = parent }) t (f.parent == no_such_node)
    assert (is_rejoin_scheduled r.0) no_event
    ok r

unfoldable pub cancel_events : (pq : EventQueue) → Feed → Timer (pq.Queue) → Feed × Timer (pq.Queue)
cancel_events pq f t =
    let own = f.owner == f.id in
    let t₁ = if own then t else (cancel_event pq t f.rejoin_event_id).1 in
    (
      record f {
        rejoin_event_id = if own then f.rejoin_event_id else no_such_event_id;
        pull_entry_events = [];
      },
      cancel_all pq t₁ f.pull_entry_events,
    )

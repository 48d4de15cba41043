-- ===== src/Timer.antt =====
-- src/timer.cpp and include/timer.h as the simulator compiles them: the queue of events, the
-- map of the events that are pending, and the loop that executes them.
-- The queue is a `std::priority_queue` behind `Queue.EventQueue`. A callback is a function
-- pointer, here a number that `handler` reads; what it does to the timer is a `Program` of calls
-- of the timer's public methods, since its fields are private. The clock does not overflow.
pub mod Queue
pub mod Inv
pub mod Steps
pub mod Run
pub mod Advance
pub mod Loop
pub mod Calls
pub mod Cancelled
pub mod Fixture
mod Tests
use rappel.Base.{
  ℕ, zero, suc, ◌+◌, ◌*◌, ◌%◌, Bool, true, false, ◌&&◌, Option, none, some, List, [], ◌∷◌, not, leb,
  Result, ok, failed, ◌>>=◌, ◌>>◌, assert, present,
}
use rappel.Base.{
  time_goes_back, wrong_time, past_termination, id_in_use, not_registered, not_initialized,
  whence_out_of_range, unknown_event, bad_data, already_registered,
}
use rappel.Base.Map.{Map, lookup, insert, erase, has}
use rappel.Base.Word.{add32}
use rappel.Base.Int.{ℤ, pos, negsuc, ◌+ℤ◌, ◌-ℤ◌, leb_ℤ, ltb_ℤ, eqb_ℤ}
use rappel.Events.{
  Event, Layer, layer_key, layer_of_key, EventFlag, EventData, stats_data, debug, stats, final,
  is_initialized, new_event, no_such_event_id, second, day,
}
use Queue.{EventQueue, TimeOrderedEvent}

-- `_num_events_executed` counts for a progress report only, and is left out.
pub record Timer (Queue : Type 0) : Type 0 where
  pub time : ℤ
  pub sync_offset : ℤ
  pub current_event_id : ℕ
  pub callbacks : Map ℕ
  pub events : Map Event
  pub queue : Queue

-- What a callback does with the timer, and how its own state ends.
pub data Program (A : Type 0) : Type 0 where
  done : A → Program A
  get_time : (ℤ → Program A) → Program A
  schedule : Event → (ℕ → Program A) → Program A
  cancel : ℕ → (Bool → Program A) → Program A
  reschedule : ℕ → ℤ → (ℕ → Program A) → Program A

-- `sim_evt_status`.
pub data Status : Type 0 where
  success unsuccessful fin : Status

-- Why `start_timer` stopped, or that it has not.
pub data Progress : Type 0 where
  running finished drained : Progress

abbrev pub progress_of : Status → Progress
progress_of fin = finished
progress_of _ = running

abbrev pub in_range : ℤ → Bool
in_range w = leb_ℤ (pos 0) w && leb_ℤ w (pos (31 * day))

abbrev pub entry : Event → TimeOrderedEvent
entry e = record { id = e.id; whence = e.whence }

-- The event that every layer is sent at the end.
abbrev pub final_event : ℕ → Event
final_event l = record new_event { layer = layer_of_key l; flag = final }

-- `data->seq_num++` on an `unsigned int`, and the time of the next round.
abbrev pub next_stats : {Queue : Type 0} → ℕ → Event → ℕ → ℕ → Timer Queue → Event
next_stats interval e seq start t =
    let seq' = add32 seq 1 in
    record e {
      payload = some (stats_data seq' start);
      whence = pos (start + seq' * interval) -ℤ (t.time +ℤ t.sync_offset);
    }

module _ (pq : EventQueue) where
  open pq use {Queue, empty, push, pop}

  -- `Timer::Timer()`.
  unfoldable pub init : Timer Queue
  init = record {
    time = pos 0;
    sync_offset = pos 0;
    current_event_id = no_such_event_id;
    callbacks = [];
    events = [];
    queue = empty;
  }

  unfoldable pub register_callback : Timer Queue → Layer → ℕ → Result (Timer Queue)
  register_callback t l callback = do
    assert (not (has (layer_key l) t.callbacks)) already_registered
    ok (record t { callbacks = insert (layer_key l) callback t.callbacks })

  -- What `schedule_event_aux` puts in the map and the queue.
  abbrev pub stamped : Timer Queue → Event → Event
  stamped t e = record e { id = add32 t.current_event_id 1; whence = t.time +ℤ e.whence }

  abbrev pub inserted : Timer Queue → Event → Timer Queue
  inserted t e = record t {
    current_event_id = e.id;
    queue = push t.queue (entry e);
    events = insert e.id e t.events;
  }

  unfoldable pub schedule_event_aux : Timer Queue → Event → Result (ℕ × Timer Queue)
  schedule_event_aux t e = do
    let e' = stamped t e
    assert (not (has e'.id t.events)) id_in_use
    ok (e'.id, inserted t e')

  unfoldable pub schedule_event : Timer Queue → Event → Result (ℕ × Timer Queue)
  schedule_event t e = do
    assert (has (layer_key e.layer) t.callbacks) not_registered
    assert (is_initialized e) not_initialized
    assert (in_range e.whence) whence_out_of_range
    schedule_event_aux t e

  -- The entry of the queue stays; `execute_event_aux` finds no event for it.
  unfoldable pub cancel_event : Timer Queue → ℕ → Bool × Timer Queue
  cancel_event t id = elim (lookup id t.events) [
    | none ↦ (false, t)
    | some e ↦ (true, record t { events = erase id t.events })
  ]

  unfoldable pub reschedule_event : Timer Queue → ℕ → ℤ → Result (ℕ × Timer Queue)
  reschedule_event t id whence = do
    assert (in_range whence) whence_out_of_range
    e ← present (lookup id t.events) unknown_event
    schedule_event (record t { events = erase id t.events }) (record e { whence = whence })

  unfoldable pub run_program : {A : Type 0} → Program A → Timer Queue → Result (A × Timer Queue)
  run_program (done a) t = ok (a, t)
  run_program (get_time k) t = run_program (k t.time) t
  run_program (schedule e k) t = schedule_event t e >>= λ r. run_program (k r.0) r.1
  run_program (cancel id k) t = let (b, t') = cancel_event t id in run_program (k b) t'
  run_program (reschedule id w k) t = reschedule_event t id w >>= λ r. run_program (k r.0) r.1

  -- `App` is the state of all that the callbacks reach; `handler` is the code behind each
  -- function pointer, `termination_time` and `stats_interval` are fields of `globops`.
  -- The loops of `execute_event_aux` over all callbacks, in the order of their layers.
  module _ {App : Type 0} (handler : ℕ → Event → App → Program App) where
    unfoldable pub notify_all : Map ℕ → (ℕ → Event) → App → Timer Queue → Result (App × Timer Queue)
    notify_all [] event_for a t = ok (a, t)
    notify_all ((l, callback) ∷ rest) event_for a t =
        run_program (handler callback (event_for l) a) t >>= λ r. notify_all rest event_for r.0 r.1

  unfoldable pub schedule_stats :
      {App : Type 0}
      → ℕ
      → Event
      → Option EventData
      → App
      → Timer Queue
      → Result (Status × App × Timer Queue)
  schedule_stats interval e (some (stats_data seq start)) a t =
      schedule_event_aux t (next_stats interval e seq start t) >>= λ r. ok (success, a, r.1)
  schedule_stats interval e _ a t = failed bad_data

  module _ {App : Type 0} (termination_time : ℤ) (stats_interval : ℕ)
      (handler : ℕ → Event → App → Program App) where
    unfoldable pub dispatch :
        EventFlag → Event → App → Timer Queue → Result (Status × App × Timer Queue)
    unfolding schedule_stats
    dispatch final e a t =
        notify_all handler t.callbacks final_event a t >>= λ r. ok (fin, r.0, r.1)
    dispatch debug e a t =
        schedule_event_aux t (record e { whence = pos second }) >>= λ r. ok (success, a, r.1)
    dispatch stats e a t =
        notify_all handler t.callbacks (λ l. record e { layer = layer_of_key l }) a t >>= λ r.
        schedule_stats stats_interval e e.payload r.0 r.1
    dispatch _ e a t = do
      callback ← present (lookup (layer_key e.layer) t.callbacks) not_registered
      r ← run_program (handler callback e a) t
      ok (success, r.0, r.1)

    -- The tests of `execute_event_aux` on a pending event.
    unfoldable pub execute_found :
        Event → ℕ → App → Timer Queue → Result (Status × App × Timer Queue)
    execute_found e id a t = do
      assert (eqb_ℤ e.whence t.time) wrong_time
      dispatch e.flag e a (record t { events = erase id t.events })

    unfoldable pub execute_event_aux : ℕ → App → Timer Queue → Result (Status × App × Timer Queue)
    execute_event_aux id a t = do
      assert (not (ltb_ℤ (termination_time +ℤ pos 1) t.time)) past_termination
      elim (lookup id t.events) [ none ↦ ok (unsuccessful, a, t) | some e ↦ execute_found e id a t ]

    -- One round of the loop of `start_timer`, after `top` and `pop`.
    unfoldable pub execute_entry :
        TimeOrderedEvent → App → Timer Queue → Result (Progress × App × Timer Queue)
    execute_entry toe a t = do
      assert (leb_ℤ t.time toe.whence) time_goes_back
      r ← execute_event_aux toe.id a (record t { time = toe.whence })
      ok (progress_of r.0, r.1, r.2)

    unfoldable pub round : App → Timer Queue → Result (Progress × App × Timer Queue)
    unfolding execute_entry
    round a t = elim (pop t.queue) [
      | none ↦ ok (drained, a, t)
      | some (toe, rest) ↦ execute_entry toe a (record t { queue = rest })
    ]

    -- At most `n` rounds: the loop need not end, since events schedule events.
    unfoldable pub start_timer : ℕ → App → Timer Queue → Result (Progress × App × Timer Queue)
    start_timer zero a t = ok (running, a, t)
    start_timer (suc n) a t =
        round a t >>= λ r. elim r.0 [ running ↦ start_timer n r.1 r.2 | p ↦ ok (p, r.1, r.2) ]

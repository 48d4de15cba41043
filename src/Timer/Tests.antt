-- ===== src/Timer/Tests.antt =====
-- The timer at concrete inputs: two layers, an application that schedules one more event.
use rappel.Base.{
  ℕ, zero, suc, ◌*◌, ◌≡◌, ◌≢◌, refl, List, [], ◌∷◌, Option, none, some, ok, Result, arith,
}
use rappel.Base.Map.{lookup, insert, erase, has}
use rappel.Base.Int.{ℤ, pos, ◌+ℤ◌, ◌-ℤ◌}
use rappel.Events.{Event, no_such_event_id}
use rappel.Timer.Queue.{TimeOrderedEvent, list_queue, take_least}
use rappel.Timer.{
  Timer, Program, done, schedule, Progress, running, finished, schedule_event, schedule_event_aux,
  cancel_event, start_timer, round, execute_entry, execute_event_aux, execute_found, dispatch,
  notify_all, run_program, schedule_stats,
}
use rappel.Timer.Steps.{Calls}
use rappel.Timer.Advance.{Rounds}
use rappel.Timer.Loop.{start_timer-Rounds}
use rappel.Timer.Fixture.{start_event, stats_event, loaded, loaded-Inv}
use rappel.Timer.Calls.{schedule_event_accepts}
use rappel.Timer.Cancelled.{cancel_event_prevents}

-- The application counts its calls, and at its first event schedules another, 3 later.
abbrev on_event : ℕ → Event → ℕ → Program ℕ
on_event zero e zero = schedule (record start_event { whence = pos 3 }) (λ id. done 1)
on_event h e n = done (suc n)

-- Events at 5, 8 and 10, statistics at 20 (round 2), the end at 25: two notices of statistics
-- to both layers, one notice of the end to both.
abbrev outcome :
    Result (Progress × ℕ × Timer (List TimeOrderedEvent)) → Option (Progress × ℕ × ℤ × ℕ)
outcome (ok (p, n, t)) = some (p, n, t.time, t.current_event_id)
outcome _ = none

run_to_the_end :
    outcome (start_timer list_queue (pos 24) 10 on_event 10 0 loaded)
    ≡ some (finished, 8, pos 25, 14)
unfolding start_timer round execute_entry execute_event_aux execute_found dispatch notify_all
    run_program schedule_stats schedule_event schedule_event_aux lookup insert erase has ◌+ℤ◌ ◌-ℤ◌
    take_least
run_to_the_end = refl

on_event-Calls : (h : ℕ) (e : Event) (n : ℕ) → Calls 1 (on_event h e n)
on_event-Calls zero e zero = (omega arith, λ p. cc, λ id. tt)
on_event-Calls zero e (suc n) = tt
on_event-Calls (suc h) e n = tt

start_timer-Rounds_example :
    Rounds list_queue 10
      (λ r. r.2)
      loaded
      (10 * 4)
      (start_timer list_queue (pos 24) 10 on_event 10 0 loaded)
start_timer-Rounds_example =
    start_timer-Rounds list_queue 24 10 1 on_event on_event-Calls 10 0 loaded-Inv (omega arith)

schedule_event_accepts_example :
    (id : ℕ) × (t' : Timer (List TimeOrderedEvent)) × (schedule_event list_queue loaded start_event
      ≡ ok (id, t'))
    × (id ≢ no_such_event_id)
    × (lookup id loaded.events ≡ none)
    × (lookup id t'.events ≡ some (record start_event { id = id; whence = loaded.time +ℤ pos 5 }))
    × list_queue.Has t'.queue (record { id = id; whence = loaded.time +ℤ pos 5 })
    × ((j : ℕ) → j ≢ id → lookup j t'.events ≡ lookup j loaded.events)
unfolding has lookup
schedule_event_accepts_example =
    schedule_event_accepts loaded-Inv start_event refl refl refl (omega arith)

-- The timer after two rounds, where the end, event 11, was cancelled before.
abbrev after_two : Timer (List TimeOrderedEvent)
after_two = record loaded {
  time = pos 8;
  current_event_id = 12;
  events = (10, record stats_event { id = 10 }) ∷ [];
  queue = record { id = 11; whence = pos 25 } ∷ record { id = 10; whence = pos 10 } ∷ [];
}

two_rounds_without_11 :
    start_timer list_queue (pos 24) 10 on_event 2 0 (cancel_event list_queue loaded 11).1
    ≡ ok (running, 2, after_two)
unfolding start_timer round execute_entry execute_event_aux execute_found dispatch notify_all
    run_program schedule_stats schedule_event schedule_event_aux lookup insert erase has ◌+ℤ◌ ◌-ℤ◌
    take_least cancel_event
two_rounds_without_11 = refl

cancel_event_prevents_example :
    ((cancel_event list_queue loaded 11).0 ≡ has 11 loaded.events)
    × (lookup 11 ((cancel_event list_queue loaded 11).1).events ≡ none)
    × ((j : ℕ)
        → j ≢ 11
        → lookup j ((cancel_event list_queue loaded 11).1).events ≡ lookup j loaded.events)
    × (lookup 11 after_two.events ≡ none)
    × (execute_entry list_queue
          (pos 24)
          10
          on_event
          (record { id = 11; whence = pos 25 })
          2
          after_two
        ≡ ok (running, 2, record after_two { time = pos 25 }))
unfolding ◌+ℤ◌
cancel_event_prevents_example =
    cancel_event_prevents list_queue 24 10 on_event 1 on_event-Calls 2 11 0 2 running (pos 25)
      loaded-Inv (omega arith) (omega arith) two_rounds_without_11 (omega arith) (omega arith)

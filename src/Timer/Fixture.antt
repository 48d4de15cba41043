-- ===== src/Timer/Fixture.antt =====
-- A timer with three events, to test the timer and what runs on it.
use rappel.Base.{◌≡◌, refl, List, [], ◌∷◌, some, arith}
use rappel.Base.Map.{lookup}
use rappel.Base.Int.{pos, ◌+ℤ◌}
use rappel.Events.{
  Event, stats_data, other_data, application, driver, stats, final, protocol, rappel_start,
}
use rappel.Timer.Queue.{TimeOrderedEvent, list_queue}
use rappel.Timer.{Timer, stamped, inserted}
use rappel.Timer.Inv.{Inv, inserted-Inv}

-- An event of the application.
abbrev pub start_event : Event
start_event = record {
  id = 0;
  whence = pos 5;
  node_id = 1;
  layer = application;
  flag = protocol rappel_start;
  payload = some (other_data 0);
}

abbrev pub stats_event : Event
stats_event = record start_event {
  whence = pos 10;
  layer = driver;
  flag = stats;
  payload = some (stats_data 1 0);
}

abbrev pub last_event : Event
last_event = record start_event { whence = pos 25; layer = driver; flag = final }

abbrev pub idle : Timer (List TimeOrderedEvent)
idle = record {
  time = pos 0;
  sync_offset = pos 0;
  current_event_id = 8;
  callbacks = (2, 0) ∷ (4, 1) ∷ [];
  events = [];
  queue = [];
}

-- Events at 5 and 10 and the end at 25.
abbrev pub one_event : Timer (List TimeOrderedEvent)
one_event = inserted list_queue idle (stamped list_queue idle start_event)

abbrev pub two_events : Timer (List TimeOrderedEvent)
two_events = inserted list_queue one_event (stamped list_queue one_event stats_event)

abbrev pub loaded : Timer (List TimeOrderedEvent)
loaded = inserted list_queue two_events (stamped list_queue two_events last_event)

pub idle-Inv : Inv list_queue 10 idle
unfolding lookup
idle-Inv = record {
  fresh = λ u h. absurd h;
  order = λ u h. absurd h;
  agree = λ u e h l. absurd h;
  listed = λ k e l. cc;
  on_time = λ k e l seq start f p. cc;
  offset = refl;
  started = omega arith;
}

pub loaded-Inv : Inv list_queue 10 loaded
unfolding ◌+ℤ◌
loaded-Inv =
    inserted-Inv
      (inserted-Inv
        (inserted-Inv idle-Inv start_event (omega arith) (omega arith) λ seq start f p. cc)
        stats_event (omega arith) (omega arith)
        λ seq start f p.
          let e : start ≡ 0 = cc in
          let e' : seq ≡ 1 = cc in (rw (e, e') (omega arith), rw e' (omega arith)))
      last_event (omega arith) (omega arith) λ seq start f p. cc

-- ===== src/Timer/Calls.antt =====
-- src/timer.cpp: `schedule_event` as its callers see it.
use rappel.Base.{
  ℕ, ◌+◌, ◌^◌, ◌<◌, ◌≡◌, ap, sym, ◌∙◌, ◌≢◌, true, none, some, arith, ==_refl, if◌then◌else◌, ok,
}
use rappel.Base.Map.{lookup, has, lookup-insert, lookup_of_not_has}
use rappel.Base.Int.{◌+ℤ◌}
use rappel.Base.Word.{add32}
use rappel.Events.{Event, layer_key, is_initialized, no_such_event_id}
use rappel.Timer.Queue.{EventQueue}
use rappel.Timer.{Timer, in_range, stamped, inserted, schedule_event}
use rappel.Timer.Inv.{Inv, next_id, free, schedule_event_aux_lem}

module _ {pq : EventQueue} {interval : ℕ} {t : Timer (pq.Queue)} (v : Inv pq interval t) where
  -- The result of `schedule_event` where all its assertions hold.
  pub schedule_event_lem :
      (e : Event)
      → has (layer_key e.layer) t.callbacks ≡ true
      → is_initialized e ≡ true
      → in_range e.whence ≡ true
      → t.current_event_id + 1 < 2 ^ 32
      → schedule_event pq t e ≡ ok (t.current_event_id + 1, inserted pq t (stamped pq t e))
  unfolding schedule_event
  schedule_event_lem e reg ini rng room = rw (reg, ini, rng) (schedule_event_aux_lem v e room)

  -- A proper event is accepted: it gets an id of its own, which is never the "no such event" id,
  -- it is pending at the time asked for, counted from now, it waits in the queue, and every other
  -- pending event stays as it was.
  pub schedule_event_accepts :
      (e : Event)
      → has (layer_key e.layer) t.callbacks ≡ true
      → is_initialized e ≡ true
      → in_range e.whence ≡ true
      → t.current_event_id + 1 < 2 ^ 32
      → (id : ℕ) × (t' : Timer (pq.Queue)) × (schedule_event pq t e ≡ ok (id, t'))
        × (id ≢ no_such_event_id)
        × (lookup id t.events ≡ none)
        × (lookup id t'.events ≡ some (record e { id = id; whence = t.time +ℤ e.whence }))
        × pq.Has t'.queue (record { id = id; whence = t.time +ℤ e.whence })
        × ((j : ℕ) → j ≢ id → lookup j t'.events ≡ lookup j t.events)
  schedule_event_accepts e reg ini rng room = (
    next,
    inserted pq t (stamped pq t e),
    (schedule_event_lem e reg ini rng room
        ∙ ap (λ n. ok (n, inserted pq t (stamped pq t e))) (sym one)),
    omega (arith, one, v.started),
    lookup_of_not_has next t.events (free v e room),
    lookup-insert next next (stamped pq t e) t.events
        ∙ ap (λ b. if b then some (stamped pq t e) else lookup next t.events) (==_refl next),
    pq.Has-push_self t.queue _,
    λ j other. ground (arith, lookup-insert next j (stamped pq t e) t.events),
  )
    where
      next : ℕ
      next = add32 t.current_event_id 1

      one : next ≡ t.current_event_id + 1
      one = next_id v e room

-- ===== src/Timer/Cancelled.antt =====
-- src/timer.cpp: `cancel_event`, and the entry that it leaves in the queue.
use rappel.Base.{
  ℕ, ◌+◌, ◌*◌, ◌^◌, ◌≤◌, ◌<◌, ◌≡◌, ◌≢◌, refl, sym, ◌∙◌, inl, inr, false, none, arith, ==_refl,
  Option-cases, ok, length,
}
use rappel.Base.Map.{Map, lookup, has, lookup-erase, has_of_lookup}
use rappel.Base.Int.{ℤ, pos, ◌≤ℤ◌, ◌+ℤ◌, ltb_ℤ}
use rappel.Events.{Event}
use rappel.Timer.Queue.{EventQueue}
use rappel.Timer.{
  Timer, Program, Progress, running, cancel_event, execute_event_aux, execute_entry, start_timer,
}
use rappel.Timer.Inv.{Inv}
use rappel.Timer.Steps.{Calls, cancel_event-Kept}
use rappel.Timer.Advance.{leb_ℤ-true}
use rappel.Timer.Loop.{start_timer-Rounds}

has_of_none {ℓ} : {V : Type ℓ} (k : ℕ) (m : Map V) → lookup k m ≡ none → false ≡ has k m
unfolding has
has_of_none k m e = rw (e, has)

module _ (pq : EventQueue) {App : Type 0} (termination interval : ℕ)
    (handler : ℕ → Event → App → Program App) where
  -- An entry without an event is taken off the queue, and that is all.
  execute_absent :
      (id : ℕ) (whence : ℤ) (a : App) (t : Timer (pq.Queue))
      → lookup id t.events ≡ none
      → t.time ≤ℤ whence
      → whence ≤ℤ pos termination +ℤ pos 1
      → execute_entry pq
          (pos termination)
          interval
          handler
          (record { id = id; whence = whence })
          a
          t
        ≡ ok (running, a, record t { time = whence })
  unfolding execute_entry execute_event_aux
  execute_absent id whence a t e ahead in_time =
      let early : ltb_ℤ (pos termination +ℤ pos 1) whence ≡ false = ground arith in
      rw (leb_ℤ-true t.time whence ahead, early, e)

  cancel_event_lem :
      (id : ℕ) (t : Timer (pq.Queue))
      → let (found, t') = cancel_event pq t id in
        (found ≡ has id t.events)
        × (lookup id t'.events ≡ none)
        × ((j : ℕ) → j ≢ id → lookup j t'.events ≡ lookup j t.events)
  unfolding cancel_event
  cancel_event_lem id t = elim (Option-cases (lookup id t.events)) [
    | inl e ↦ rw (e, cancel_event) (has_of_none id t.events e, e, λ j other. refl)
    | inr (ev, e) ↦
        rw (e, cancel_event)
          (
            sym (has_of_lookup id t.events e),
            (lookup-erase id id t.events ∙ rw (==_refl id) refl),
            λ j other. ground (arith, lookup-erase id j t.events),
          )
  ]

  module _ (k : ℕ) (calls : (h : ℕ) (e : Event) (a : App) → Calls k (handler h e a)) where
    -- Let the timer be sound and the id be one that it has given out. `cancel_event` says whether
    -- the event was pending, and it is not pending afterwards; the other events stay as they were.
    -- After rounds of the loop that fail no assertion, which may schedule and cancel events, the
    -- event is still not pending: an entry of the queue for it, at a time that is not before the
    -- clock and not past the termination, then leaves the application's state and the timer as they
    -- are, but for the clock, and the loop runs on. The callbacks are any programs that schedule at
    -- most `k` events each, none of them statistics, and the ids do not run out in these rounds.
    pub cancel_event_prevents :
        (n id : ℕ) (a b : App) {t u : Timer (pq.Queue)} (p : Progress) (whence : ℤ)
        → Inv pq interval t
        → id ≤ t.current_event_id
        → t.current_event_id + n * (length t.callbacks * k + k + 1) < 2 ^ 32
        → start_timer pq (pos termination) interval handler n a (cancel_event pq t id).1
          ≡ ok (p, b, u)
        → u.time ≤ℤ whence
        → whence ≤ℤ pos termination +ℤ pos 1
        → let (found, t') = cancel_event pq t id in
          (found ≡ has id t.events)
          × (lookup id t'.events ≡ none)
          × ((j : ℕ) → j ≢ id → lookup j t'.events ≡ lookup j t.events)
          × (lookup id u.events ≡ none)
          × (execute_entry pq
                (pos termination)
                interval
                handler
                (record { id = id; whence = whence })
                b
                u
              ≡ ok (running, b, record u { time = whence }))
    cancel_event_prevents n id a b {t} {u} p whence v old room run ahead in_time =
        let (found, absent, others) = cancel_event_lem id t in
        let c = cancel_event-Kept v id in
        let rounds = rw run at (
          start_timer-Rounds pq termination interval k handler calls n a c.inv
            (rw (c.same_callbacks) (omega (arith, c.bounded)))) in
        let still : lookup id u.events ≡ none = rounds.gone id (omega (arith, c.grows)) absent in
        (found, absent, others, still, execute_absent id whence b u still ahead in_time)

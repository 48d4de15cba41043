-- ===== src/Timer/Inv.antt =====
-- src/timer.cpp: the invariant of the simulator's timer, and what one scheduling, cancelling or erasing of an
-- event does to it.
use rappel.Base.{
  ℕ, suc, ◌+◌, ◌*◌, ◌^◌, ◌≤◌, ◌<◌, ◌≡◌, refl, ap, inl, inr, false, some, arith, Bool-cases,
  Option-cases, ok,
}
use rappel.Base.Map.{lookup, erase, has, lookup-erase, lookup_of_has, lookup-insert_cases}
use rappel.Base.Int.{pos, ◌≤ℤ◌, int_laws}
use rappel.Base.Word.{add32}
use rappel.Events.{Event, stats_data, stats, no_such_event_id}
use rappel.Timer.Queue.{EventQueue, TimeOrderedEvent}
use rappel.Timer.{Timer, stamped, inserted, schedule_event_aux, cancel_event, init}

-- A pending event of the statistics comes no later than the round after its own number.
abbrev pub IsOnTime : ℕ → ℕ → Event → Type 0
IsOnTime interval id e =
    (seq start : ℕ)
    → e.flag ≡ stats
    → e.payload ≡ some (stats_data seq start)
    → (e.whence ≤ℤ pos (start + suc seq * interval)) × (seq < id)

module _ (pq : EventQueue) (interval : ℕ) where
  pub record Inv (t : Timer (pq.Queue)) : Type 0 where
    pub fresh : (u : TimeOrderedEvent) → pq.Has t.queue u → u.id ≤ t.current_event_id
    pub order : (u : TimeOrderedEvent) → pq.Has t.queue u → t.time ≤ℤ u.whence
    pub agree :
        (u : TimeOrderedEvent) (e : Event)
        → pq.Has t.queue u
        → lookup u.id t.events ≡ some e
        → e.whence ≡ u.whence
    pub listed :
        (k : ℕ) (e : Event)
        → lookup k t.events ≡ some e
        → pq.Has t.queue (record { id = k; whence = e.whence })
    pub on_time : (k : ℕ) (e : Event) → lookup k t.events ≡ some e → IsOnTime interval k e
    pub offset : t.sync_offset ≡ pos 0
    pub started : no_such_event_id ≤ t.current_event_id

  pub init-Inv : Inv (init pq)
  unfolding init lookup
  init-Inv = record {
    fresh = λ u h. absurd (pq.Has-empty u h);
    order = λ u h. absurd (pq.Has-empty u h);
    agree = λ u e h l. absurd (pq.Has-empty u h);
    listed = λ k e l. cc;
    on_time = λ k e l seq start f p. cc;
    offset = refl;
    started = omega arith;
  }

module _ {pq : EventQueue} {interval : ℕ} {t : Timer (pq.Queue)} (v : Inv pq interval t) where
  pub known : (k : ℕ) (e : Event) → lookup k t.events ≡ some e → k ≤ t.current_event_id
  known k e l = v.fresh _ (v.listed k e l)

  -- Events out of the map leave the rest as it was.
  pub erase-Inv : (id : ℕ) → Inv pq interval (record t { events = erase id t.events })
  erase-Inv id = record {
    fresh = v.fresh;
    order = v.order;
    agree = λ u e h l. v.agree u e h (left u.id e l);
    listed = λ k e l. v.listed k e (left k e l);
    on_time = λ k e l. v.on_time k e (left k e l);
    offset = v.offset;
    started = v.started;
  }
    where
      left :
          (k : ℕ) (e : Event) → lookup k (erase id t.events) ≡ some e → lookup k t.events ≡ some e
      left k e l = ground (arith, lookup-erase id k t.events)

  pub cancel_event-Inv : (id : ℕ) → Inv pq interval (cancel_event pq t id).1
  unfolding cancel_event
  cancel_event-Inv id = elim (Option-cases (lookup id t.events)) [
    | inl e ↦ rw (e, cancel_event) v
    | inr (e, h) ↦ rw (h, cancel_event) (erase-Inv id)
  ]

  module _ (e : Event) (room : t.current_event_id + 1 < 2 ^ 32) where
    pub next_id : add32 t.current_event_id 1 ≡ t.current_event_id + 1
    next_id = omega arith

    pub free : has (add32 t.current_event_id 1) t.events ≡ false
    free = elim (Bool-cases (has (add32 t.current_event_id 1) t.events)) [
      | inl h ↦
          let found = lookup_of_has (add32 t.current_event_id 1) t.events h in
          absurd (omega (arith, known _ found.0 found.1))
      | inr h ↦ h
    ]

    pub schedule_event_aux_lem :
        schedule_event_aux pq t e ≡ ok (t.current_event_id + 1, inserted pq t (stamped pq t e))
    unfolding schedule_event_aux
    schedule_event_aux_lem = rw (free, next_id)

    module _ (ahead : pos 0 ≤ℤ e.whence)
        (due : IsOnTime interval (t.current_event_id + 1) (stamped pq t e)) where
      pub inserted-Inv : Inv pq interval (inserted pq t (stamped pq t e))
      inserted-Inv = record {
        fresh = λ u h. elim (pq.push_cases _ _ u h) [
          | inl i ↦ omega (arith, ap (λ (w : TimeOrderedEvent). w.id) i)
          | inr old ↦ omega (arith, v.fresh u old)
        ];
        order = λ u h. elim (pq.push_cases _ _ u h) [
          | inl i ↦ rw i (omega int_laws)
          | inr old ↦ v.order u old
        ];
        agree = λ u e' h l. elim (lookup-insert_cases _ u.id _ t.events l) [
          | inl here ↦ elim (pq.push_cases _ _ u h) [
            | inl i ↦ rw (here.1, i)
            | inr old ↦ absurd (omega (arith, v.fresh u old, here.0))
          ]
          | inr before ↦ elim (pq.push_cases _ _ u h) [
            | inl i ↦ absurd (before.0 (rw i))
            | inr old ↦ v.agree u e' old before.1
          ]
        ];
        listed = λ k e' l. elim (lookup-insert_cases _ k _ t.events l) [
          | inl here ↦ rw (here.0, here.1) (pq.Has-push_self t.queue _)
          | inr before ↦ pq.Has-push_old t.queue _ _ (v.listed k e' before.1)
        ];
        on_time = λ k e' l. elim (lookup-insert_cases _ k _ t.events l) [
          | inl here ↦ rw (here.0, here.1, next_id) due
          | inr before ↦ v.on_time k e' before.1
        ];
        offset = v.offset;
        started = omega (arith, v.started);
      }

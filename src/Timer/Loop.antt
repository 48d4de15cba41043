-- ===== src/Timer/Loop.antt =====
-- src/timer.cpp: the loop of `start_timer` and the timer's own assertions in it.
use rappel.Base.{
  ℕ, zero, suc, ◌+◌, ◌*◌, ◌^◌, ◌≤◌, ◌<◌, ◌≡◌, refl, ap, sym, ◌∙◌, inl, inr, some, arith, not,
  length, Option-cases, ok, Result, failed, ◌>>=◌, assert_cases, past_termination,
}
use rappel.Base.Map.{lookup, erase, erase_absent}
use rappel.Base.Int.{pos, ◌+ℤ◌, eqb_ℤ_refl, ltb_ℤ}
use rappel.Events.{Event}
use rappel.Timer.Queue.{EventQueue, TimeOrderedEvent}
use rappel.Timer.{
  Timer, Program, Status, Progress, progress_of, running, finished, drained, dispatch,
  execute_found, execute_event_aux, execute_entry, round, start_timer,
}
use rappel.Timer.Inv.{Inv, known}
use rappel.Timer.Steps.{Calls, Sound, Kept-refl, Kept-trans}
use rappel.Timer.Run.{dispatch-Sound}
use rappel.Timer.Advance.{
  Advanced, Rounds, moved, popped-Inv, absent-Inv, forward, leb_ℤ-true, Advanced-refl,
  Advanced-trans, Rounds_of_Sound,
}

module _ (pq : EventQueue) {App : Type 0} (termination interval k : ℕ)
    (handler : ℕ → Event → App → Program App)
    (calls : (h : ℕ) (e : Event) (a : App) → Calls k (handler h e a)) where
  -- Without the assertion on the time, which the invariant proves.
  execute_found_lem :
      (e : Event) (id : ℕ) (a : App) (t : Timer (pq.Queue))
      → e.whence ≡ t.time
      → execute_found pq (pos termination) interval handler e id a t
        ≡ dispatch pq
            (pos termination)
            interval
            handler
            e.flag
            e
            a
            (record t { events = erase id t.events })
  unfolding execute_found
  execute_found_lem e id a t now = rw (now, eqb_ℤ_refl t.time)

  execute_event_aux-Sound :
      (toe : TimeOrderedEvent) (rest : pq.Queue) (a : App) {t : Timer (pq.Queue)}
      → Inv pq interval t
      → pq.pop t.queue ≡ some (toe, rest)
      → t.current_event_id + (length t.callbacks * k + k + 1) < 2 ^ 32
      → Sound pq interval
          (λ r. r.2)
          (record t { queue = rest; time = toe.whence; events = erase toe.id t.events })
          (length t.callbacks * k + k + 1)
          (execute_event_aux pq
            (pos termination)
            interval
            handler
            toe.id
            a
            (record t { queue = rest; time = toe.whence }))
  unfolding execute_event_aux
  execute_event_aux-Sound toe rest a {t} v popped room =
      assert_cases P (not (ltb_ℤ (pos termination +ℤ pos 1) toe.whence)) past_termination _
        (λ e. cc, λ e. cc, λ e. cc)
        λ _. elim (Option-cases (lookup toe.id t.events)) [
          | inl e ↦
              rw (e, execute_event_aux, erase_absent toe.id t.events e)
                (Kept-trans 0 0 _ (omega arith) (Kept-refl (absent-Inv v toe rest popped e))
                  (Kept-refl (absent-Inv v toe rest popped e)))
          | inr (e, l) ↦
              rw
                (
                  l,
                  execute_event_aux,
                  execute_found_lem e toe.id a (moved v toe rest popped)
                      (v.agree toe e (pq.pop_top _ _ _ popped) l),
                )
                (dispatch-Sound termination interval k handler calls e.flag e toe.id a
                  (popped-Inv v toe rest popped) room (known v toe.id e l) refl
                  (sym (v.agree toe e (pq.pop_top _ _ _ popped) l)) (v.on_time toe.id e l))
        ]
    where
      P : Result (Status × App × Timer (pq.Queue)) → Type 0
      P =
          Sound pq interval (λ r. r.2)
            (record t { queue = rest; time = toe.whence; events = erase toe.id t.events })
            (length t.callbacks * k + k + 1)

  execute_entry-Rounds :
      (toe : TimeOrderedEvent) (rest : pq.Queue) (a : App) {t : Timer (pq.Queue)}
      → Inv pq interval t
      → pq.pop t.queue ≡ some (toe, rest)
      → t.current_event_id + (length t.callbacks * k + k + 1) < 2 ^ 32
      → Rounds pq interval
          (λ r. r.2)
          t
          (length t.callbacks * k + k + 1)
          (execute_entry pq (pos termination) interval handler toe a (record t { queue = rest }))
  unfolding execute_entry
  execute_entry-Rounds toe rest a {t} v popped room =
      rw (leb_ℤ-true t.time toe.whence (forward v toe rest popped)) (
        Rounds_of_Sound v toe rest popped _ progress_of _
          (execute_event_aux-Sound toe rest a v popped room))

  round-Rounds :
      (a : App) {t : Timer (pq.Queue)}
      → Inv pq interval t
      → t.current_event_id + (length t.callbacks * k + k + 1) < 2 ^ 32
      → Rounds pq interval
          (λ r. r.2)
          t
          (length t.callbacks * k + k + 1)
          (round pq (pos termination) interval handler a t)
  unfolding round
  round-Rounds a {t} v room = elim (Option-cases (pq.pop t.queue)) [
    | inl e ↦ rw (e, round) (Advanced-refl v)
    | inr ((toe, rest), e) ↦ rw (e, round) (execute_entry-Rounds toe rest a v e room)
  ]

  Advanced-weaken :
      {t u : Timer (pq.Queue)} (j n : ℕ)
      → j ≤ n
      → Advanced pq interval t u j
      → Advanced pq interval t u n
  Advanced-weaken j n h b = record {
    inv = b.inv;
    later = b.later;
    same_callbacks = b.same_callbacks;
    grows = b.grows;
    bounded = omega (arith, b.bounded);
    gone = b.gone;
  }

  Rounds-weaken :
      {R : Type 0} (get : R → Timer (pq.Queue)) {t u : Timer (pq.Queue)} (c j n : ℕ) (m : Result R)
      → c + j ≤ n
      → Advanced pq interval t u c
      → Rounds pq interval get u j m
      → Rounds pq interval get t n m
  Rounds-weaken get c j n (ok r) h a b = Advanced-weaken (c + j) n h (Advanced-trans a b)
  Rounds-weaken get c j n (failed e) h a b = b

  rounds :
      (n c : ℕ) (a : App) {t : Timer (pq.Queue)}
      → Inv pq interval t
      → length t.callbacks * k + k + 1 ≡ c
      → t.current_event_id + n * c < 2 ^ 32
      → Rounds pq interval
          (λ r. r.2)
          t
          (n * c)
          (start_timer pq (pos termination) interval handler n a t)
  unfolding start_timer
  rounds zero c a v e room = Advanced-refl v
  rounds (suc n) c a {t} v e room =
      next (round pq (pos termination) interval handler a t)
        (rw e at (round-Rounds a v (omega arith)))
        λ a' u h.
          rounds n c a' h.inv (ap (λ m. length m * k + k + 1) h.same_callbacks ∙ e)
            (omega (arith, h.bounded))
    where
      Again : Type 0
      Again =
          (a' : App) (u : Timer (pq.Queue))
          → Advanced pq interval t u c
          → Rounds pq interval (λ r. r.2) u (n * c)
              (start_timer pq (pos termination) interval handler n a' u)

      next :
          (m : Result (Progress × App × Timer (pq.Queue)))
          → Rounds pq interval (λ r. r.2) t c m
          → Again
          → Rounds pq interval
              (λ r. r.2)
              t
              (suc n * c)
              (m >>= λ r. elim r.0 [
                | running ↦ start_timer pq (pos termination) interval handler n r.1 r.2
                | p ↦ ok (p, r.1, r.2)
              ])
      next (failed e) h again = h
      next (ok (running, a', u)) h again =
          Rounds-weaken (λ r. r.2) c (n * c) _
            (start_timer pq (pos termination) interval handler n a' u) (omega arith) h
            (again a' u h)
      next (ok (finished, a', u)) h again = Advanced-weaken c _ (omega arith) h
      next (ok (drained, a', u)) h again = Advanced-weaken c _ (omega arith) h

  -- Rounds of the loop, from a sound timer: the times of the events never go back
  -- (`toe.whence >= _time`), each event is executed at its own time (`event.whence == _time`), no
  -- id is used twice (`_eventList.find(_current_event_id) == _eventList.end()`), and the timer
  -- stays sound and its clock does not go back. The callbacks are any programs that schedule at
  -- most `k` events each, none of them statistics, and the ids do not run out in `n` rounds.
  pub start_timer-Rounds :
      (n : ℕ) (a : App) {t : Timer (pq.Queue)}
      → Inv pq interval t
      → t.current_event_id + n * (length t.callbacks * k + k + 1) < 2 ^ 32
      → Rounds pq interval
          (λ r. r.2)
          t
          (n * (length t.callbacks * k + k + 1))
          (start_timer pq (pos termination) interval handler n a t)
  start_timer-Rounds n a v room = rounds n _ a v refl room

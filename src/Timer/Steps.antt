-- ===== src/Timer/Steps.antt =====
-- src/timer.cpp: the timer's own assertions under the calls of one callback.
use rappel.Base.{
  ℕ, suc, ◌+◌, ◌-◌, ◌*◌, ◌^◌, ◌≤◌, ◌<◌, ◌≡◌, refl, ◌∙◌, ◌≢◌, Bool, true, arith, length, [], ◌∷◌, ok,
  none, false, ◌==◌, Result, failed, Abort, ◌>>=◌, assert_cases, time_goes_back, wrong_time,
  id_in_use, not_registered, not_initialized, whence_out_of_range,
}
use rappel.Base.Map.{Map, has, lookup, lookup-insert, lookup-erase}
use rappel.Base.Word.{add32}
use rappel.Base.Int.{ℤ, pos, ◌≤ℤ◌}
use rappel.Events.{Event, layer_key, is_initialized, stats}
use rappel.Timer.Queue.{EventQueue}
use rappel.Timer.{
  Timer, Program, done, get_time, schedule, cancel, reschedule, in_range, stamped,
  schedule_event_aux, schedule_event, cancel_event, run_program, notify_all,
}
use rappel.Timer.Inv.{Inv, IsOnTime, cancel_event-Inv, inserted-Inv, schedule_event_aux_lem}

-- A callback schedules at most `k` events, none of them the timer's own statistics, and does not
-- call `reschedule_event` (which no file calls).
abbrev pub Calls : {A : Type 0} → ℕ → Program A → Type 0
Calls k (done a) = Unit
Calls k (get_time f) = (x : ℤ) → Calls k (f x)
Calls k (schedule e f) = (1 ≤ k) × (e.flag ≢ stats) × ((id : ℕ) → Calls (k - 1) (f id))
Calls k (cancel id f) = (b : Bool) → Calls k (f b)
Calls k (reschedule id w f) = ⊥

-- Not one of the assertions by which the timer checks itself.
abbrev pub IsCallers : Abort → Type 0
IsCallers e = (e ≢ time_goes_back) × (e ≢ wrong_time) × (e ≢ id_in_use)

in_range-pos : (w : ℤ) → in_range w ≡ true → pos 0 ≤ℤ w
in_range-pos w h = ground arith

module _ (pq : EventQueue) (interval : ℕ) where
  -- What a call may do to the timer: at most `k` new events, none under an id given out before.
  pub record Kept (t t' : Timer (pq.Queue)) (k : ℕ) : Type 0 where
    pub inv : Inv pq interval t'
    pub same_time : t'.time ≡ t.time
    pub same_callbacks : t'.callbacks ≡ t.callbacks
    pub grows : t.current_event_id ≤ t'.current_event_id
    pub bounded : t'.current_event_id ≤ t.current_event_id + k
    pub gone :
        (j : ℕ) → j ≤ t.current_event_id → lookup j t.events ≡ none → lookup j t'.events ≡ none

  abbrev pub Sound :
      {R : Type 0} → (R → Timer (pq.Queue)) → Timer (pq.Queue) → ℕ → Result R → Type 0
  Sound get t k (ok r) = Kept t (get r) k
  Sound get t k (failed e) = IsCallers e

module _ {pq : EventQueue} {interval : ℕ} where
  pub Kept-refl : {t : Timer (pq.Queue)} → Inv pq interval t → Kept pq interval t t 0
  Kept-refl v = record {
    inv = v;
    same_time = refl;
    same_callbacks = refl;
    grows = omega arith;
    bounded = omega arith;
    gone = λ j old e. e;
  }

  pub Kept-trans :
      {t u w : Timer (pq.Queue)} (k j n : ℕ)
      → k + j ≤ n
      → Kept pq interval t u k
      → Kept pq interval u w j
      → Kept pq interval t w n
  Kept-trans k j n h a b = record {
    inv = b.inv;
    same_time = b.same_time ∙ a.same_time;
    same_callbacks = b.same_callbacks ∙ a.same_callbacks;
    grows = omega (arith, a.grows, b.grows);
    bounded = omega (arith, a.bounded, b.bounded);
    gone = λ j old e. b.gone j (omega (arith, a.grows)) (a.gone j old e);
  }

  Sound-extend :
      {R : Type 0} (get : R → Timer (pq.Queue)) {t u : Timer (pq.Queue)} (k j n : ℕ) (m : Result R)
      → k + j ≤ n
      → Kept pq interval t u k
      → Sound pq interval get u j m
      → Sound pq interval get t n m
  Sound-extend get k j n (ok r) h a b = Kept-trans k j n h a b
  Sound-extend get k j n (failed e) h a b = b

  -- A chain of calls is sound if each call is, from where the one before it stopped.
  pub Sound-bind :
      {R S : Type 0} (get : R → Timer (pq.Queue)) (get' : S → Timer (pq.Queue))
      {t : Timer (pq.Queue)} (k j n : ℕ) (m : Result R) (f : R → Result S)
      → k + j ≤ n
      → Sound pq interval get t k m
      → ((r : R) → m ≡ ok r → Kept pq interval t (get r) k → Sound pq interval get' (get r) j (f r))
      → Sound pq interval get' t n (m >>= f)
  Sound-bind get get' k j n (ok r) f h a next = Sound-extend get' k j n (f r) h a (next r refl a)
  Sound-bind get get' k j n (failed e) f h a next = a

  module _ {t : Timer (pq.Queue)} (v : Inv pq interval t) where
    pub cancel_event-Kept : (id : ℕ) → Kept pq interval t (cancel_event pq t id).1 0
    unfolding cancel_event
    cancel_event-Kept id = record {
      inv = cancel_event-Inv v id;
      same_time = ground arith;
      same_callbacks = ground arith;
      grows = ground arith;
      bounded = ground arith;
      gone = λ j old e. ground (arith, lookup-erase id j t.events);
    }

    pub schedule_event_aux-Sound :
        (e : Event)
        → t.current_event_id + 1 < 2 ^ 32
        → pos 0 ≤ℤ e.whence
        → IsOnTime interval (t.current_event_id + 1) (stamped pq t e)
        → Sound pq interval (λ r. r.1) t 1 (schedule_event_aux pq t e)
    schedule_event_aux-Sound e room ahead due = rw (schedule_event_aux_lem v e room) (record {
      inv = inserted-Inv v e room ahead due;
      same_time = refl;
      same_callbacks = refl;
      grows = omega arith;
      bounded = omega arith;
      gone = λ j old none_before.
          let other : (add32 t.current_event_id 1 == j) ≡ false = ground arith in
          lookup-insert _ j (stamped pq t e) t.events ∙ rw other none_before;
    })

    pub schedule_event-Sound :
        (e : Event)
        → t.current_event_id + 1 < 2 ^ 32
        → e.flag ≢ stats
        → Sound pq interval (λ r. r.1) t 1 (schedule_event pq t e)
    unfolding schedule_event
    schedule_event-Sound e room plain =
        assert_cases P (has (layer_key e.layer) t.callbacks) not_registered _
          (λ e. cc, λ e. cc, λ e. cc)
          λ _.
            assert_cases P (is_initialized e) not_initialized _ (λ e. cc, λ e. cc, λ e. cc)
              λ _.
                assert_cases P (in_range e.whence) whence_out_of_range _ (λ e. cc, λ e. cc, λ e. cc)
                  λ near.
                    schedule_event_aux-Sound e room (in_range-pos e.whence near)
                      λ seq start f p. absurd (plain f)
      where
        P : Result (ℕ × Timer (pq.Queue)) → Type 0
        P = Sound pq interval (λ r. r.1) t 1

  -- Whatever a callback does, the timer stays sound, if the ids do not run out.
  pub run_program-Sound :
      {A : Type 0} (k : ℕ) (p : Program A) {t : Timer (pq.Queue)}
      → Calls k p
      → Inv pq interval t
      → t.current_event_id + k < 2 ^ 32
      → Sound pq interval (λ r. r.1) t k (run_program pq p t)
  unfolding run_program
  run_program-Sound k (done a) c v room = Kept-trans 0 0 k (omega arith) (Kept-refl v) (Kept-refl v)
  run_program-Sound k (get_time f) {t} c v room = run_program-Sound k (f t.time) (c t.time) v room
  run_program-Sound k (schedule e f) {t} c v room =
      Sound-bind (λ r. r.1) (λ r. r.1) 1 (k - 1) k (schedule_event pq t e) _ (omega arith)
        (schedule_event-Sound v e (omega arith) c.1)
        λ r _ a. run_program-Sound (k - 1) (f r.0) (c.2 r.0) a.inv (omega (arith, a.bounded))
  run_program-Sound k (cancel id f) {t} c v room =
      Sound-extend (λ r. r.1) 0 k k _ (omega arith) (cancel_event-Kept v id)
        (run_program-Sound k (f (cancel_event pq t id).0) (c _) (cancel_event-Inv v id)
          (omega (arith, (cancel_event-Kept v id).bounded)))
  run_program-Sound k (reschedule id w f) c v room = absurd c

  module _ {App : Type 0} (k : ℕ) (handler : ℕ → Event → App → Program App)
      (calls : (h : ℕ) (e : Event) (a : App) → Calls k (handler h e a)) where
    -- All callbacks together schedule at most `k` events each.
    pub notify_all-Sound :
        (m : Map ℕ) (event_for : ℕ → Event) (a : App) {t : Timer (pq.Queue)}
        → Inv pq interval t
        → t.current_event_id + length m * k < 2 ^ 32
        → Sound pq interval (λ r. r.1) t (length m * k) (notify_all pq handler m event_for a t)
    unfolding notify_all
    notify_all-Sound [] event_for a v room =
        Kept-trans 0 0 _ (omega arith) (Kept-refl v) (Kept-refl v)
    notify_all-Sound ((l, h) ∷ m) event_for a {t} v room =
        Sound-bind (λ r. r.1) (λ r. r.1) k (length m * k) (suc (length m) * k)
          (run_program pq (handler h (event_for l) a) t) _ (omega arith)
          (run_program-Sound k (handler h (event_for l) a) (calls h (event_for l) a) v
            (omega arith))
          λ r _ b. notify_all-Sound m event_for r.0 b.inv (omega (arith, b.bounded))

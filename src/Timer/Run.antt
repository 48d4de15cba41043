-- ===== src/Timer/Run.antt =====
-- src/timer.cpp: what one event does to the timer, whichever branch of `execute_event_aux` takes it.
use rappel.Base.{
  ℕ, suc, ◌+◌, ◌*◌, ◌^◌, ◌≤◌, ◌<◌, ◌≡◌, refl, ◌∙◌, none, some, Option, arith, length, present_cases,
  not_registered,
}
use rappel.Base.Map.{lookup}
use rappel.Base.Int.{ℤ, pos, ◌≤ℤ◌, ◌+ℤ◌, ◌-ℤ◌, int_laws}
use rappel.Base.Word.{add32}
use rappel.Events.{Event, EventFlag, EventData, stats_data, stats, debug, final, layer_key}
use rappel.Timer.Queue.{EventQueue}
use rappel.Timer.{
  Timer, Program, stamped, next_stats, schedule_event_aux, run_program, notify_all, dispatch,
  schedule_stats,
}
use rappel.Timer.Inv.{Inv, IsOnTime}
use rappel.Timer.Steps.{
  Calls, Sound, Kept-refl, Sound-bind, schedule_event_aux-Sound, run_program-Sound,
  notify_all-Sound,
}

-- The time of the next round does not depend on when this one is executed.
round_time : (time off w : ℤ) → off ≡ pos 0 → time +ℤ (w -ℤ (time +ℤ off)) ≡ w
round_time time off w e = rw e (omega int_laws)

round_ahead : (time off w : ℤ) → off ≡ pos 0 → time ≤ℤ w → pos 0 ≤ℤ w -ℤ (time +ℤ off)
round_ahead time off w e h = rw e (omega int_laws)

module _ {pq : EventQueue} (interval : ℕ) where
  next_stats-IsOnTime :
      (e : Event) (id seq start : ℕ) {t : Timer (pq.Queue)}
      → Inv pq interval t
      → seq < id
      → id ≤ t.current_event_id
      → t.current_event_id + 1 < 2 ^ 32
      → IsOnTime interval
          (t.current_event_id + 1)
          (stamped pq t (next_stats interval e seq start t))
  next_stats-IsOnTime e id seq start {t} v below old room seq' start' f p =
      let one : add32 seq 1 ≡ suc seq = omega arith in
      let same : seq' ≡ suc seq = cc in
      let same_start : start' ≡ start = cc in
      (
        rw
            (
              round_time t.time t.sync_offset (pos (start + add32 seq 1 * interval)) v.offset,
              same,
              same_start,
              one,
            )
            (omega arith),
        omega arith,
      )

  schedule_stats-Sound :
      {App : Type 0} (e : Event) (id : ℕ) (d : Option EventData) (a : App) {t : Timer (pq.Queue)}
      → Inv pq interval t
      → t.current_event_id + 1 < 2 ^ 32
      → id ≤ t.current_event_id
      → e.flag ≡ stats
      → e.payload ≡ d
      → t.time ≡ e.whence
      → IsOnTime interval id e
      → Sound pq interval (λ r. r.2) t 1 (schedule_stats pq interval e d a t)
  unfolding schedule_stats
  schedule_stats-Sound e id (some (stats_data seq start)) a {t} v room old f p now due =
      let (late, below) = due seq start f p in
      let one : add32 seq 1 ≡ suc seq = omega arith in
      Sound-bind (λ r. r.1) (λ r. r.2) 1 0 1
        (schedule_event_aux pq t (next_stats interval e seq start t)) _ (omega arith)
        (schedule_event_aux-Sound v _ room
          (round_ahead t.time t.sync_offset _ v.offset (rw (now, one) late))
          (next_stats-IsOnTime e id seq start v below old room))
        λ r _ b. Kept-refl b.inv
  schedule_stats-Sound e id none a v room old f p now due = (λ e. cc, λ e. cc, λ e. cc)
  schedule_stats-Sound e id (some _) a v room old f p now due = (λ e. cc, λ e. cc, λ e. cc)

module _ {pq : EventQueue} {App : Type 0} (termination interval k : ℕ)
    (handler : ℕ → Event → App → Program App)
    (calls : (h : ℕ) (e : Event) (a : App) → Calls k (handler h e a)) where
  pub dispatch-Sound :
      (fl : EventFlag) (e : Event) (id : ℕ) (a : App) {t : Timer (pq.Queue)}
      → Inv pq interval t
      → t.current_event_id + (length t.callbacks * k + k + 1) < 2 ^ 32
      → id ≤ t.current_event_id
      → e.flag ≡ fl
      → t.time ≡ e.whence
      → IsOnTime interval id e
      → Sound pq interval
          (λ r. r.2)
          t
          (length t.callbacks * k + k + 1)
          (dispatch pq (pos termination) interval handler fl e a t)
  unfolding dispatch
  dispatch-Sound final e id a {t} v room old f now due =
      Sound-bind (λ r. r.1) (λ r. r.2) (length t.callbacks * k) 0 _
        (notify_all pq handler t.callbacks _ a t) _ (omega arith)
        (notify_all-Sound k handler calls t.callbacks _ a v (omega arith)) λ r _ b. Kept-refl b.inv
  dispatch-Sound debug e id a {t} v room old f now due =
      Sound-bind (λ r. r.1) (λ r. r.2) 1 0 _ (schedule_event_aux pq t _) _ (omega arith)
        (schedule_event_aux-Sound v _ (omega arith) (omega arith) λ seq start g p. cc)
        λ r _ b. Kept-refl b.inv
  dispatch-Sound stats e id a {t} v room old f now due =
      Sound-bind (λ r. r.1) (λ r. r.2) (length t.callbacks * k) 1 _
        (notify_all pq handler t.callbacks _ a t) _ (omega arith)
        (notify_all-Sound k handler calls t.callbacks _ a v (omega arith))
        λ r _ b.
          schedule_stats-Sound interval e id e.payload r.0 b.inv (omega (arith, b.bounded))
            (omega (arith, b.grows)) f refl (b.same_time ∙ now) due
  dispatch-Sound _ e id a {t} v room old f now due =
      present_cases (Sound pq interval (λ r. r.2) t (length t.callbacks * k + k + 1))
        (lookup (layer_key e.layer) t.callbacks) not_registered _ (λ e. cc, λ e. cc, λ e. cc)
        λ h _.
          Sound-bind (λ r. r.1) (λ r. r.2) k 0 _ (run_program pq (handler h e a) t) _ (omega arith)
            (run_program-Sound k (handler h e a) (calls h e a) v (omega arith))
            λ r _ b. Kept-refl b.inv

-- ===== src/Feed/Rejoin.antt =====
-- src/feed.cpp: the event of the periodic rejoin under `set_parent`.
use rappel.Base.{ℕ, ◌+◌, ◌*◌, ◌≤◌, ◌<◌, ◌≡◌, Bool, true, false, none, if◌then◌else◌}
use rappel.Base.Map.{lookup}
use rappel.Events.{minute, day}
use rappel.Timer.{Timer, cancel_event}
use rappel.Timer.Queue.{EventQueue}
use rappel.Timer.Inv as TimerInv
use rappel.Feed.{Feed}
use rappel.Feed.Tree.{is_rejoin_scheduled}

-- The draw is of the range that `schedule_rejoin` asks for, and the interval is usual.
abbrev pub Drawn : ℕ → ℕ → Bool → Type 0
Drawn interval draw initial =
    (1 * minute < interval)
    × (interval < 30 * day)
    × (draw ≤ (if initial then interval else 2 * minute))

-- The time to the rejoin, as the comment of the source gives it.
abbrev pub Near : ℕ → Bool → ℕ → Type 0
Near interval initial whence =
    (whence ≤ interval + minute)
    × (initial ≡ true → whence ≤ interval)
    × (initial ≡ false → interval ≤ whence + minute)

-- The timer without the old event.
without : (pq : EventQueue) → Feed → Timer (pq.Queue) → Timer (pq.Queue)
without pq f t = if is_rejoin_scheduled f then (cancel_event pq t f.rejoin_event_id).1 else t

-- What a cancellation leaves alone, and what it takes away.
record Cancelled (pq : EventQueue) (t t' : Timer (pq.Queue)) (gone : ℕ → Bool) : Type 0 where
  pub time : t'.time ≡ t.time
  pub current : t'.current_event_id ≡ t.current_event_id
  pub callbacks : t'.callbacks ≡ t.callbacks
  pub events : (j : ℕ) → lookup j t'.events ≡ (if gone j then none else lookup j t.events)

-- The feed and the timer after a rejoin has been set for `whence` from now.
rejoining : Feed → ℕ → Feed
rejoining f id = record f { rejoin_event_id = id }

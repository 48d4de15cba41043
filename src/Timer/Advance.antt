-- ===== src/Timer/Advance.antt =====
-- src/timer.cpp: what a round of `start_timer` keeps of the timer, and the entry it takes off.
use rappel.Base.{
  ℕ, ◌+◌, ◌≤◌, ◌≡◌, refl, ap, ◌∙◌, subst, inl, inr, true, none, some, arith, ok, Result, failed,
  ◌>>=◌,
}
use rappel.Base.Map.{lookup, erase, lookup-erase, lookup-erase_old, erase_absent}
use rappel.Base.Int.{ℤ, ◌≤ℤ◌, leb_ℤ}
use rappel.Timer.Queue.{EventQueue, TimeOrderedEvent}
use rappel.Timer.{Timer, Status, Progress}
use rappel.Timer.Inv.{Inv}
use rappel.Timer.Steps.{IsCallers, Kept, Sound}

-- What a round of the loop, or several, may do to the timer.
pub record Advanced (pq : EventQueue) (interval : ℕ) (t t' : Timer (pq.Queue)) (k : ℕ)
    : Type 0 where
  pub inv : Inv pq interval t'
  pub later : t.time ≤ℤ t'.time
  pub same_callbacks : t'.callbacks ≡ t.callbacks
  pub grows : t.current_event_id ≤ t'.current_event_id
  pub bounded : t'.current_event_id ≤ t.current_event_id + k
  pub gone : (j : ℕ) → j ≤ t.current_event_id → lookup j t.events ≡ none → lookup j t'.events ≡ none

abbrev pub Rounds :
    (pq : EventQueue) {R : Type 0}
    → ℕ
    → (R → Timer (pq.Queue))
    → Timer (pq.Queue)
    → ℕ
    → Result R
    → Type 0
Rounds pq interval get t k (ok r) = Advanced pq interval t (get r) k
Rounds pq interval get t k (failed e) = IsCallers e

module _ {pq : EventQueue} {interval : ℕ} {t : Timer (pq.Queue)} (v : Inv pq interval t)
    (toe : TimeOrderedEvent) (rest : pq.Queue) (popped : pq.pop t.queue ≡ some (toe, rest)) where
  abbrev pub moved : Timer (pq.Queue)
  moved = record t { queue = rest; time = toe.whence }

  -- The first entry and its event leave together.
  pub popped-Inv : Inv pq interval (record moved { events = erase toe.id t.events })
  popped-Inv = record {
    fresh = λ u h. v.fresh u (pq.pop_rest _ _ _ u popped h);
    order = λ u h. pq.pop_least _ _ _ u popped (pq.pop_rest _ _ _ u popped h);
    agree = λ u e h l.
        v.agree u e (pq.pop_rest _ _ _ u popped h) (lookup-erase_old toe.id u.id t.events l);
    listed = λ k e l.
        elim (pq.pop_cases _ _ _ _ popped (v.listed k e (lookup-erase_old toe.id k t.events l))) [
          | inl i ↦
              let same : k ≡ toe.id = ap (λ (w : TimeOrderedEvent). w.id) i in
              absurd (ground (arith, lookup-erase toe.id k t.events))
          | inr h ↦ h
        ];
    on_time = λ k e l. v.on_time k e (lookup-erase_old toe.id k t.events l);
    offset = v.offset;
    started = v.started;
  }

  pub absent-Inv : lookup toe.id t.events ≡ none → Inv pq interval moved
  absent-Inv e =
      subst (λ m. Inv pq interval (record moved { events = m })) (erase_absent toe.id t.events e)
        popped-Inv

  pub forward : t.time ≤ℤ toe.whence
  forward = v.order toe (pq.pop_top _ _ _ popped)

pub leb_ℤ-true : (a b : ℤ) → a ≤ℤ b → leb_ℤ a b ≡ true
leb_ℤ-true a b h = ground arith

module _ {pq : EventQueue} {interval : ℕ} where
  pub Advanced-refl :
      {t : Timer (pq.Queue)} {n : ℕ} → Inv pq interval t → Advanced pq interval t t n
  Advanced-refl v = record {
    inv = v;
    later = omega arith;
    same_callbacks = refl;
    grows = omega arith;
    bounded = omega arith;
    gone = λ j old e. e;
  }

  pub Advanced-trans :
      {t u w : Timer (pq.Queue)} {k j : ℕ}
      → Advanced pq interval t u k
      → Advanced pq interval u w j
      → Advanced pq interval t w (k + j)
  Advanced-trans a b = record {
    inv = b.inv;
    later = omega (arith, a.later, b.later);
    same_callbacks = b.same_callbacks ∙ a.same_callbacks;
    grows = omega (arith, a.grows, b.grows);
    bounded = omega (arith, a.bounded, b.bounded);
    gone = λ j old e. b.gone j (omega (arith, a.grows)) (a.gone j old e);
  }

  module _ {t : Timer (pq.Queue)} (v : Inv pq interval t) (toe : TimeOrderedEvent) (rest : pq.Queue)
      (popped : pq.pop t.queue ≡ some (toe, rest)) where
    Kept-Advanced :
        {w : Timer (pq.Queue)} (n : ℕ)
        → Kept pq interval (record (moved v toe rest popped) { events = erase toe.id t.events }) w n
        → Advanced pq interval t w n
    Kept-Advanced n b = record {
      inv = b.inv;
      later = rw (b.same_time) (forward v toe rest popped);
      same_callbacks = b.same_callbacks;
      grows = b.grows;
      bounded = b.bounded;
      gone = λ j old e. b.gone j old (ground (arith, lookup-erase toe.id j t.events));
    }

    -- The rest of a round keeps what the event did.
    pub Rounds_of_Sound :
        {App : Type 0} (n : ℕ) (progress : Status → Progress)
        (m : Result (Status × App × Timer (pq.Queue)))
        → Sound pq interval
            (λ r. r.2)
            (record (moved v toe rest popped) { events = erase toe.id t.events })
            n
            m
        → Rounds pq {R = Progress × App × Timer (pq.Queue)} interval
            (λ r. r.2)
            t
            n
            (m >>= λ r. ok (progress r.0, r.1, r.2))
    Rounds_of_Sound n progress (ok r) h = Kept-Advanced n h
    Rounds_of_Sound n progress (failed e) h = h

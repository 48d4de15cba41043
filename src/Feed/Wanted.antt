-- ===== src/Feed/Wanted.antt =====
-- src/feed.cpp: the updates that `request_missing_entries` wants, and the state after each request.
use rappel.Base.{
  ℕ, zero, suc, ◌+◌, ◌^◌, ◌≤◌, ◌<◌, ◌≡◌, refl, ap, sym, ◌∙◌, inl, inr, true, ◌&&◌, not, List, [],
  ◌∷◌, ◌++◌, map, some, arith, length, contains, ltb, leb, ◌==◌, ==_iff, if◌then◌else◌, Bool-cases,
}
use mathlib.Core.List.{append_assoc, append-nil}
use rappel.Base.Map.{Map, lookup, insert, has, has-insert, lookup-insert}
use rappel.Events.{application, layer_key}
use rappel.Timer.{inserted, stamped}
use rappel.Timer.Queue.{EventQueue}
use rappel.Timer.Inv as TimerInv
use rappel.Timer.Inv.{inserted-Inv}
use rappel.Feed.{Feed, EntryDetails, rounds}
use rappel.Feed.Cache.{magic_key}
use rappel.Feed.Pull.{Host, pull_request, pull_timeout, set_insert}

-- The updates of a range that are neither in the cache nor on their way.
abbrev pub wanted : Map EntryDetails → Map ℕ → ℕ → ℕ → List ℕ
wanted cache missing zero u = []
wanted cache missing (suc n) u =
    let rest = wanted cache missing n (u + 1) in
    if not (has u cache) && not (has u missing) then u ∷ rest else rest

pub wanted-insert :
    (cache : Map EntryDetails) (missing : Map ℕ) (n u w src : ℕ)
    → w < u
    → wanted cache (insert w src missing) n u ≡ wanted cache missing n u
wanted-insert cache missing zero u w src h = refl
wanted-insert cache missing (suc n) u w src h =
    ground (arith, wanted-insert cache missing n (u + 1) w src, has-insert w u src missing)

-- The host can take `n` more events of the application's layer.
pub record Ready (pq : EventQueue) (interval n : ℕ) (h : Host (pq.Queue)) : Type 0 where
  pub inv : TimerInv.Inv pq interval h.timer
  pub registered : has (layer_key application) h.timer.callbacks ≡ true
  pub room : h.timer.current_event_id + n < 2 ^ 32

pub contains-wanted :
    (cache : Map EntryDetails) (missing : Map ℕ) (n u k : ℕ)
    → contains (wanted cache missing n u) k
      ≡ (leb u k && ltb k (u + n) && not (has k cache) && not (has k missing))
contains-wanted cache missing zero u k = ground arith
contains-wanted cache missing (suc n) u k = elim (Bool-cases (u == k)) [
  | inl e ↦ ground (
    arith,
    contains-wanted cache missing n (u + 1) k,
    ap (λ j. has j cache) ((==_iff u k).0 e),
    ap (λ j. has j missing) ((==_iff u k).0 e),
  )
  | inr e ↦ ground (arith, contains-wanted cache missing n (u + 1) k)
]

pub length-wanted :
    (cache : Map EntryDetails) (missing : Map ℕ) (n u : ℕ) → length (wanted cache missing n u) ≤ n
length-wanted cache missing zero u = omega arith
length-wanted cache missing (suc n) u = ground (arith, length-wanted cache missing n (u + 1))

pub rounds-le : (size seq : ℕ) → 0 < size → seq < magic_key → rounds size seq ≤ size
rounds-le size seq h small = ground arith

-- The feed after one request.
abbrev pub requested_feed : {Queue : Type 0} → Feed → Host Queue → ℕ → ℕ → Feed
requested_feed f h seq src = record f {
  missing_entries = insert seq src f.missing_entries;
  pull_entry_events = set_insert (h.timer.current_event_id + 1) f.pull_entry_events;
}

module _ (pq : EventQueue) (interval timeout : ℕ) where
  -- The host after one request.
  unfoldable pub requested : Feed → Host (pq.Queue) → ℕ → ℕ → Host (pq.Queue)
  requested f h seq src = record {
    timer = inserted pq h.timer (stamped pq h.timer (pull_timeout f.owner f.id src timeout seq));
    sent = h.sent ++ pull_request f.owner f.id src seq ∷ [];
  }

  pub requested-Ready :
      (f : Feed) (h : Host (pq.Queue)) (seq src n : ℕ)
      → Ready pq interval (suc n) h
      → Ready pq interval n (requested f h seq src)
  unfolding requested
  requested-Ready f h seq src n r = record {
    inv =
        inserted-Inv r.inv (pull_timeout f.owner f.id src timeout seq) (omega (arith, r.room))
          (omega arith) λ s start g p. cc;
    registered = r.registered;
    room = omega (arith, r.room);
  }

  -- What the loop has done when it stops, started at `f` and `h`, for the updates `us`.
  pub record Pulled (src : ℕ) (us : List ℕ) (f : Feed) (h : Host (pq.Queue)) (f' : Feed)
      (h' : Host (pq.Queue)) : Type 0 where
    pub cache : f'.cache ≡ f.cache
    pub latest : f'.latest_update_seq ≡ f.latest_update_seq
    pub highest : f'.highest_update_seq ≡ f.highest_update_seq
    pub missing :
        (k : ℕ)
        → lookup k f'.missing_entries
          ≡ (if contains us k then some src else lookup k f.missing_entries)
    pub sent : h'.sent ≡ h.sent ++ map (pull_request f.owner f.id src) us
    pub inv : TimerInv.Inv pq interval h'.timer

  pub nothing-Pulled :
      (src : ℕ) (f : Feed) (h : Host (pq.Queue)) {n : ℕ}
      → Ready pq interval n h
      → Pulled src [] f h f h
  nothing-Pulled src f h r = record {
    cache = refl;
    latest = refl;
    highest = refl;
    missing = λ k. refl;
    sent = sym (append-nil h.sent);
    inv = r.inv;
  }

  pub one_more :
      (src seq : ℕ) (us : List ℕ) (f : Feed) (h : Host (pq.Queue)) (f' : Feed)
      (h' : Host (pq.Queue))
      → Pulled src us (requested_feed f h seq src) (requested f h seq src) f' h'
      → Pulled src (seq ∷ us) f h f' h'
  unfolding requested
  one_more src seq us f h f' h' p = record {
    cache = p.cache;
    latest = p.latest;
    highest = p.highest;
    missing = λ k. ground (arith, p.missing k, lookup-insert seq k src f.missing_entries);
    sent = p.sent ∙ append_assoc h.sent (pull_request f.owner f.id src seq ∷ []) _;
    inv = p.inv;
  }

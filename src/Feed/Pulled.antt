-- ===== src/Feed/Pulled.antt =====
-- src/feed.cpp: what `request_missing_entries` asks for.
use rappel.Base.{
  ℕ, zero, suc, ◌+◌, ◌^◌, ◌≤◌, ◌<◌, ◌≡◌, ◌≢◌, refl, ap, sym, ◌∙◌, subst, inl, inr, true, false,
  ◌&&◌, not, List, [], ◌∷◌, ◌++◌, map, some, arith, length, contains, ltb, ◌==◌, if◌then◌else◌,
  Bool-cases, lt→ltb, ok,
}
use mathlib.Core.List.{append-nil}
use rappel.Base.Map.{lookup, insert, has}
use rappel.Base.Word.{add32}
use rappel.Base.Int.{pos}
use rappel.Events.{no_such_node, is_initialized}
use rappel.Timer.{in_range, inserted, stamped}
use rappel.Timer.Queue.{EventQueue}
use rappel.Timer.Inv as TimerInv
use rappel.Timer.Inv.{inserted-Inv}
use rappel.Timer.Calls.{schedule_event_lem}
use rappel.Feed.{Feed, start_seq, rounds}
use rappel.Feed.Cache.{magic_key}
use rappel.Feed.Window.{Inv, start_range}
use rappel.Feed.Pull.{
  Host, pull_request, pull_timeout, pull_entry, pull_loop, request_missing_entries, set_insert,
}
use rappel.Feed.Wanted.{
  wanted, wanted-insert, Ready, contains-wanted, length-wanted, rounds-le, requested_feed,
  requested, requested-Ready, Pulled, nothing-Pulled, one_more,
}

module _ (pq : EventQueue) (interval size timeout : ℕ) (near : in_range (pos timeout) ≡ true) where
  pull_entry_lem :
      (f : Feed) (h : Host (pq.Queue)) (seq src : ℕ)
      → f.owner ≢ no_such_node
      → Ready pq interval 1 h
      → f.latest_update_seq < seq
      → has seq f.cache ≡ false
      → let e = pull_timeout f.owner f.id src timeout seq in
        pull_entry pq size timeout f h seq src
        ≡ ok (
          record f {
            pull_entry_events = set_insert (h.timer.current_event_id + 1) f.pull_entry_events;
          },
          record {
            timer = inserted pq h.timer (stamped pq h.timer e);
            sent = h.sent ++ pull_request f.owner f.id src seq ∷ [];
          },
        )
  unfolding pull_entry
  pull_entry_lem f h seq src node r above gone =
      let proper : is_initialized (pull_timeout f.owner f.id src timeout seq) ≡ true =
        ground arith in
      rw (
        lt→ltb _ _ above,
        gone,
        schedule_event_lem r.inv (pull_timeout f.owner f.id src timeout seq) r.registered proper
            near r.room,
      )

  Ready-less : {n : ℕ} {h : Host (pq.Queue)} → Ready pq interval (suc n) h → Ready pq interval n h
  Ready-less r = record { inv = r.inv; registered = r.registered; room = omega (arith, r.room) }

  Ready-one : {n : ℕ} {h : Host (pq.Queue)} → Ready pq interval (suc n) h → Ready pq interval 1 h
  Ready-one r = record { inv = r.inv; registered = r.registered; room = omega (arith, r.room) }

  loop_end :
      (u src pulled : ℕ) (f : Feed) (h : Host (pq.Queue))
      → pull_loop pq size timeout zero u src pulled f h ≡ ok (pulled + 0, f, h)
  unfolding pull_loop
  loop_end u src pulled f h = ap (λ k. ok (k, f, h)) (omega arith)

  -- One round of the loop that pulls, and one that skips.
  pulls :
      (n u src pulled : ℕ) (f f₂ f' : Feed) (h h₂ h' : Host (pq.Queue)) (us : List ℕ)
      → u + 1 < 2 ^ 32
      → (not (has u f.cache) && not (has u f.missing_entries)) ≡ true
      → pull_entry pq size timeout
          (record f { missing_entries = insert u src f.missing_entries })
          h
          u
          src
        ≡ ok (f₂, h₂)
      → pull_loop pq size timeout n (u + 1) src (pulled + 1) f₂ h₂
        ≡ ok (pulled + 1 + length us, f', h')
      → pull_loop pq size timeout (suc n) u src pulled f h ≡ ok (pulled + length (u ∷ us), f', h')
  unfolding pull_loop
  pulls n u src pulled f f₂ f' h h₂ h' us small c e e' =
      let next : add32 u 1 ≡ u + 1 = omega arith in
      rw (c, next, e, e') (ap (λ k. ok (k, f', h')) (omega arith))

  skips :
      (n u src pulled : ℕ) (f : Feed) (h : Host (pq.Queue))
      → u + 1 < 2 ^ 32
      → (not (has u f.cache) && not (has u f.missing_entries)) ≡ false
      → pull_loop pq size timeout (suc n) u src pulled f h
        ≡ pull_loop pq size timeout n (u + 1) src pulled f h
  unfolding pull_loop
  skips n u src pulled f h small c = let next : add32 u 1 ≡ u + 1 = omega arith in rw (c, next)

  pull_loop_lem :
      (n u src pulled : ℕ) (f : Feed) (h : Host (pq.Queue))
      → f.owner ≢ no_such_node
      → Ready pq interval n h
      → u + n < 2 ^ 32
      → ((w : ℕ) → u ≤ w → w < u + n → has w f.cache ≡ false → f.latest_update_seq < w)
      → let us = wanted f.cache f.missing_entries n u in
        (f' : Feed) × (h' : Host (pq.Queue)) × (pull_loop pq size timeout n u src pulled f h
          ≡ ok (pulled + length us, f', h'))
        × Pulled pq interval timeout src us f h f' h'
  unfolding requested
  pull_loop_lem zero u src pulled f h node r small above =
      (f, h, loop_end u src pulled f h, nothing-Pulled pq interval timeout src f h r)
  pull_loop_lem (suc n) u src pulled f h node r small above =
      elim (Bool-cases (not (has u f.cache) && not (has u f.missing_entries))) [
        | inl pull ↦
            let gone : has u f.cache ≡ false = ground arith in
            let f₁ : Feed = record f { missing_entries = insert u src f.missing_entries } in
            let (f', h', e, p) =
              pull_loop_lem n (u + 1) src (pulled + 1) (requested_feed f h u src)
                (requested pq interval timeout f h u src) node
                (requested-Ready pq interval timeout f h u src n r) (omega arith)
                (λ w lo hi. above w (omega arith) (omega arith)) in
            (
              f',
              h',
              rw pull (
                  pulls n u src pulled f (requested_feed f h u src) f' h
                    (requested pq interval timeout f h u src) h'
                    (wanted f.cache f.missing_entries n (u + 1)) (omega arith) pull
                    (pull_entry_lem f₁ h u src node (Ready-one r)
                      (above u (omega arith) (omega arith) gone) gone)
                    (e
                      ∙ ap (λ us. ok (pulled + 1 + length us, f', h'))
                          (wanted-insert f.cache f.missing_entries n (u + 1) u src (omega arith)))),
              rw pull (
                  one_more pq interval timeout src u (wanted f.cache f.missing_entries n (u + 1)) f
                    h f' h'
                    (subst
                      (λ us.
                        Pulled pq interval timeout src us (requested_feed f h u src)
                          (requested pq interval timeout f h u src) f' h')
                      (wanted-insert f.cache f.missing_entries n (u + 1) u src (omega arith)) p)),
            )
        | inr skip ↦
            let (f', h', e, p) =
              pull_loop_lem n (u + 1) src pulled f h node (Ready-less r) (omega arith)
                (λ w lo hi. above w (omega arith) (omega arith)) in
            (f', h', rw skip (skips n u src pulled f h (omega arith) skip ∙ e), rw skip p)
      ]

  -- The requests leave the cache alone, and what they ask for is not in it.
  Pulled-Inv :
      (src : ℕ) (us : List ℕ) (f : Feed) (h : Host (pq.Queue)) (f' : Feed) (h' : Host (pq.Queue))
      → Inv size f
      → ((k : ℕ) → contains us k ≡ true → has k f.cache ≡ false)
      → Pulled pq interval timeout src us f h f' h'
      → Inv size f'
  unfolding has
  Pulled-Inv src us f h f' h' v out p = record {
    keys = λ k c. rw p.highest (v.keys k (rw p.cache at c));
    window = λ u lo hi near'. rw p.cache (v.window u lo (rw p.latest at hi) (rw p.latest at near'));
    frontier = rw (p.cache, p.latest) v.frontier;
    order = rw (p.latest, p.highest) v.order;
    apart = λ k m. rw p.cache (ground (arith, p.missing k, out k, v.apart k));
    small = rw p.highest v.small;
  }

  -- The updates that a request up to `seq` asks for.
  abbrev pub asked : Feed → ℕ → List ℕ
  asked f seq =
      if ltb seq f.latest_update_seq
      then []
      else wanted f.cache f.missing_entries (rounds size seq) (start_seq size seq)

  -- `request_missing_entries` on a sound feed, for a neighbour that exists and a timer with room
  -- for `size` events, never fails an assertion, that of `pull_entry` on `seq_num >
  -- _latest_update_seq` included. It asks the neighbour for the last `size` updates up to `seq`
  -- that are neither in the cache nor already on their way, each once, in order, unless the node
  -- knows more than the neighbour; it returns their number, at most `size`, and records the
  -- neighbour for each of them and for no other. The feed and the timer stay sound.
  pub request_missing_entries_lem :
      (f : Feed) (h : Host (pq.Queue)) (seq src : ℕ)
      → Inv size f
      → 0 < size
      → seq < magic_key
      → src ≢ no_such_node
      → f.owner ≢ no_such_node
      → Ready pq interval size h
      → let us = asked f seq in
        (f' : Feed) × (h' : Host (pq.Queue)) × (request_missing_entries pq size timeout f h seq src
          ≡ ok (length us, f', h'))
        × (length us ≤ size)
        × (h'.sent ≡ h.sent ++ map (pull_request f.owner f.id src) us)
        × ((k : ℕ)
            → lookup k f'.missing_entries
              ≡ (if contains us k then some src else lookup k f.missing_entries))
        × Inv size f'
        × TimerInv.Inv pq interval h'.timer
  unfolding request_missing_entries
  request_missing_entries_lem f h seq src v some_size small node owner r =
      elim (Bool-cases (ltb seq f.latest_update_seq)) [
        | inl older ↦ rw older (
          raised,
          h,
          rw real refl,
          omega arith,
          sym (append-nil h.sent),
          λ k. refl,
          raised-Inv,
          r.inv,
        )
        | inr newer ↦
            let (f', h', e, p) =
              pull_loop_lem (rounds size seq) (start_seq size seq) src 0 raised h owner
                (record {
                  inv = r.inv;
                  registered = r.registered;
                  room = omega (arith, r.room, rounds-le size seq some_size small);
                })
                (omega (arith, start_range size seq some_size small)) (above newer) in
            rw newer (
              f',
              h',
              rw real (e ∙ ap (λ k. ok (k, f', h')) (omega arith)),
              omega (
                arith,
                rounds-le size seq some_size small,
                length-wanted f.cache f.missing_entries (rounds size seq) (start_seq size seq),
              ),
              p.sent,
              p.missing,
              Pulled-Inv src _ raised h f' h' raised-Inv out p,
              p.inv,
            )
      ]
    where
      raised : Feed
      raised = record f {
        highest_update_seq = if ltb f.highest_update_seq seq then seq else f.highest_update_seq;
      }

      real : (src == no_such_node) ≡ false
      real = ground arith

      raised-Inv : Inv size raised
      raised-Inv = record {
        keys = λ k c. ground (arith, v.keys k);
        window = v.window;
        frontier = v.frontier;
        order = ground (arith, v.order);
        apart = v.apart;
        small = ground (arith, v.small);
      }

      above :
          ltb seq f.latest_update_seq ≡ false
          → (w : ℕ) → start_seq size seq ≤ w
          → w < start_seq size seq + rounds size seq
          → has w f.cache ≡ false
          → f.latest_update_seq < w
      above newer w lo hi gone =
          let there = v.window w in
          let range = start_range size seq some_size small in ground (arith, there)

      out :
          (k : ℕ)
          → contains (wanted f.cache f.missing_entries (rounds size seq) (start_seq size seq)) k
            ≡ true
          → has k f.cache ≡ false
      out k c =
          let which =
            contains-wanted f.cache f.missing_entries (rounds size seq) (start_seq size seq) k in
          ground arith

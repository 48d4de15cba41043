-- ===== src/Feed/Stuck.antt =====
-- src/feed.cpp: `add_entry` where there is a gap among the updates.
use rappel.Base.{
  ℕ, ◌+◌, ◌≤◌, ◌<◌, ◌≡◌, ap, ◌∙◌, inl, inr, true, false, List, arith, Bool-cases, ok, if◌then◌else◌,
  ltb, ◌&&◌,
}
use rappel.Base.Map.{has, has-insert}
use rappel.Base.Int.{ℤ}
use native.Mathlib.Decide.{dec_lt}
use rappel.Feed.{Feed, EntryDetails, add_entry, stored, start_seq, rounds, magic_num}
use rappel.Feed.Cache.{magic_key, Run, scan_sound, scan_complete}
use rappel.Feed.Window.{
  Inv, ran, ran-ok, jumped, jumped_lem, all_there, start_range, start_le, cache',
}

-- `add_entry` by its last loop.
by-Run :
    {size : ℕ} {f : Feed} (v : Inv size f) (h : 0 < size) (seq : ℕ) (small : seq < magic_key)
    (msg : List ℕ) (time : ℤ)
    → has seq f.cache ≡ false
    → let d : EntryDetails = record { msg = msg; sync_emission_time = time } in
      let f' = stored f seq d in
      (end : ℕ) × (add_entry size f seq msg time ≡ ok (record f' { latest_update_seq = end }))
      × Run f'.cache (jumped v h seq small d) f'.highest_update_seq end
unfolding add_entry
by-Run {size} {f} v h seq small msg time gone =
    let d : EntryDetails = record { msg = msg; sync_emission_time = time } in
    let (end, e, r) = ran v h seq small d in
    (end, rw (gone, add_entry) (ran-ok size f seq d end e r.within), r)

-- An update that comes when one of the updates shortly before it has not come, and that is not
-- the very next, leaves `latest_update_seq` where it was; also if with it the last `size` updates
-- are all there.
pub add_entry_stuck :
    (size : ℕ) (f : Feed) (seq m : ℕ) (msg : List ℕ) (emission_time : ℤ)
    → Inv size f
    → 0 < size
    → seq < magic_key
    → f.latest_update_seq + 1 < seq
    → has seq f.cache ≡ false
    → 1 ≤ m
    → m < seq
    → seq < m + size
    → has m f.cache ≡ false
    → (f' : Feed) × (add_entry size f seq msg emission_time ≡ ok f')
      × (f'.latest_update_seq ≡ f.latest_update_seq)
add_entry_stuck size f seq m msg time v h small ahead gone lo hi near hole =
    let (end, e, r) = by-Run v h seq small msg time gone in (_, e, stays end r)
  where
    d : EntryDetails
    d = record { msg = msg; sync_emission_time = time }

    not_all : all_there v h seq small d ≡ false
    not_all = elim (Bool-cases (all_there v h seq small d)) [
      | inl every ↦
          let there =
            (scan_sound (cache' v h seq small d) (rounds size seq) (start_seq size seq) true
                magic_num (omega (arith, start_range size seq h small)) every).1
              m (start_le size seq m h small lo near)
              (omega (arith, start_range size seq h small)) in
          ground (arith, has-insert seq m d f.cache)
      | inr some_not ↦ some_not
    ]

    same : jumped v h seq small d ≡ f.latest_update_seq
    same =
        jumped_lem v h seq small d
        ∙ ap (λ b. if ltb f.latest_update_seq seq && b then seq else f.latest_update_seq) not_all
        ∙ ground arith

    stays :
        (end : ℕ)
        → Run
            (stored f seq d).cache
            (jumped v h seq small d)
            (stored f seq d).highest_update_seq
            end
        → end ≡ f.latest_update_seq
    stays end r = elim (dec_lt f.latest_update_seq end) [
      | yes more ↦
          let next = r.covers (f.latest_update_seq + 1) (omega (arith, same)) (omega arith) in
          absurd (ground (arith, has-insert seq (f.latest_update_seq + 1) d f.cache, v.frontier))
      | no le ↦ omega (arith, r.starts, same)
    ]

-- An update that completes the last `size` updates up to itself takes `latest_update_seq` to
-- itself at least, over any older gap.
pub add_entry_catches_up :
    (size : ℕ) (f : Feed) (seq : ℕ) (msg : List ℕ) (emission_time : ℤ)
    → Inv size f
    → 0 < size
    → seq < magic_key
    → f.latest_update_seq < seq
    → has seq f.cache ≡ false
    → ((u : ℕ) → 1 ≤ u → u < seq → seq < u + size → has u f.cache ≡ true)
    → (f' : Feed) × (add_entry size f seq msg emission_time ≡ ok f') × (seq ≤ f'.latest_update_seq)
add_entry_catches_up size f seq msg time v h small ahead gone before =
    let (end, e, r) = by-Run v h seq small msg time gone in (_, e, omega (arith, r.starts, jumps))
  where
    d : EntryDetails
    d = record { msg = msg; sync_emission_time = time }

    every : all_there v h seq small d ≡ true
    every =
        scan_complete (cache' v h seq small d) (rounds size seq) (start_seq size seq) magic_num
          (omega (arith, start_range size seq h small)) λ w lo hi. there w lo hi
      where
        there :
            (w : ℕ)
            → start_seq size seq ≤ w
            → w < start_seq size seq + rounds size seq
            → has w (cache' v h seq small d) ≡ true
        there w lo hi =
            ground (arith, has-insert seq w d f.cache, before w, start_range size seq h small)

    jumps : jumped v h seq small d ≡ seq
    jumps =
        jumped_lem v h seq small d
        ∙ ap (λ b. if ltb f.latest_update_seq seq && b then seq else f.latest_update_seq) every
        ∙ ground arith

-- ===== src/Feed/Window.antt =====
-- src/feed.cpp: the invariant of a feed under `add_entry`.
use rappel.Base.{
  ℕ, ◌+◌, ◌-◌, ◌≤◌, ◌<◌, ◌≡◌, ap, sym, ◌∙◌, inl, inr, max, Bool, true, false, ◌&&◌, ◌||◌, not, List,
  arith, ltb, leb, ◌==◌, if◌then◌else◌, Bool-cases, ==_iff, ok, ◌>>=◌, ◌>>◌, assert, le→leb,
  above_highest,
}
use native.Mathlib.Decide.{dec_lt}
use rappel.Base.Map.{Map, insert, has, has-insert, has-erase}
use rappel.Base.Int.{ℤ}
use rappel.Feed.{
  Feed, EntryDetails, start_seq, rounds, magic_num, scan, advance, after_scan, jump, stored,
  add_entry,
}
use rappel.Feed.Cache.{magic_key, scan_sound, jump_lem, Run, advance_ends}

-- `size` is `globops.rappel_feed_updates_cache`.
pub record Inv (size : ℕ) (f : Feed) : Type 0 where
  pub keys : (k : ℕ) → has k f.cache ≡ true → k ≤ f.highest_update_seq
  pub window :
      (u : ℕ)
      → 1 ≤ u
      → u ≤ f.latest_update_seq
      → f.latest_update_seq < u + size
      → has u f.cache ≡ true
  pub frontier : has (f.latest_update_seq + 1) f.cache ≡ false
  pub order : f.latest_update_seq ≤ f.highest_update_seq
  pub apart : (k : ℕ) → has k f.missing_entries ≡ true → has k f.cache ≡ false
  pub small : f.highest_update_seq < magic_key

-- What `add_entry` does to a feed, whether or not the entry was there.
pub record Added (size : ℕ) (f : Feed) (seq : ℕ) (f' : Feed) : Type 0 where
  pub inv : Inv size f'
  pub cached : (k : ℕ) → has k f'.cache ≡ (seq == k || has k f.cache)
  pub missing : (k : ℕ) → has k f'.missing_entries ≡ (not (seq == k) && has k f.missing_entries)
  pub forward : f.latest_update_seq ≤ f'.latest_update_seq
  pub highest : f'.highest_update_seq ≡ max f.highest_update_seq seq

pub start_range :
    (size seq : ℕ) → 0 < size → seq < magic_key → start_seq size seq + rounds size seq ≡ seq + 1
start_range size seq h small = ground arith

pub start_le :
    (size seq u : ℕ) → 0 < size → seq < magic_key → 1 ≤ u → seq < u + size → start_seq size seq ≤ u
start_le size seq u h small lo near = ground arith

module _ {size : ℕ} {f : Feed} (v : Inv size f) (some_size : 0 < size) (seq : ℕ)
    (seq_small : seq < magic_key) (details : EntryDetails) where
  abbrev pub cache' : Map EntryDetails
  cache' = insert seq details f.cache

  abbrev highest' : ℕ
  highest' = if ltb f.highest_update_seq seq then seq else f.highest_update_seq

  abbrev pub jumped : ℕ
  jumped = jump size cache' f.latest_update_seq seq

  keys' : (k : ℕ) → has k cache' ≡ true → k ≤ highest'
  keys' k h = ground (arith, has-insert seq k details f.cache, v.keys k)

  abbrev pub all_there : Bool
  all_there = (scan cache' (rounds size seq) (start_seq size seq) true magic_num).0

  pub jumped_lem : jumped ≡ after_scan f.latest_update_seq seq all_there
  jumped_lem = jump_lem size cache' f.latest_update_seq seq some_size (
      let free : has magic_key f.cache ≡ false = ground (arith, v.keys magic_key) in
      ground (arith, has-insert seq magic_key details f.cache))

  window' : (u : ℕ) → 1 ≤ u → u ≤ jumped → jumped < u + size → has u cache' ≡ true
  window' u lo hi near = elim (Bool-cases (ltb f.latest_update_seq seq && all_there)) [
    | inl yes' ↦
        let e : jumped ≡ seq = jumped_lem ∙ ap (λ b. if b then seq else f.latest_update_seq) yes' in
        (scan_sound cache' (rounds size seq) (start_seq size seq) true magic_num
            (omega (arith, start_range size seq some_size seq_small)) (ground arith)).1
          u (start_le size seq u some_size seq_small lo (omega arith))
          (omega (arith, start_range size seq some_size seq_small))
    | inr no' ↦
        let e : jumped ≡ f.latest_update_seq =
          jumped_lem ∙ ap (λ b. if b then seq else f.latest_update_seq) no' in
        ground (arith, has-insert seq u details f.cache, v.window u)
  ]

  jumped-le : (f.latest_update_seq ≤ jumped) × (jumped ≤ highest')
  jumped-le = ground (arith, jumped_lem, v.order)

  pub ran :
      (end : ℕ) × (advance (highest' + 2 - f.latest_update_seq) cache' jumped ≡ ok end)
      × Run cache' jumped highest' end
  ran =
      advance_ends cache' highest' (ground (arith, v.small)) keys'
        (highest' + 2 - f.latest_update_seq) jumped jumped-le.1 (omega (arith, jumped-le, v.order))

  added :
      (end : ℕ)
      → Run cache' jumped highest' end
      → Added size f seq (record (stored f seq details) { latest_update_seq = end })
  added end r = record {
    inv = record {
      keys = keys';
      window = λ u lo hi near. elim (dec_lt jumped u) [
        | yes new ↦ r.covers u new hi
        | no old ↦ window' u lo (omega arith) (omega (arith, r.starts))
      ];
      frontier = r.stops;
      order = r.within;
      apart = λ k h.
          ground
            (arith, has-insert seq k details f.cache, has-erase seq k f.missing_entries, v.apart k);
      small = ground (arith, v.small);
    };
    cached = λ k. ground (arith, has-insert seq k details f.cache);
    missing = λ k. ground (arith, has-erase seq k f.missing_entries);
    forward = omega (arith, r.starts, jumped-le);
    highest = ground arith;
  }

-- The last steps of `add_entry`, once the loop has ended.
pub ran-ok :
    (size : ℕ) (f : Feed) (seq : ℕ) (details : EntryDetails) (end : ℕ)
    → let f' = stored f seq details in
      advance
          (f'.highest_update_seq + 2 - f.latest_update_seq)
          f'.cache
          (jump size f'.cache f.latest_update_seq seq)
        ≡ ok end
      → end ≤ f'.highest_update_seq
      → (do
        latest ←
            advance
              (f'.highest_update_seq + 2 - f.latest_update_seq)
              f'.cache
              (jump size f'.cache f.latest_update_seq seq)
        assert (leb latest f'.highest_update_seq) above_highest
        ok (record f' { latest_update_seq = latest }))
        ≡ ok (record f' { latest_update_seq = end })
ran-ok size f seq details end e h = rw (e, le→leb end _ h)

same-Added :
    {size : ℕ} {f : Feed} (seq : ℕ) → Inv size f → has seq f.cache ≡ true → Added size f seq f
same-Added {size} {f} seq v here = record {
  inv = v;
  cached = λ k. elim (Bool-cases (seq == k)) [
    | inl e ↦ rw e (sym (ap (λ j. has j f.cache) ((==_iff seq k).0 e)) ∙ here)
    | inr e ↦ rw e
  ];
  missing = λ k. elim (Bool-cases (seq == k)) [
    | inl e ↦ rw e (absent k ((==_iff seq k).0 e))
    | inr e ↦ rw e
  ];
  forward = omega arith;
  highest = ground (arith, v.keys seq here);
}
  where
    absent : (k : ℕ) → seq ≡ k → has k f.missing_entries ≡ false
    absent k e = elim (Bool-cases (has k f.missing_entries)) [
      | inl m ↦ let out = v.apart k m in let in' = rw e at here in cc
      | inr m ↦ m
    ]

-- `add_entry` on a sound feed never fails an assertion and ends. Afterwards the entry is in the
-- cache and not missing, every other entry is where it was, the highest number is the greater of
-- the two, `latest_update_seq` has not gone back, it stands at the end of a run (the update after
-- it is not there), it is at most the highest, and the last `size` updates up to it are all in
-- the cache.
pub add_entry_lem :
    (size : ℕ) (f : Feed) (seq : ℕ) (msg : List ℕ) (emission_time : ℤ)
    → Inv size f
    → 0 < size
    → seq < magic_key
    → (f' : Feed) × (add_entry size f seq msg emission_time ≡ ok f') × Added size f seq f'
unfolding add_entry
add_entry_lem size f seq msg time v h small = elim (Bool-cases (has seq f.cache)) [
  | inl here ↦ (f, rw (here, add_entry), same-Added seq v here)
  | inr gone ↦
      let details : EntryDetails = record { msg = msg; sync_emission_time = time } in
      let (end, e, r) = ran v h seq small details in
      (
        record (stored f seq details) { latest_update_seq = end },
        rw (gone, add_entry) (ran-ok size f seq details end e r.within),
        added v h seq small details end r,
      )
]

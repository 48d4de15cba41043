-- ===== src/Feed/Cache.antt =====
-- src/feed.cpp: the loops of `add_entry`, one by one.
use rappel.Base.{
  ℕ, zero, suc, ◌+◌, ◌-◌, ◌^◌, ◌≤◌, ◌<◌, ◌≡◌, refl, ap, sym, ◌∙◌, inl, inr, Bool, true, false, ◌&&◌,
  arith, ◌==◌, Bool-cases, ==_iff, ok,
}
use rappel.Base.Map.{Map, has}
use rappel.Base.Word.{add32}
use rappel.Base.Int.{ℤ}
use rappel.Feed.{
  EntryDetails, start_seq, rounds, magic_num, scan, special_case, advance, after_scan, jump,
}

-- `MAGIC_NUM` as the `unsigned int` that is looked up.
abbrev pub magic_key : ℕ
magic_key = 2 ^ 32 - 100

-- The sentinel is -100 and the test is for -1: the variable is never set.
pub scan_magic :
    (cache : Map EntryDetails) (n u : ℕ) (all : Bool) → (scan cache n u all magic_num).1 ≡ magic_num
unfolding scan
scan_magic cache zero u all = refl
scan_magic cache (suc n) u all = ground (arith, scan_magic cache n (add32 u 1) (has u cache && all))

has_at : (cache : Map EntryDetails) (u w : ℕ) → (u == w) ≡ true → has u cache ≡ has w cache
has_at cache u w e = ap (λ k. has k cache) ((==_iff u w).0 e)

-- The scan answers "all" only when every update of its range is in the cache,
pub scan_sound :
    (cache : Map EntryDetails) (n u : ℕ) (all : Bool) (e : ℤ)
    → u + n < 2 ^ 32
    → (scan cache n u all e).0 ≡ true
    → (all ≡ true) × ((w : ℕ) → u ≤ w → w < u + n → has w cache ≡ true)
unfolding scan
scan_sound cache zero u all e small h = (h, λ w lo hi. absurd (omega arith))
scan_sound cache (suc n) u all e small h =
    let next : add32 u 1 ≡ u + 1 = omega arith in
    let (both, rest) = scan_sound cache n (add32 u 1) _ _ (omega arith) h in
    (
      ground arith,
      λ w lo hi. elim (Bool-cases (u == w)) [
        | inl same ↦ sym (has_at cache u w same) ∙ (let both' = both in ground arith)
        | inr other ↦ rest w (ground arith) (omega arith)
      ],
    )

-- and always then.
pub scan_complete :
    (cache : Map EntryDetails) (n u : ℕ) (e : ℤ)
    → u + n < 2 ^ 32
    → ((w : ℕ) → u ≤ w → w < u + n → has w cache ≡ true)
    → (scan cache n u true e).0 ≡ true
unfolding scan
scan_complete cache zero u e small h = refl
scan_complete cache (suc n) u e small h =
    let next : add32 u 1 ≡ u + 1 = omega arith in
    rw (h u (omega arith) (omega arith), scan)
      (scan_complete cache n (add32 u 1) _ (omega arith) λ w lo hi. h w (omega arith) (omega arith))

special_case_dead :
    (cache : Map EntryDetails) (size : ℕ)
    → 0 < size
    → has magic_key cache ≡ false
    → special_case cache size magic_num ≡ false
unfolding special_case
special_case_dead cache zero h free = absurd (omega arith)
special_case_dead cache (suc n) h free = rw free

-- So the special case does nothing.
pub jump_lem :
    (size : ℕ) (cache : Map EntryDetails) (latest seq : ℕ)
    → 0 < size
    → has magic_key cache ≡ false
    → jump size cache latest seq
      ≡ after_scan latest seq (scan cache (rounds size seq) (start_seq size seq) true magic_num).0
unfolding jump
jump_lem size cache latest seq h free = ground (
  arith,
  special_case_dead cache size h free,
  scan_magic cache (rounds size seq) (start_seq size seq) true,
)

-- The last loop ends, at the end of a run of updates that are all in the cache.
pub record Run (cache : Map EntryDetails) (latest highest end : ℕ) : Type 0 where
  pub starts : latest ≤ end
  pub within : end ≤ highest
  pub stops : has (end + 1) cache ≡ false
  pub covers : (u : ℕ) → latest < u → u ≤ end → has u cache ≡ true

module _ (cache : Map EntryDetails) (highest : ℕ) (small : highest + 1 < 2 ^ 32)
    (below : (k : ℕ) → has k cache ≡ true → k ≤ highest) where
  one_more :
      (fuel latest end : ℕ)
      → has (latest + 1) cache ≡ true
      → add32 latest 1 ≡ latest + 1
      → advance fuel cache (latest + 1) ≡ ok end
      → Run cache (latest + 1) highest end
      → (advance (suc fuel) cache latest ≡ ok end) × Run cache latest highest end
  unfolding advance
  one_more fuel latest end more next e r = (
    rw (next, more) e,
    record {
      starts = omega (arith, r.starts);
      within = r.within;
      stops = r.stops;
      covers = λ u lo hi. elim (Bool-cases (latest + 1 == u)) [
        | inl same ↦ sym (has_at cache (latest + 1) u same) ∙ more
        | inr other ↦ r.covers u (ground arith) hi
      ];
    },
  )

  pub advance_ends :
      (fuel latest : ℕ)
      → latest ≤ highest
      → highest + 1 - latest < fuel
      → (end : ℕ) × (advance fuel cache latest ≡ ok end) × Run cache latest highest end
  unfolding advance
  advance_ends zero latest h enough = absurd (omega arith)
  advance_ends (suc fuel) latest h enough = elim (Bool-cases (has (latest + 1) cache)) [
    | inl more ↦
        let room = below (latest + 1) more in
        let (end, e, r) = advance_ends fuel (latest + 1) room (omega (arith, room)) in
        let (e', r') = one_more fuel latest end more next e r in (end, e', r')
    | inr stop ↦ (
      latest,
      rw (next, stop),
      record {
        starts = omega arith;
        within = h;
        stops = stop;
        covers = λ u lo hi. absurd (omega arith);
      },
    )
  ]
    where
      next : add32 latest 1 ≡ latest + 1
      next = omega arith

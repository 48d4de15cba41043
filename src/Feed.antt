-- ===== src/Feed.antt =====
-- src/feed.cpp and include/feed.h as the simulator compiles them: one feed as a node keeps it.
-- This file has the state and the cache of updates; `Pull` has the requests for missing updates,
-- `Tree` the node's place in the dissemination tree and the periodic rejoin.
-- `unsigned int` values keep their wrap-around; a `map` is an ordered association list.
pub mod Cache
pub mod Window
pub mod Stuck
pub mod Pull
pub mod Wanted
pub mod Pulled
pub mod Tree
pub mod Rejoin
pub mod Family
pub mod Passing
mod Tests
use rappel.Base.{
  ℕ, zero, suc, ◌+◌, ◌-◌, ◌%◌, ◌^◌, Bool, true, false, ◌&&◌, not, List, [], ◌∷◌, Option, none, some,
  ltb, leb, ◌==◌, if◌then◌else◌, Result, ok, failed, ◌>>=◌, ◌>>◌, assert, above_highest,
  unreachable,
}
use rappel.Base.Map.{Map, lookup, insert, erase, has}
use rappel.Base.Word.{add32}
use rappel.Base.Int.{ℤ, pos, negsuc}
use rappel.Events.{no_such_node, no_such_event_id}
use rappel.Messages.{Coordinate}

-- `class EntryDetails`; a text is its bytes.
pub record EntryDetails : Type 0 where
  pub msg : List ℕ
  pub sync_emission_time : ℤ

pub record Feed : Type 0 where
  pub owner : ℕ
  pub id : ℕ
  pub publisher_nc : Coordinate
  pub rejoin_event_id : ℕ
  pub pull_entry_events : List ℕ
  pub seeking_parent : Bool
  pub parent : ℕ
  pub path_cost : ℕ
  pub ancestors : List ℕ
  pub grand_parent : ℕ
  pub children : List ℕ
  pub latest_update_seq : ℕ
  pub highest_update_seq : ℕ
  pub cache : Map EntryDetails
  pub missing_entries : Map ℕ

-- `Feed(owner, id)`; `new_nc` is what `Coordinate()` makes, of version 0.
unfoldable pub new_feed : ℕ → ℕ → Coordinate → Feed
new_feed owner id new_nc = record {
  owner = owner;
  id = id;
  publisher_nc = new_nc;
  rejoin_event_id = no_such_event_id;
  pull_entry_events = [];
  seeking_parent = false;
  parent = no_such_node;
  path_cost = 0;
  ancestors = id ∷ [];
  grand_parent = no_such_node;
  children = [];
  latest_update_seq = 0;
  highest_update_seq = 0;
  cache = [];
  missing_entries = [];
}

-- `Feed(id, publisher_nc)`, at the publisher.
unfoldable pub new_own_feed : ℕ → Coordinate → Feed
unfolding new_feed
new_own_feed id nc = record (new_feed id id nc) { parent = id; ancestors = [] }

unfoldable pub set_publisher_nc : Feed → Coordinate → Bool × Feed
set_publisher_nc f nc =
    if ltb f.publisher_nc.version nc.version
    then (true, record f { publisher_nc = nc })
    else (false, f)

-- `seq_num >= cache ? seq_num - cache + 1 : 1`: the first of the last `cache` updates.
abbrev pub start_seq : ℕ → ℕ → ℕ
start_seq size seq = if leb size seq then add32 (seq - size) 1 else 1

-- `for (update_num = start_seq; update_num <= seq_num; update_num++)` makes this many rounds, for
-- any `seq_num` but the largest `unsigned int`, at which it would not end.
abbrev pub rounds : ℕ → ℕ → ℕ
rounds size seq = seq + 1 - start_seq size seq

-- `unsigned int` to `int` and back.
abbrev pub to_int : ℕ → ℤ
to_int u = if ltb u (2 ^ 31) then pos u else negsuc (2 ^ 32 - 1 - u)

abbrev pub to_unsigned : ℤ → ℕ
to_unsigned (pos n) = n % 2 ^ 32
to_unsigned (negsuc n) = (2 ^ 32 - 1 - n) % 2 ^ 32

-- `MAGIC_NUM`, -100.
abbrev pub magic_num : ℤ
magic_num = negsuc 99

abbrev is_minus_one : ℤ → Bool
is_minus_one (pos n) = false
is_minus_one (negsuc n) = n == 0

-- The first loop of `add_entry`: are the last updates all in the cache, and the variable
-- `earliest_contiguous_update`.
unfoldable pub scan : Map EntryDetails → ℕ → ℕ → Bool → ℤ → Bool × ℤ
scan cache zero u all earliest = (all, earliest)
scan cache (suc n) u all earliest =
    scan cache n (add32 u 1) (has u cache && all)
      (if has u cache && is_minus_one earliest then to_int u else earliest)

-- The loop of the special case, which tests the same entry each time.
unfoldable pub special_case : Map EntryDetails → ℕ → ℤ → Bool
special_case cache zero earliest = true
special_case cache (suc n) earliest =
    if has (to_unsigned earliest) cache then special_case cache n earliest else false

-- `while (true)`: on to the last update of the run that begins after `latest`.
unfoldable pub advance : ℕ → Map EntryDetails → ℕ → Result ℕ
advance zero cache latest = failed unreachable
advance (suc fuel) cache latest =
    let further = advance fuel cache (add32 latest 1) in
    if has (add32 latest 1) cache then further else ok latest

-- `_latest_update_seq` after the first loop, and after the special case.
abbrev pub after_scan : ℕ → ℕ → Bool → ℕ
after_scan latest seq all = if ltb latest seq && all then seq else latest

abbrev pub after_special : ℕ → Map EntryDetails → ℕ → ℕ → ℤ → ℕ
after_special size cache latest seq earliest =
    if ltb latest seq && special_case cache size earliest
    then add32 (to_unsigned earliest) size
    else latest

-- The entry goes into the cache; it is no longer missing.
abbrev pub stored : Feed → ℕ → EntryDetails → Feed
stored f seq details = record f {
  cache = insert seq details f.cache;
  missing_entries = erase seq f.missing_entries;
  highest_update_seq = if ltb f.highest_update_seq seq then seq else f.highest_update_seq;
}

module _ (size : ℕ) where
  -- Where the contiguous updates end before the last loop: `seq_num > _latest_update_seq` guards
  -- the scan, and the special case reads what the scan left in `earliest_contiguous_update`.
  unfoldable pub jump : Map EntryDetails → ℕ → ℕ → ℕ
  jump cache latest seq =
      let (all, earliest) =
        if ltb latest seq
        then scan cache (rounds size seq) (start_seq size seq) true magic_num
        else (true, magic_num) in
      after_special size cache (after_scan latest seq all) seq earliest

  -- `add_entry`, with `globops.rappel_feed_updates_cache` for `size`. The fuel is more than the
  -- rounds of the last loop, which passes no entry above the highest.
  unfoldable pub add_entry : Feed → ℕ → List ℕ → ℤ → Result Feed
  add_entry f seq msg emission_time =
      let f' = stored f seq (record { msg = msg; sync_emission_time = emission_time }) in
      let added = (do
        latest ←
            advance (f'.highest_update_seq + 2 - f.latest_update_seq) f'.cache
              (jump f'.cache f.latest_update_seq seq)
        assert (leb latest f'.highest_update_seq) above_highest
        ok (record f' { latest_update_seq = latest })) in
      if has seq f.cache then ok f else added

-- ===== src/Feed/Tests.antt =====
-- A feed at a concrete state: updates 4 and 6 have come, the first three and the fifth have not.
use rappel.Base.{
  not, ℕ, ◌+◌, ◌≤◌, ◌<◌, ◌≡◌, ◌≢◌, refl, List, [], ◌∷◌, ◌++◌, map, some, arith, ok, true, ◌&&◌,
  ◌||◌, ◌==◌, get_elem?, if◌then◌else◌, length, contains, Distinct,
}
use rappel.Base.Map.{lookup, has}
use rappel.Base.Int.{pos}
use rappel.Messages.{Coordinate}
use rappel.Timer.Inv as TimerInv
use rappel.Timer.Queue.{list_queue, TimeOrderedEvent}
use rappel.Timer.Fixture.{loaded, loaded-Inv}
use rappel.Feed.{Feed, EntryDetails, new_feed, add_entry}
use rappel.Feed.Window.{Inv, Added, add_entry_lem}
use rappel.Feed.Stuck.{add_entry_stuck, add_entry_catches_up}
use rappel.Feed.Passing.{mark_pull_as_failed_lem}
use rappel.Feed.Pull.{mark_pull_as_failed, Host, pull_request, request_missing_entries}
use rappel.Feed.Tree.{
  add_child, remove_child, is_child, set_ancestors, get_parent, get_grand_parent,
  get_random_ancestor, expect,
}
use rappel.Feed.Family.{
  Grown, start, added, removed, Grown-Distinct, add_child-remove_child, set_ancestors_lem,
}
use rappel.Timer.{Timer}
use rappel.Feed.Wanted.{Ready}
use rappel.Feed.Pulled.{asked, request_missing_entries_lem}

abbrev nowhere : Coordinate
nowhere = record { app_coords = []; version = 0 }

abbrev text : EntryDetails
text = record { msg = []; sync_emission_time = pos 3 }

abbrev gap : Feed
unfolding new_feed
gap = record (new_feed 7 3 nowhere) { highest_update_seq = 6; cache = (4, text) ∷ (6, text) ∷ [] }

gap-Inv : Inv 2 gap
unfolding gap has lookup
gap-Inv = record {
  keys = λ k h. ground arith;
  window = λ u lo hi near. absurd (omega arith);
  frontier = refl;
  order = omega arith;
  apart = λ k h. cc;
  small = omega arith;
}

add_entry_lem_example : (f' : Feed) × (add_entry 2 gap 2 [] (pos 9) ≡ ok f') × Added 2 gap 2 f'
unfolding gap
add_entry_lem_example = add_entry_lem 2 gap 2 [] (pos 9) gap-Inv (omega arith) (omega arith)

add_entry_stuck_example :
    (f' : Feed) × (add_entry 2 gap 8 [] (pos 9) ≡ ok f') × (f'.latest_update_seq ≡ 0)
unfolding gap has lookup
add_entry_stuck_example =
    add_entry_stuck 2 gap 8 7 [] (pos 9) gap-Inv (omega arith) (omega arith) (omega arith) refl
      (omega arith) (omega arith) (omega arith) refl

before_five : (u : ℕ) → 1 ≤ u → u < 5 → 5 < u + 2 → has u gap.cache ≡ true
unfolding gap has lookup
before_five u lo hi near = ground arith

add_entry_catches_up_example :
    (f' : Feed) × (add_entry 2 gap 5 [] (pos 9) ≡ ok f') × (5 ≤ f'.latest_update_seq)
unfolding gap has lookup
add_entry_catches_up_example =
    add_entry_catches_up 2 gap 5 [] (pos 9) gap-Inv (omega arith) (omega arith) (omega arith) refl
      before_five

abbrev host : Host (List TimeOrderedEvent)
host = record { timer = loaded; sent = [] }

host-Ready : Ready list_queue 10 2 host
unfolding gap has lookup
host-Ready = record { inv = loaded-Inv; registered = refl; room = omega arith }

-- The neighbour 9 has sent update 7: of 6 and 7, the last two, only 7 is asked for.
asks_for_seven : asked list_queue 10 2 100 refl gap 7 ≡ 7 ∷ []
unfolding gap has lookup
asks_for_seven = refl

request_missing_entries_lem_example :
    let us = asked list_queue 10 2 100 refl gap 7 in
    (f' : Feed) × (h' : Host (List TimeOrderedEvent)) × (request_missing_entries list_queue 2 100
        gap host 7 9
      ≡ ok (length us, f', h'))
    × (length us ≤ 2)
    × (h'.sent ≡ host.sent ++ map (pull_request 7 3 9) us)
    × ((k : ℕ)
        → lookup k f'.missing_entries
          ≡ (if contains us k then some 9 else lookup k gap.missing_entries))
    × Inv 2 f'
    × TimerInv.Inv list_queue 10 h'.timer
unfolding gap
request_missing_entries_lem_example =
    request_missing_entries_lem list_queue 10 2 100 refl gap host 7 9 gap-Inv (omega arith)
      (omega arith) (omega arith) (omega arith) host-Ready

-- In the tree, below 9, with one event taken for its rejoin.
abbrev placed : Feed
unfolding gap
placed = record gap { parent = 9; rejoin_event_id = 9 }

-- Two children, one of them new.
abbrev parent_of_two : Feed
parent_of_two = record placed { children = 5 ∷ 6 ∷ [] }

two_calls : Grown 2 placed (record placed { children = 6 ∷ [] })
unfolding gap placed add_child remove_child
two_calls =
    removed parent_of_two _ 5
      (added (record placed { children = 5 ∷ [] }) _ 6 (added placed _ 5 start refl) refl) refl

Grown-Distinct_example : Distinct (6 ∷ []) × (1 ≤ 2 + 1)
unfolding gap placed
Grown-Distinct_example =
    Grown-Distinct 2 placed (record placed { children = 6 ∷ [] }) tt (omega arith) two_calls

add_child-remove_child_example :
    (f' : Feed) × (add_child 5 parent_of_two 8 ≡ ok f')
    × ((k : ℕ) → is_child f' k ≡ (is_child parent_of_two k || 8 == k))
    × ((h : Feed) → add_child 5 f' 8 ≢ ok h)
    × (remove_child f' 8 ≡ ok parent_of_two)
add_child-remove_child_example = add_child-remove_child 5 parent_of_two 8 (omega arith) refl

abbrev path : List ℕ
path = 3 ∷ 5 ∷ 9 ∷ []

accepts_path : set_ancestors placed path ≡ ok (record placed { ancestors = path })
unfolding gap placed set_ancestors get_parent expect
accepts_path = refl

set_ancestors_lem_example :
    (grand : ℕ) × (ancestor : ℕ) × (get_grand_parent (record placed { ancestors = path })
      ≡ ok grand)
    × (get_elem? path 1 ≡ some grand)
    × (get_random_ancestor (record placed { ancestors = path }) 0 ≡ ok ancestor)
    × (contains path ancestor ≡ true)
    × (ancestor ≢ placed.owner)
set_ancestors_lem_example =
    set_ancestors_lem placed (record placed { ancestors = path }) path 0 accepts_path (omega arith)
      (omega arith)

-- Update 5 has been asked of 9.
abbrev waiting : Feed
unfolding gap
waiting = record gap { missing_entries = (5, 9) ∷ [] }

waiting-Inv : Inv 2 waiting
unfolding gap waiting has lookup
waiting-Inv = record {
  keys = gap-Inv.keys;
  window = gap-Inv.window;
  frontier = gap-Inv.frontier;
  order = gap-Inv.order;
  apart = λ k h. ground arith;
  small = gap-Inv.small;
}

mark_pull_as_failed_lem_example :
    (f' : Feed) × (mark_pull_as_failed waiting 5 9 ≡ ok f')
    × ((k : ℕ) → has k f'.missing_entries ≡ (not (5 == k) && has k waiting.missing_entries))
    × (f' ≡ record waiting { missing_entries = f'.missing_entries })
    × (has 5 waiting.cache ≡ true → f' ≡ waiting)
    × Inv 2 f'
unfolding gap waiting lookup
mark_pull_as_failed_lem_example = mark_pull_as_failed_lem 2 waiting 5 9 waiting-Inv λ h. refl

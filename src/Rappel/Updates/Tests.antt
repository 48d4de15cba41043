-- ===== src/Rappel/Updates/Tests.antt =====
-- An update that node 1 publishes and node 2, its child, receives.
use rappel.Base.{◌≡◌, refl, List, [], ◌∷◌, true, arith, ok}
use rappel.Base.Map.{has, lookup}
use rappel.Base.Int.{◌+ℤ◌}
use rappel.Timer.Queue.{TimeOrderedEvent}
use rappel.Feed.{Feed, EntryDetails, new_feed, new_own_feed}
use rappel.Feed.Window.{Inv}
use rappel.Rappel.{Rappel}
use rappel.Rappel.Fixture.{node, nowhere}
use rappel.Rappel.Updates.{publish_update, receive_feed_update}
use rappel.Rappel.Updates.Passed.{Passed, publish_update-receive_feed_update}

abbrev published : Feed
unfolding new_own_feed new_feed
published = record (new_own_feed 1 nowhere) { children = 2 ∷ [] }

abbrev received : Feed
unfolding new_feed
received = record (new_feed 2 1 nowhere) { parent = 1; children = 3 ∷ 4 ∷ [] }

published-Inv : Inv 2 published
unfolding published has lookup
published-Inv = record {
  keys = λ k h. cc;
  window = λ u lo hi near. absurd (omega arith);
  frontier = refl;
  order = omega arith;
  apart = λ k h. cc;
  small = omega arith;
}

received-Inv : Inv 2 received
unfolding received has lookup
received-Inv = record {
  keys = λ k h. cc;
  window = λ u lo hi near. absurd (omega arith);
  frontier = refl;
  order = omega arith;
  apart = λ k h. cc;
  small = omega arith;
}

abbrev publisher : Rappel (List TimeOrderedEvent)
publisher = record node { feed_set = (1, published) ∷ [] }

abbrev given : EntryDetails
given = record {
  msg = [];
  sync_emission_time = publisher.timer.time +ℤ publisher.timer.sync_offset;
}

abbrev child : Rappel (List TimeOrderedEvent)
child = record node { node_id = 2; feed_set = (1, received) ∷ [] }

publish_update-receive_feed_update_example :
    (p' r' : Rappel (List TimeOrderedEvent)) × (publish_update 2 publisher true ≡ ok p')
    × (passed : Passed 2 publisher 1 published 1 given p') × (receive_feed_update 2 child 1 1
          passed.details.msg passed.details.sync_emission_time
        ≡ ok r')
    × (arrived : Passed 2 child 1 received 1 passed.details r') × (passed.details ≡ given)
    × (arrived.details ≡ given)
unfolding published
publish_update-receive_feed_update_example =
    publish_update-receive_feed_update 2 publisher child published received (unfold lookup in refl)
      published-Inv (unfold lookup in refl) received-Inv (omega arith) (omega arith)
      (unfold received has lookup in refl)

-- ===== src/Rappel/Fixture.antt =====
-- States of a node to test its protocol on.
use rappel.Base.{ℕ, true, false, List, [], ◌∷◌, length}
use rappel.Base.Int.{pos}
use rappel.Messages.{Coordinate}
use rappel.Bloom.{BloomFilter}
use rappel.Neighbor.{Neighbor, CandidatePeer, friend_role, new_role, check_event}
use rappel.Timer.{Timer}
use rappel.Timer.Queue.{TimeOrderedEvent}
use rappel.Timer.Fixture.{idle}
use rappel.Rappel.{Rappel, Options, interest_alone}

abbrev pub options : Options
options = record {
  num_friends = 2;
  num_fans = 1;
  num_candidates = 10;
  reply_timeout = 100;
  keep_alive_interval = 50;
  heart_beat_interval = 80;
  feed_rejoin_interval = 1000;
  num_feed_children = 3;
  bloom_size = 1;
  bloom_hash_funcs = 2;
  utility_mode = interest_alone;
  utility_delta = 1;
  utility_k = 1;
}

abbrev pub nowhere : Coordinate
nowhere = record { app_coords = []; version = 0 }

abbrev pub lowest : ℕ → ℕ → ℕ → ℕ
lowest n low high = low

abbrev pub hash_funcs : List (List ℕ → ℕ)
hash_funcs = (λ key. length key) ∷ (λ key. 3) ∷ []

abbrev pub text : ℕ → List ℕ
text n = n ∷ []

-- A node that audits node 7, which is protected, with two requests out. Node 3 is a friend and
-- node 6 a fan.
abbrev pub no_bits : BloomFilter
no_bits = record { hash_table = 0 ∷ []; table_size = 1; version = 1 }

abbrev pub friend : Neighbor
friend = record {
  node_id = 1;
  nbr_id = 3;
  filter = no_bits;
  nc = nowhere;
  last_heard_from = pos 0;
  roles = new_role friend_role (pos 0) ∷ [];
  node_check_event_id = 9;
}

abbrev pub candidate : ℕ → CandidatePeer
candidate id = record {
  id = id;
  nc = nowhere;
  last_voted_at = pos 0;
  num_votes = 1;
  filter = no_bits;
  audited = false;
}

abbrev pub waiting : Timer (List TimeOrderedEvent)
waiting = record idle { current_event_id = 20; events = (20, check_event 1 7 5) ∷ [] }

abbrev pub node : Rappel (List TimeOrderedEvent)
node = record {
  node_id = 1;
  nc = nowhere;
  is_online = true;
  filter = record no_bits { version = 2 };
  feed_set = [];
  peers = (3, friend) ∷ [];
  friends = 3 ∷ [];
  candidates = (7, candidate 7) ∷ [];
  protected_candidates = (7, candidate 7) ∷ [];
  fans = (6, pos 0) ∷ [];
  currently_auditing = 7;
  num_audits = 1;
  pending_events = [];
  timer = waiting;
  sent = [];
  draws = 0;
}

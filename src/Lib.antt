-- ===== src/Lib.antt =====
-- Rappel, a peer-to-peer feed service: the parts of its simulator build (COMPILE_FOR is SIMULATOR,
-- assertions on, delays from traces) that carry the protocol, and what makes them correct.
--
-- The simulator is one loop. `Timer` (src/timer.cpp) keeps the events that the layers have scheduled,
-- moves the clock to the next and calls the layer. A node keeps for each feed a `Feed`
-- (src/feed.cpp): the updates that it has, those that it has asked a neighbour for, its parent,
-- ancestors and children in the tree of the feed, and the event of its periodic rejoin. For each
-- peer it keeps a `Neighbor` (src/neighbor.cpp) with the peer's roles, the times at which it was
-- heard, its coordinates and its Bloom filter (include/bloom_filter.h). `Rappel` (src/rappel.cpp)
-- holds these and the node's friends, fans and candidates for friendship; its handlers audit one
-- candidate after the other, ask it to be a friend where that makes the friend set better, and ask
-- nodes to be the parent in the tree of a feed. `Node` (src/node.cpp) keeps the landmarks with whose
-- latencies `Coordinate` (src/coordinate.cpp) places the node. Messages go through `Transport`
-- (src/transport.cpp), which schedules an event at the receiver, after the time that `Topology`
-- (src/topology.cpp) gives.
--
-- Files:
--   Base      Boolean tests, lists, ordered maps, 32-bit words, the integers of `Clock`, and
--             `Result`: a failed assertion of the source is a value that names it.
--   Layers    the layers, which events and messages name.
--   Events    the events of include/data_objects.h and the constants of include/rappel_common.h.
--   Messages  the messages that the modelled operations send.
--   Timer     src/timer.cpp, include/timer.h: state and operations. `Queue` is the priority queue as
--             an interface, since the order of events of one time is not fixed; `Inv` is the
--             invariant; `Steps`, `Run`, `Advance` and `Loop` are about the callbacks and the loop,
--             `Calls` about `schedule_event`, `Cancelled` about `cancel_event`; `Fixture` is a timer to test on.
--   Feed      src/feed.cpp, include/feed.h: the state and `add_entry`. `Pull` has the requests and
--             the sending of updates, `Tree` parent, ancestors, children and rejoin. `Cache`, `Window`
--             and `Stuck` are about `add_entry`, `Wanted` and `Pulled` about `request_missing_entries`, `Passing`
--             about sending and failed pulls, `Rejoin` about the rejoin, `Family` about children and
--             ancestors.
--   Bloom     include/bloom_filter.h. `Bits` has the facts on bytes, `Insert` and `Overlap` the
--             proofs. The hash functions of src/bloom_filter.cpp, a library of their own, are a
--             parameter: a list of functions from keys to numbers.
--   Neighbor  src/neighbor.cpp, include/neighbor.h, and `Role` of include/data_objects.h. `Roles`
--             and `Updates` have the proofs.
--   Topology  src/topology.cpp, include/topology.h: the delay of a message and the cleanup of links.
--             `Arrivals` and `Fifo` are about the order of the messages of a link.
--   Random    src/rappel_common.cpp: `rand_uint_exp`, which chooses the ancestor to rejoin at; `Chosen`
--             is about what it returns.
--   Candidates src/rappel.cpp: the candidates for friendship. `Best` and `Popular` are about the
--             one that is audited next, `Queued` and `Ages` about the queue of the oldest, `Evict` and
--             `Add` about `remove_old_candidate` and `add_candidate`.
--   Coordinate src/coordinate.cpp, include/coordinate.h; `Updates` is about `update`, `Fixture` has
--             numbers to test on.
--   Landmarks src/node.cpp: the landmarks and the samples of their latencies. `Forget`, `Window` and
--             `Known` have the proofs.
--   Transport src/transport.cpp: the simulator's transport; `Delivery` follows a message from the
--             sender to the receiver.
--   Rappel    src/rappel.cpp, include/rappel.h: the state of a node and what the handlers share.
--             `Utility` and `Audit` have `calculate_friend_set_utility` and `audit`; `Targets` has
--             `initiate_feed_join_req`, with the choice of its target in `Targets.Least`, `Targets.Choice` and `Targets.Alive`; `Peers` has
--             `add_peer_with_role`, `remove_peer_from_role` and `peer_has_failed`, with the proofs in
--             `Known`, `Befriend`, `Partings` and `Dismiss`; `Friends` has the handlers of the friend protocol,
--             with the proofs in `Kept`, `Fans` and `Changed`; `Joins` has the handlers of a request to
--             join that is denied or not answered, `Joins.Requests`, `Joins.Handlers` and
--             `Joins.Rounds` that the requests come to an end; `Updates` has
--             the publishing and receiving of updates, `Updates.Passed` what arrives. `Fixture` has
--             states to test on.
-- Each part has its witnesses and tests in a module `Tests`.
--
-- How the code is read. An object is a record, a method a function that takes and returns it; a
-- method that schedules takes and returns the timer too. An `unsigned int` wraps around at 2 ^ 32; a
-- `Clock` is an integer without bound, in the topology a number. A `map` is a list in the order of
-- its keys. A callback is a program that may read the time and schedule, cancel or reschedule
-- events. A node of the simulator is its address. The options of `globops`, the draws of the random
-- numbers and the delays between networks are arguments; in `Rappel` the draws are a function of their
-- count and of the range. A `double` stands as its bits, and the operations on it are a parameter,
-- the record `Doubles`; the path cost is a number that is only stored. The text of a feed's id and
-- the hash functions are parameters too. A node's coordinates, id and whether it is online stand in
-- the state of its `Rappel`; what it sends is a list of messages in order, which `Transport` takes one
-- by one. Counters for progress and statistics, debug output and the freeing of memory are left out.
--
-- Fuel. `start_timer` takes the number of rounds, since events schedule events and the loop need not
-- end. `advance`, the last loop of `add_entry`, takes more fuel than there are numbers up to the
-- highest update, and no update above it is cached. The loops over a range of updates take its
-- length, which is exact for every `seq_num` but the largest `unsigned int`, and the loop of
-- `rand_uint_exp` the greatest index. The loop over the bits of a byte takes eight rounds, the loop
-- over the friends their number. `Coordinate::update` draws a direction again while its length is
-- zero; the draws are a list, and a list without a usable one is a failure of its own.
--
-- Not modelled: of src/rappel.cpp the other handlers of joins, those of pings, and going online and
-- offline; of src/node.cpp the starting and ending of layers; src/vivaldi.cpp and
-- src/as_topology.cpp; configuration, statistics, debug output and the drivers; the network build; and
-- the copies of other projects (asio, the Fibonacci heaps, MD5, the hash functions).
pub mod Base
pub mod Layers
pub mod Events
pub mod Timer
pub mod Messages
pub mod Feed
pub mod Bloom
pub mod Neighbor
pub mod Topology
pub mod Transport
pub mod Rappel
pub mod Random
pub mod Candidates
pub mod Coordinate
pub mod Landmarks

-- ===== src/Neighbor.antt =====
-- src/neighbor.cpp and include/neighbor.h, with `Role` of include/data_objects.h: a peer of a node,
-- with the roles that it plays for the node and when it was last heard in each.
pub mod Roles
pub mod Updates
mod Tests
use rappel.Base.{
  ℕ, ◌+◌, ◌/◌, ◌*◌, Bool, true, false, not, ◌&&◌, ◌||◌, List, [], ◌∷◌, ◌++◌, map, Option, none,
  some, ltb, leb, ◌==◌, if◌then◌else◌, Result, ok, failed, ◌>>=◌, ◌>>◌, assert, present, no_role,
  no_event, unknown_role, known_role, unreachable, bad_role, time_of_vote,
}
use rappel.Base.Word.{add32}
use rappel.Base.Int.{ℤ, pos, leb_ℤ, ltb_ℤ}
use rappel.Events.{
  Event, no_such_event_id, no_such_node, application, protocol, rappel_periodic_node_check,
  node_check_data,
}
use rappel.Messages.{Coordinate}
use rappel.Bloom.{BloomFilter}
use rappel.Timer.{Timer, schedule_event, cancel_event}
use rappel.Timer.Queue.{EventQueue}

pub data RoleType : Type 0 where
  role_none role_friend role_feed_parent role_feed_child : RoleType

abbrev eq_role_type : RoleType → RoleType → Bool
eq_role_type role_none role_none = true
eq_role_type role_friend role_friend = true
eq_role_type role_feed_parent role_feed_parent = true
eq_role_type role_feed_child role_feed_child = true
eq_role_type _ _ = false

pub record Role : Type 0 where
  pub role_type : RoleType
  pub feed_id : ℕ

-- `Role(ROLE_FRIEND)`.
abbrev pub friend_role : Role
friend_role = record { role_type = role_friend; feed_id = no_such_node }

-- `operator==`.
abbrev pub eq_role : Role → Role → Bool
eq_role lhs rhs =
    if eq_role_type lhs.role_type role_friend
    then eq_role_type lhs.role_type rhs.role_type
    else eq_role_type lhs.role_type rhs.role_type && lhs.feed_id == rhs.feed_id

pub record RoleInfo : Type 0 where
  pub role : Role
  pub last_heard_request : ℤ
  pub last_heard_reply : ℤ
  pub last_sent_request : ℤ

pub record Neighbor : Type 0 where
  pub node_id : ℕ
  pub nbr_id : ℕ
  pub filter : BloomFilter
  pub nc : Coordinate
  pub last_heard_from : ℤ
  pub roles : List RoleInfo
  pub node_check_event_id : ℕ

-- The entry of a new role.
abbrev pub new_role : Role → ℤ → RoleInfo
new_role role now = record {
  role = role;
  last_heard_request = pos 0;
  last_heard_reply = now;
  last_sent_request = pos 0;
}

abbrev pub check_event : ℕ → ℕ → ℕ → Event
check_event node_id nbr_id whence = record {
  id = 0;
  whence = pos whence;
  node_id = node_id;
  layer = application;
  flag = protocol rappel_periodic_node_check;
  payload = some (node_check_data nbr_id);
}

-- `Neighbor(…)` with `initialize_periodic_checks`; `draw` is the time that the generator draws
-- between an eighth and seven eighths of the heart beat interval.
unfoldable pub new_neighbor :
    (pq : EventQueue)
    → Timer (pq.Queue)
    → ℕ
    → ℕ
    → ℕ
    → Coordinate
    → Role
    → BloomFilter
    → Result (Neighbor × Timer (pq.Queue))
new_neighbor pq t draw node_id nbr_id coord role filter = do
  r ← schedule_event pq t (check_event node_id nbr_id draw)
  ok (
    record {
      node_id = node_id;
      nbr_id = nbr_id;
      filter = filter;
      nc = coord;
      last_heard_from = t.time;
      roles = new_role role t.time ∷ [];
      node_check_event_id = r.0;
    },
    r.1,
  )

-- The loops over `_roles`: is there an entry of the role, which is the first, and the list with
-- that entry changed or gone.
abbrev pub finds : Role → List RoleInfo → Bool
finds role [] = false
finds role (i ∷ is) = eq_role role i.role || finds role is

abbrev pub first_of : Role → List RoleInfo → Option RoleInfo
first_of role [] = none
first_of role (i ∷ is) = if eq_role role i.role then some i else first_of role is

abbrev pub change_first : Role → (RoleInfo → RoleInfo) → List RoleInfo → List RoleInfo
change_first role change [] = []
change_first role change (i ∷ is) =
    if eq_role role i.role then change i ∷ is else i ∷ change_first role change is

abbrev pub erase_role : Role → List RoleInfo → List RoleInfo
erase_role role [] = []
erase_role role (i ∷ is) = if eq_role role i.role then is else i ∷ erase_role role is

abbrev pub is_empty : List RoleInfo → Bool
is_empty [] = true
is_empty (i ∷ is) = false

unfoldable pub plays_role : Neighbor → Role → Result Bool
plays_role n role = do
  assert (not (is_empty n.roles)) no_role
  assert (not (n.node_check_event_id == no_such_event_id)) no_event
  ok (finds role n.roles)

-- What the accessors and the updates of one role begin with.
unfoldable pub entry_of : Neighbor → Role → Result RoleInfo
entry_of n role = do
  assert (not (is_empty n.roles)) no_role
  plays ← plays_role n role
  assert plays unknown_role
  present (first_of role n.roles) unreachable

unfoldable pub get_last_sent_request_in_role : Neighbor → Role → Result ℤ
get_last_sent_request_in_role n role = entry_of n role >>= λ i. ok i.last_sent_request

unfoldable pub get_last_heard_request_in_role : Neighbor → Role → Result ℤ
get_last_heard_request_in_role n role = entry_of n role >>= λ i. ok i.last_heard_request

unfoldable pub get_last_heard_reply_in_role : Neighbor → Role → Result ℤ
get_last_heard_reply_in_role n role = entry_of n role >>= λ i. ok i.last_heard_reply

-- `std::max`.
abbrev pub max_ℤ : ℤ → ℤ → ℤ
max_ℤ a b = if ltb_ℤ a b then b else a

unfoldable pub get_last_heard_in_role : Neighbor → Role → Result ℤ
get_last_heard_in_role n role =
    entry_of n role >>= λ i. ok (max_ℤ i.last_heard_reply i.last_heard_request)

-- `now` is the timer's time.
unfoldable pub update_role : Neighbor → ℤ → Role → (RoleInfo → RoleInfo) → Result Neighbor
update_role n now role change = entry_of n role >>= λ i.
    ok (record n { last_heard_from = now; roles = change_first role change n.roles })

unfoldable pub update_sent_request_in_role : Neighbor → ℤ → Role → Result Neighbor
update_sent_request_in_role n now role =
    update_role n now role λ i. record i { last_sent_request = now }

unfoldable pub update_heard_request_in_role : Neighbor → ℤ → Role → Result Neighbor
update_heard_request_in_role n now role =
    update_role n now role λ i. record i { last_heard_request = now }

unfoldable pub update_heard_reply_in_role : Neighbor → ℤ → Role → Result Neighbor
update_heard_reply_in_role n now role =
    update_role n now role λ i. record i { last_heard_reply = now }

unfoldable pub add_role : Neighbor → ℤ → Role → Result Neighbor
add_role n now role = do
  assert (not (is_empty n.roles)) no_role
  plays ← plays_role n role
  assert (not plays) known_role
  let n' = record n { roles = n.roles ++ new_role role now ∷ [] }
  plays' ← plays_role n' role
  assert plays' unknown_role
  ok n'

module _ (pq : EventQueue) where
  -- Is the peer left without a role, and the peer; its periodic check ends with the last role.
  unfoldable pub remove_role :
      Neighbor → Timer (pq.Queue) → Role → Result (Bool × Neighbor × Timer (pq.Queue))
  remove_role n t role = do
    assert (not (is_empty n.roles)) no_role
    plays ← plays_role n role
    assert plays unknown_role
    let n' = record n { roles = erase_role role n.roles }
    let last = (do
      assert (not (n.node_check_event_id == no_such_event_id)) no_event
      ok (
        true,
        record n' { node_check_event_id = no_such_event_id },
        (cancel_event pq t n.node_check_event_id).1,
      ))
    let more = (do plays' ← plays_role n' role; assert (not plays') known_role; ok (false, n', t))
    if is_empty n'.roles then last else more

unfoldable pub set_bloom_filter : Neighbor → BloomFilter → Bool × Neighbor
set_bloom_filter n filter =
    if ltb n.filter.version filter.version then (true, record n { filter = filter }) else (false, n)

unfoldable pub set_nc : Neighbor → Coordinate → Bool × Neighbor
set_nc n nc = if ltb n.nc.version nc.version then (true, record n { nc = nc }) else (true, n)

abbrev pub get_roles : Neighbor → List Role
get_roles n = map (λ (i : RoleInfo). i.role) n.roles

pub record CandidatePeer : Type 0 where
  pub id : ℕ
  pub nc : Coordinate
  pub last_voted_at : ℤ
  pub num_votes : ℕ
  pub filter : BloomFilter
  pub audited : Bool

-- `CandidatePeer(id, nc)`, with the filter that `BloomFilter()` makes.
abbrev pub new_candidate : ℕ → Coordinate → ℤ → BloomFilter → CandidatePeer
new_candidate id nc now filter = record {
  id = id;
  nc = nc;
  last_voted_at = now;
  num_votes = 1;
  filter = filter;
  audited = false;
}

unfoldable pub candidate_set_nc : CandidatePeer → Coordinate → Bool × CandidatePeer
candidate_set_nc c nc =
    if ltb c.nc.version nc.version then (true, record c { nc = nc }) else (false, c)

unfoldable pub candidate_set_bloom_filter : CandidatePeer → BloomFilter → Bool × CandidatePeer
candidate_set_bloom_filter c filter =
    if ltb c.filter.version filter.version then (true, record c { filter = filter }) else (false, c)

unfoldable pub add_vote : CandidatePeer → ℤ → Result CandidatePeer
add_vote c now = do
  assert (leb_ℤ c.last_voted_at now) time_of_vote
  ok (record c { last_voted_at = now; num_votes = add32 c.num_votes 1 })

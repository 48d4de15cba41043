-- ===== src/Neighbor/Tests.antt =====
-- A peer that is a friend and the parent in one feed.
use rappel.Base.{◌≡◌, refl, List, [], ◌∷◌, none, true, false, arith, ok, Bool, not, ◌&&◌, ◌||◌}
use rappel.Base.Map.{lookup}
use rappel.Base.Int.{ℤ, pos}
use rappel.Events.{no_such_event_id}
use rappel.Messages.{Coordinate}
use rappel.Timer.{Timer}
use rappel.Timer.Queue.{TimeOrderedEvent, list_queue}
use rappel.Timer.Fixture.{loaded}
use rappel.Bloom.{BloomFilter}
use rappel.Neighbor.{
  Neighbor, Role, role_feed_parent, role_feed_child, friend_role, new_role, eq_role, finds,
  is_empty, plays_role, add_role, remove_role, max_ℤ, update_sent_request_in_role,
  update_heard_request_in_role, update_heard_reply_in_role,
}
use rappel.Neighbor.Roles.{Inv, add_role-remove_role, remove_role_lem}
use rappel.Neighbor.Updates.{reads, updates_lem}

abbrev place : Coordinate
place = record { app_coords = []; version = 3 }

abbrev filter : BloomFilter
filter = record { hash_table = 0 ∷ []; table_size = 1; version = 1 }

abbrev parent_role : Role
parent_role = record { role_type = role_feed_parent; feed_id = 3 }

abbrev child_role : Role
child_role = record { role_type = role_feed_child; feed_id = 3 }

-- Its check is event 9.
abbrev peer : Neighbor
peer = record {
  node_id = 1;
  nbr_id = 2;
  filter = filter;
  nc = place;
  last_heard_from = pos 5;
  roles = new_role friend_role (pos 5) ∷ new_role parent_role (pos 6) ∷ [];
  node_check_event_id = 9;
}

peer-Inv : Inv peer
peer-Inv = record { some_role = refl; checked = omega arith; once = (refl, (refl, tt)) }

plays : (plays_role peer friend_role ≡ ok true) × (plays_role peer child_role ≡ ok false)
unfolding plays_role
plays = (refl, refl)

add_role-remove_role_example :
    (n' : Neighbor) × (add_role peer (pos 8) child_role ≡ ok n')
    × ((r : Role) → plays_role n' r ≡ ok (finds r peer.roles || eq_role r child_role))
    × Inv n'
    × (remove_role list_queue n' loaded child_role ≡ ok (false, peer, loaded))
add_role-remove_role_example =
    add_role-remove_role list_queue peer (pos 8) child_role loaded peer-Inv plays.1

remove_role_lem_example :
    (last : Bool) × (n' : Neighbor) × (t' : Timer (List TimeOrderedEvent)) × (remove_role list_queue
        peer loaded friend_role
      ≡ ok (last, n', t'))
    × ((r : Role) → finds r n'.roles ≡ (not (eq_role friend_role r) && finds r peer.roles))
    × (is_empty n'.roles ≡ last)
    × (last ≡ true → (n'.node_check_event_id ≡ no_such_event_id) × (lookup 9 t'.events ≡ none))
    × (last ≡ false → Inv n' × (t' ≡ loaded))
remove_role_lem_example = remove_role_lem list_queue peer loaded friend_role peer-Inv plays.0

updates_lem_example :
    (sent request reply : ℤ) × (n₁ : Neighbor) × (n₂ : Neighbor) × (n₃ : Neighbor) × (reads peer
        friend_role
      ≡ (ok sent, ok request, ok reply, ok (max_ℤ reply request)))
    × (update_sent_request_in_role peer (pos 8) friend_role ≡ ok n₁)
    × (update_heard_request_in_role peer (pos 8) friend_role ≡ ok n₂)
    × (update_heard_reply_in_role peer (pos 8) friend_role ≡ ok n₃)
    × (reads n₁ friend_role ≡ (ok (pos 8), ok request, ok reply, ok (max_ℤ reply request)))
    × (reads n₂ friend_role ≡ (ok sent, ok (pos 8), ok reply, ok (max_ℤ reply (pos 8))))
    × (reads n₃ friend_role ≡ (ok sent, ok request, ok (pos 8), ok (max_ℤ (pos 8) request)))
    × ((r : Role)
        → eq_role friend_role r ≡ false
        → (reads n₁ r ≡ reads peer r) × (reads n₂ r ≡ reads peer r) × (reads n₃ r ≡ reads peer r))
    × Inv n₁
    × Inv n₂
    × Inv n₃
updates_lem_example = updates_lem peer (pos 8) friend_role peer-Inv plays.0

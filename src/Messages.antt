-- ===== src/Messages.antt =====
-- include/data_objects.h: the messages that the modelled operations send, and the coordinates
-- that they carry. A `double` is only moved here, never computed with, and stands as its bits.
use rappel.Base.{ℕ, List, Bool}
use rappel.Base.Int.{ℤ}
use rappel.Base.Map.{Map}
use rappel.Layers.{Layer}
use rappel.Bloom.{BloomFilter}

-- `class Coordinate`, as much of it as is sent: the application's coordinates and the version.
pub record Coordinate : Type 0 where
  pub app_coords : List ℕ
  pub version : ℕ

-- `RappelJoinType`.
pub data JoinType : Type 0 where
  initial_join rejoin_due_to_lost_parent rejoin_due_to_change_parent : JoinType
  periodic_rejoin redirected_periodic_rejoin : JoinType

pub data MessageData : Type 0 where
  -- `FeedUpdateData`
  feed_update :
      (feed_id : ℕ) (publisher_nc : Coordinate) (seq_num : ℕ) (msg : List ℕ)
      (sync_emission_time : ℤ) (pulled : Bool)
      → MessageData
  -- `FeedUpdatePullData`
  feed_update_pull_req : (feed_id seq_num : ℕ) → MessageData
  -- `RemoveFriendData` and `RemoveFanData`
  remove_friend : (candidates : List ℕ) → MessageData
  remove_fan : (candidates : List ℕ) → MessageData
  -- `BloomReqData` and `BloomReplyData`
  bloom_req : (sender_coord : Coordinate) (wait_for_timer : ℕ) (audit_friend : Bool) → MessageData
  bloom_reply :
      (sender_coord : Coordinate) (wait_for_timer : ℕ) (bloom_filter : BloomFilter)
      (audit_friend : Bool)
      → MessageData
  -- `AddFriendReqData` and `AddFriendReplyData`
  add_friend_req :
      (sender_coord : Coordinate) (wait_for_timer : ℕ) (candidates : List ℕ)
      (node_to_be_pruned bloom_filter_version : ℕ) (next_targets : List ℕ)
      → MessageData
  add_friend_reply :
      (sender_coord : Coordinate) (wait_for_timer : ℕ) (candidates : List ℕ) (node_to_be_pruned : ℕ)
      (next_targets : List ℕ) (ok_to_add filter_has_changed : Bool)
      → MessageData
  -- `JoinReqData`
  join_req :
      (sender_coord : Coordinate) (wait_for_timer : ℕ) (candidates : List ℕ) (feed_id : ℕ)
      (request_type : JoinType) (attempted : Map ℕ) (failed : List ℕ)
      → MessageData

pub record Message : Type 0 where
  pub src : ℕ
  pub dst : ℕ
  pub layer : Layer
  pub content : MessageData

-- The messages handed to `Transport::send`, in order.
abbrev pub Outbox : Type 0
Outbox = List Message

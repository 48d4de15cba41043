-- ===== src/Events.antt =====
-- include/data_objects.h: the event flags, the events and the node ids of the
-- simulator, and include/rappel_common.h: the units of `Clock`.
use rappel.Base.{ℕ, ◌*◌, Bool, true, false, not, ◌&&◌, ◌==◌, List, Option, none, some}
use rappel.Base.Int.{ℤ, pos}
use rappel.Base.Map.{Map}
use rappel.Messages.{Message, JoinType}
pub use rappel.Layers.{
  Layer, none_layer, transport, application, control, driver, layer_key, layer_of_key,
}

-- `Clock` values, in microseconds.
abbrev pub second : ℕ
second = 1000 * 1000

abbrev pub minute : ℕ
minute = 60 * second

abbrev pub day : ℕ
day = 24 * 60 * minute

-- `node_id_t` of the simulator is its address; `feed_id_t` is `node_id_t`.
abbrev pub no_such_node : ℕ
no_such_node = 1112223334

abbrev pub no_such_event_id : ℕ
no_such_event_id = 8

-- The flags of the protocols, from `EVT_GLOBAL_BARRIER` on. The timer does not tell them apart.
pub data ProtocolEvent : Type 0 where
  global_barrier : ProtocolEvent
  transport_recv transport_delay_send : ProtocolEvent
  vivaldi_start vivaldi_nc_bootstrap_period_expired : ProtocolEvent
  vivaldi_periodic_ping vivaldi_wait_after_ping_req : ProtocolEvent
  vivaldi_periodic_sync vivaldi_wait_after_sync_req vivaldi_end : ProtocolEvent
  rappel_start rappel_periodic_garbage_collect : ProtocolEvent
  rappel_periodic_audit rappel_wait_after_bloom_req : ProtocolEvent
  rappel_wait_after_add_friend_req : ProtocolEvent
  rappel_periodic_node_check rappel_wait_after_ping_req : ProtocolEvent
  rappel_next_feed_join rappel_periodic_feed_rejoin : ProtocolEvent
  rappel_wait_after_feed_join_req : ProtocolEvent
  rappel_periodic_feed_rtt_req rappel_wait_after_feed_update_pull_req : ProtocolEvent
  rappel_end driver_debug_misc driver_load_action_cmds driver_add_node : ProtocolEvent
  driver_bring_node_online driver_take_node_offline : ProtocolEvent
  driver_add_feed driver_remove_feed driver_publish : ProtocolEvent

pub data EventFlag : Type 0 where
  none_flag init_flag debug stats final : EventFlag
  protocol : ProtocolEvent → EventFlag

-- `StatsEventData`, `TransportEventData`, the data of the feed's events, and that of any other protocol event by
-- a number.
pub data EventData : Type 0 where
  stats_data : (seq_num start_sync_time : ℕ) → EventData
  rejoin_data : (feed_id : ℕ) → EventData
  update_pull_data : (feed_id seq_num neighbor : ℕ) → EventData
  node_check_data : (neighbor : ℕ) → EventData
  bloom_wait_data : (neighbor : ℕ) (audit_friend : Bool) → EventData
  add_friend_wait_data : (neighbor : ℕ) (next_targets : List ℕ) → EventData
  join_wait_data :
      (feed_id : ℕ) (request_type : JoinType) (neighbor : ℕ) (attempted : Map ℕ) (failed : List ℕ)
      → EventData
  transport_data : (msg : Message) → EventData
  other_data : ℕ → EventData

-- `class Event`; `data` is a pointer that may be null.
pub record Event : Type 0 where
  pub id : ℕ
  pub whence : ℤ
  pub node_id : ℕ
  pub layer : Layer
  pub flag : EventFlag
  pub payload : Option EventData

abbrev is_none_layer : Layer → Bool
is_none_layer none_layer = true
is_none_layer _ = false

abbrev is_none_flag : EventFlag → Bool
is_none_flag none_flag = true
is_none_flag _ = false

abbrev is_null : Option EventData → Bool
is_null none = true
is_null (some _) = false

abbrev pub is_initialized : Event → Bool
is_initialized e =
    not (e.node_id == no_such_node)
    && not (is_none_layer e.layer)
    && not (is_none_flag e.flag)
    && not (is_null e.payload)

-- `Event()`. The constructor leaves `id` and `whence` uninitialised; zeros stand for them.
abbrev pub new_event : Event
new_event = record {
  id = 0;
  whence = pos 0;
  node_id = no_such_node;
  layer = none_layer;
  flag = none_flag;
  payload = none;
}

-- ===== src/Transport.antt =====
-- src/transport.cpp and include/transport.h as the simulator compiles them: a message becomes an
-- event of the transport at its destination, after the delay that the topology gives, and the
-- callback of its layer is called when the event comes. `as_delay` and the two draws are the
-- arguments of the topology; the sockets of the network build are left out.
pub mod Delivery
mod Tests
use rappel.Base.{
  ℕ, Bool, true, false, not, ◌&&◌, List, Option, none, some, ltb, ◌==◌, if◌then◌else◌, Result, ok,
  failed, ◌>>=◌, ◌>>◌, assert, present, bad_layer, to_itself, no_delay, no_node, already_registered,
  not_registered, bad_data, unknown_event_flag,
}
use rappel.Base.Map.{Map, lookup, insert, has}
use rappel.Base.Int.{pos, pos_part}
use rappel.Events.{
  Event, EventData, transport_data, Layer, none_layer, transport, layer_key, EventFlag, stats,
  final, protocol, ProtocolEvent, transport_recv, transport_delay_send, no_such_node,
}
use rappel.Messages.{Message}
use rappel.Timer.{Timer, schedule_event}
use rappel.Timer.Queue.{EventQueue}
use rappel.Topology.{Topology, network_delay}

-- What the transport acts on: its callbacks, the timer and the topology, which are singletons.
pub record Network (Queue : Type 0) : Type 0 where
  pub callbacks : Map ℕ
  pub timer : Timer Queue
  pub topology : Topology

-- `layer > LYR_TRANSPORT`.
abbrev pub is_above_transport : Layer → Bool
is_above_transport l = ltb (layer_key transport) (layer_key l)

unfoldable pub register_callback :
    {Queue : Type 0} → Network Queue → Layer → ℕ → Result (Network Queue)
register_callback n layer callback = do
  assert (is_above_transport layer) bad_layer
  assert (not (has (layer_key layer) n.callbacks)) already_registered
  ok (record n { callbacks = insert (layer_key layer) callback n.callbacks })

-- The assertions of `send` and `send_with_delay`, those of `Message::is_initialized` among them. A
-- message of the model always has a flag and data, those of its contents.
unfoldable pub check_message : Message → Result (Unit {0})
check_message msg = do
  assert (is_above_transport msg.layer) bad_layer
  assert (not (msg.src == no_such_node)) no_node
  assert (not (msg.dst == no_such_node)) no_node
  assert (not (msg.src == msg.dst)) to_itself

-- The event of the transport that carries a message.
abbrev pub carrier : Message → ProtocolEvent → ℕ → ℕ → Event
carrier msg flag node_id delay = record {
  id = 0;
  whence = pos delay;
  node_id = node_id;
  layer = transport;
  flag = protocol flag;
  payload = some (transport_data msg);
}

module _ (pq : EventQueue) where
  unfoldable pub send_with_delay : Network (pq.Queue) → Message → ℕ → Result (Network (pq.Queue))
  send_with_delay n msg delay = do
    check_message msg
    r ← schedule_event pq n.timer (carrier msg transport_delay_send msg.src delay)
    ok (record n { timer = r.1 })

  -- `send` in the simulator; the time of the simulation is not negative.
  unfoldable pub send :
      (ℕ → ℕ → ℕ) → Network (pq.Queue) → Message → ℕ → ℕ → Result (Network (pq.Queue))
  send as_delay n msg draw_link draw_msmnt = do
    check_message msg
    route ←
        network_delay as_delay n.topology (pos_part n.timer.time) msg.src msg.dst draw_link
          draw_msmnt
    assert (ltb 0 route.0) no_delay
    r ← schedule_event pq n.timer (carrier msg transport_recv msg.dst route.0)
    ok (record n { timer = r.1; topology = route.1 })

  -- `deliver` is the code behind the callbacks, on the state `App` of the layers above.
  module _ (as_delay : ℕ → ℕ → ℕ) {App : Type 0}
      (deliver : ℕ → Message → App → Network (pq.Queue) → Result (App × Network (pq.Queue)))
      (draw_link draw_msmnt : ℕ) where
    unfoldable pub receive : Message → App → Network (pq.Queue) → Result (App × Network (pq.Queue))
    receive msg a n = do
      callback ← present (lookup (layer_key msg.layer) n.callbacks) not_registered
      deliver callback msg a n

    unfoldable pub resend : Message → App → Network (pq.Queue) → Result (App × Network (pq.Queue))
    resend msg a n = do n' ← send as_delay n msg draw_link draw_msmnt; ok (a, n')

    -- The cases of `switch (event.flag)`, with the data of the event.
    unfoldable pub on_flag :
        EventFlag → Option EventData → App → Network (pq.Queue) → Result (App × Network (pq.Queue))
    unfolding receive resend
    on_flag stats payload a n = ok (a, n)
    on_flag final payload a n = ok (a, n)
    on_flag (protocol transport_delay_send) (some (transport_data msg)) a n = resend msg a n
    on_flag (protocol transport_delay_send) payload a n = failed bad_data
    on_flag (protocol transport_recv) (some (transport_data msg)) a n = receive msg a n
    on_flag (protocol transport_recv) payload a n = failed bad_data
    on_flag flag payload a n = failed unknown_event_flag

    unfoldable pub transport_event_callback :
        Event → App → Network (pq.Queue) → Result (App × Network (pq.Queue))
    unfolding on_flag
    transport_event_callback e a n = do
      assert (layer_key e.layer == layer_key transport) bad_layer
      on_flag e.flag e.payload a n

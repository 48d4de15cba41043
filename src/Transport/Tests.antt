-- ===== src/Transport/Tests.antt =====
-- Two nodes that have one message to send.
use rappel.Base.{
  ℕ, ◌+◌, ◌≡◌, refl, List, [], ◌∷◌, ok, failed, arith, Result, ◌>>=◌, bad_layer, to_itself,
}
use rappel.Base.Map.{lookup, insert, has}
use rappel.Base.Int.{pos, ◌+ℤ◌}
use rappel.Events.{Event, transport, application, transport_recv, transport_delay_send}
use rappel.Messages.{Message, feed_update_pull_req}
use rappel.Timer.{Timer}
use rappel.Timer.Queue.{TimeOrderedEvent, list_queue}
use rappel.Timer.Inv as TimerInv
use rappel.Timer.Fixture.{idle, idle-Inv}
use rappel.Topology.{
  Topology, TopologyNode, network_delay, network_delay_native, trace_delay, in_order,
}
use rappel.Transport.{
  Network, register_callback, check_message, send, send_with_delay, transport_event_callback,
}
use rappel.Transport.Delivery.{Carried, send_delivers, send_with_delay-send}

abbrev node : TopologyNode
node = record { isp_network = 0; isp_delay = 100 }

abbrev ten_ms : ℕ → ℕ → ℕ
ten_ms a b = 10000

abbrev topology : Topology
topology = record {
  nodes = (1, node) ∷ (2, node) ∷ [];
  delays = (10, (50 ∷ 3 ∷ []) ∷ []) ∷ [];
  next_delay = (10, 10) ∷ [];
  highest_delay = 10;
  link_info = [];
}

abbrev sent_one : Topology
sent_one = record topology {
  link_info = (4294967298, record { trace_link = 0; last_arrival = 50 }) ∷ [];
}

-- A timer that the transport has registered with.
abbrev ready : Timer (List TimeOrderedEvent)
ready = record idle { callbacks = (1, 0) ∷ [] }

ready-Inv : TimerInv.Inv list_queue 10 ready
ready-Inv = record {
  fresh = idle-Inv.fresh;
  order = idle-Inv.order;
  agree = idle-Inv.agree;
  listed = idle-Inv.listed;
  on_time = idle-Inv.on_time;
  offset = refl;
  started = omega arith;
}

abbrev network : Network (List TimeOrderedEvent)
network = record { callbacks = (2, 7) ∷ []; timer = ready; topology = topology }

abbrev request : Message
request = record { src = 1; dst = 2; layer = application; content = feed_update_pull_req 5 6 }

-- A layer that counts what it is handed.
abbrev count :
    ℕ → Message → ℕ → Network (List TimeOrderedEvent) → Result (ℕ × Network (List TimeOrderedEvent))
count callback msg a n = ok (a + callback, n)

transport_is_not_a_user : register_callback network transport 3 ≡ failed bad_layer
unfolding register_callback
transport_is_not_a_user = refl

to_itself_fails : check_message (record request { dst = 1 }) ≡ failed to_itself
unfolding check_message
to_itself_fails = refl

route : network_delay ten_ms topology 0 1 2 0 0 ≡ ok (50, sent_one)
unfolding network_delay network_delay_native trace_delay in_order lookup insert
route = refl

send_delivers_example :
    (e : Event) × (n' : Network (List TimeOrderedEvent)) × (send list_queue ten_ms network request 0
        0
      ≡ ok n')
    × (n'.topology ≡ sent_one)
    × (n'.callbacks ≡ network.callbacks)
    × Carried list_queue 10 network request transport_recv 2 (pos 0 +ℤ pos 50) n' e
    × (transport_event_callback list_queue ten_ms count 0 0 e 4 network ≡ ok (11, network))
send_delivers_example =
    send_delivers list_queue 10 network request ten_ms count 0 0 50 sent_one network 4 7 ready-Inv
      (unfold has lookup in refl) (omega arith) (unfold check_message in refl) route (omega arith)
      (omega arith) (unfold lookup in refl)

send_with_delay_example :
    (e : Event) × (n' : Network (List TimeOrderedEvent)) × (send_with_delay list_queue network
        request 30
      ≡ ok n')
    × (n'.topology ≡ topology)
    × (n'.callbacks ≡ network.callbacks)
    × Carried list_queue 10 network request transport_delay_send 1 (pos 0 +ℤ pos 30) n' e
    × (transport_event_callback list_queue ten_ms count 0 0 e 4 network
        ≡ (send list_queue ten_ms network request 0 0 >>= λ m'. ok (4, m')))
send_with_delay_example =
    send_with_delay-send list_queue 10 network request ten_ms count 0 0 30 network 4 ready-Inv
      (unfold has lookup in refl) (omega arith) (unfold check_message in refl) (omega arith)

-- ===== src/Transport/Delivery.antt =====
-- src/transport.cpp: a message that is sent is delivered, once its event comes.
use rappel.Base.{
  ℕ, ◌+◌, ◌^◌, ◌<◌, ◌≡◌, ◌≢◌, refl, true, some, none, arith, lt→ltb, ok, ◌>>=◌, Result,
}
use rappel.Base.Map.{lookup, has}
use rappel.Base.Int.{ℤ, pos, ◌+ℤ◌, pos_part}
use rappel.Events.{
  Event, transport, layer_key, is_initialized, ProtocolEvent, transport_recv, transport_delay_send,
  no_such_node, no_such_event_id,
}
use rappel.Messages.{Message}
use rappel.Timer.{Timer, in_range, schedule_event}
use rappel.Timer.Queue.{EventQueue}
use rappel.Timer.Inv as TimerInv
use rappel.Timer.Calls.{schedule_event_accepts}
use rappel.Topology.{Topology, network_delay}
use rappel.Transport.{
  Network, check_message, carrier, send, send_with_delay, receive, resend, transport_event_callback,
}

proper_dst : (msg : Message) → check_message msg ≡ ok tt → msg.dst ≢ no_such_node
unfolding check_message
proper_dst msg proper = ground (arith, proper)

proper_src : (msg : Message) → check_message msg ≡ ok tt → msg.src ≢ no_such_node
unfolding check_message
proper_src msg proper = ground (arith, proper)

module _ (pq : EventQueue) (interval : ℕ) (n : Network (pq.Queue)) (msg : Message) where
  -- One event more is pending in `n'` than in `n`: it carries the message, and is due at `at`.
  abbrev pub Carried : ProtocolEvent → ℕ → ℤ → Network (pq.Queue) → Event → Type 0
  Carried flag node_id at n' e =
      (e ≡ record (carrier msg flag node_id 0) { id = e.id; whence = at })
      × (e.id ≢ no_such_event_id)
      × (lookup e.id n.timer.events ≡ none)
      × (lookup e.id n'.timer.events ≡ some e)
      × pq.Has n'.timer.queue (record { id = e.id; whence = at })
      × ((j : ℕ) → j ≢ e.id → lookup j n'.timer.events ≡ lookup j n.timer.events)

  scheduled :
      (flag : ProtocolEvent) (node_id delay : ℕ)
      → TimerInv.Inv pq interval n.timer
      → has (layer_key transport) n.timer.callbacks ≡ true
      → node_id ≢ no_such_node
      → delay < 2 ^ 32
      → n.timer.current_event_id + 1 < 2 ^ 32
      → (id : ℕ) × (t' : Timer (pq.Queue)) × (schedule_event pq n.timer
            (carrier msg flag node_id delay)
          ≡ ok (id, t'))
        × Carried flag node_id
            (n.timer.time +ℤ pos delay)
            (record n { timer = t' })
            (record (carrier msg flag node_id 0) { id = id; whence = n.timer.time +ℤ pos delay })
  scheduled flag node_id delay v registered real short room =
      let named : is_initialized (carrier msg flag node_id delay) ≡ true = ground arith in
      let soon : in_range (pos delay) ≡ true = ground arith in
      let (id, t', e, ne, fresh, there, queued, others) =
        schedule_event_accepts v (carrier msg flag node_id delay) registered named soon room in
      (id, t', e, (refl, ne, fresh, there, queued, others))

  module _ (as_delay : ℕ → ℕ → ℕ) {App : Type 0}
      (deliver : ℕ → Message → App → Network (pq.Queue) → Result (App × Network (pq.Queue)))
      (draw_link draw_msmnt : ℕ) where
    receives :
        (e : Event) (at : ℤ) (m : Network (pq.Queue)) (a : App) (callback : ℕ)
        → e ≡ record (carrier msg transport_recv msg.dst 0) { id = e.id; whence = at }
        → lookup (layer_key msg.layer) m.callbacks ≡ some callback
        → transport_event_callback pq as_delay deliver draw_link draw_msmnt e a m
          ≡ deliver callback msg a m
    unfolding transport_event_callback receive
    receives e at m a callback is found = rw is (rw found refl)

    resends :
        (e : Event) (at : ℤ) (m : Network (pq.Queue)) (a : App)
        → e ≡ record (carrier msg transport_delay_send msg.src 0) { id = e.id; whence = at }
        → transport_event_callback pq as_delay deliver draw_link draw_msmnt e a m
          ≡ (send pq as_delay m msg draw_link draw_msmnt >>= λ m'. ok (a, m'))
    unfolding transport_event_callback resend
    resends e at m a is = rw is refl

    -- A proper message, between nodes that have a delay: `send` fails no assertion and leaves the
    -- callbacks alone. One event more is pending, due when the delay has passed. Whatever has
    -- happened until it comes, if the layer of the message has a callback then, the transport calls
    -- it with this message, and does nothing else.
    pub send_delivers :
        (delay : ℕ) (topology' : Topology) (m : Network (pq.Queue)) (a : App) (callback : ℕ)
        → TimerInv.Inv pq interval n.timer
        → has (layer_key transport) n.timer.callbacks ≡ true
        → n.timer.current_event_id + 1 < 2 ^ 32
        → check_message msg ≡ ok tt
        → network_delay as_delay n.topology
            (pos_part n.timer.time)
            msg.src
            msg.dst
            draw_link
            draw_msmnt
          ≡ ok (delay, topology')
        → 0 < delay
        → delay < 2 ^ 32
        → lookup (layer_key msg.layer) m.callbacks ≡ some callback
        → (e : Event) × (n' : Network (pq.Queue)) × (send pq as_delay n msg draw_link draw_msmnt
            ≡ ok n')
          × (n'.topology ≡ topology')
          × (n'.callbacks ≡ n.callbacks)
          × Carried transport_recv msg.dst (n.timer.time +ℤ pos delay) n' e
          × (transport_event_callback pq as_delay deliver draw_link draw_msmnt e a m
              ≡ deliver callback msg a m)
    unfolding send
    send_delivers delay topology' m a callback v registered room proper route some_delay short
          found =
        let real : msg.dst ≢ no_such_node = proper_dst msg proper in
        let (id, t', s, carried) =
          scheduled transport_recv msg.dst delay v registered real short room in
        let e : Event = record (carrier msg transport_recv msg.dst 0) {
          id = id;
          whence = n.timer.time +ℤ pos delay;
        } in
        rw (proper, route, lt→ltb 0 delay some_delay, s)
          (
            e,
            record n { timer = t'; topology = topology' },
            refl,
            refl,
            refl,
            carried,
            receives e (n.timer.time +ℤ pos delay) m a callback refl found,
          )

    -- A proper message that is sent with a delay below 2 ^ 32: one event more is pending, due when
    -- the delay has passed. When it comes, the transport sends the message, as `send` does then,
    -- and does nothing else.
    pub send_with_delay-send :
        (delay : ℕ) (m : Network (pq.Queue)) (a : App)
        → TimerInv.Inv pq interval n.timer
        → has (layer_key transport) n.timer.callbacks ≡ true
        → n.timer.current_event_id + 1 < 2 ^ 32
        → check_message msg ≡ ok tt
        → delay < 2 ^ 32
        → (e : Event) × (n' : Network (pq.Queue)) × (send_with_delay pq n msg delay ≡ ok n')
          × (n'.topology ≡ n.topology)
          × (n'.callbacks ≡ n.callbacks)
          × Carried transport_delay_send msg.src (n.timer.time +ℤ pos delay) n' e
          × (transport_event_callback pq as_delay deliver draw_link draw_msmnt e a m
              ≡ (send pq as_delay m msg draw_link draw_msmnt >>= λ m'. ok (a, m')))
    unfolding send_with_delay
    send_with_delay-send delay m a v registered room proper short =
        let real : msg.src ≢ no_such_node = proper_src msg proper in
        let (id, t', s, carried) =
          scheduled transport_delay_send msg.src delay v registered real short room in
        let e : Event = record (carrier msg transport_delay_send msg.src 0) {
          id = id;
          whence = n.timer.time +ℤ pos delay;
        } in
        rw (proper, s)
          (
            e,
            record n { timer = t' },
            refl,
            refl,
            refl,
            carried,
            resends e (n.timer.time +ℤ pos delay) m a refl,
          )

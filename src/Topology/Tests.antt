-- ===== src/Topology/Tests.antt =====
-- Two messages of one link: the second, by its trace, would overtake the first.
use rappel.Base.{ℕ, refl, [], ◌∷◌, arith}
use rappel.Base.Map.{lookup, insert}
use rappel.Topology.{
  Topology, TopologyNode, network_delay, network_delay_native, trace_delay, in_order,
}
use rappel.Topology.Arrivals.{Arrivals, at_first, passed, sent, Ordered}
use rappel.Topology.Fifo.{Arrivals-Ordered}

abbrev node : TopologyNode
node = record { isp_network = 0; isp_delay = 100 }

abbrev ten_ms : ℕ → ℕ → ℕ
ten_ms a b = 10000

abbrev topology : Topology
topology = record {
  nodes = (1, node) ∷ (2, node) ∷ [];
  delays = (10, (50 ∷ 3 ∷ []) ∷ []) ∷ [];
  next_delay = (10, 10) ∷ [];
  highest_delay = 10;
  link_info = [];
}

abbrev after_one : Topology
after_one = record topology {
  link_info = (4294967298, record { trace_link = 0; last_arrival = 150 }) ∷ [];
}

abbrev after_two : Topology
after_two = record topology {
  link_info = (4294967298, record { trace_link = 0; last_arrival = 151 }) ∷ [];
}

two_messages : Arrivals ten_ms 1 2 after_two 110 (152 ∷ 150 ∷ [])
unfolding network_delay network_delay_native trace_delay in_order lookup insert
two_messages =
    sent after_one after_two 110 42 0 1 (150 ∷ [])
      (passed after_one 100 110 (150 ∷ [])
        (sent topology after_one 100 50 0 0 [] (at_first topology 100) (omega arith) refl)
        (omega arith))
      (omega arith) refl

Arrivals-Ordered_example : Ordered (152 ∷ 150 ∷ [])
Arrivals-Ordered_example = Arrivals-Ordered ten_ms 1 2 after_two 110 (152 ∷ 150 ∷ []) two_messages

-- ===== src/Topology.antt =====
-- src/topology.cpp and include/topology.h: the delay of a message between two nodes, from traces,
-- and the last arrival on each link. In the simulator a node is its address. The
-- delay between two networks is an argument, as are the draws of the random numbers; the time of
-- the simulation is not negative.
pub mod Arrivals
pub mod Fifo
mod Tests
use rappel.Base.{
  ℕ, zero, suc, ◌+◌, ◌-◌, ◌*◌, ◌/◌, ◌%◌, ◌^◌, Bool, true, false, List, [], ◌∷◌, Option, none, some,
  length, get_elem?, ltb, leb, if◌then◌else◌, Result, ok, failed, ◌>>=◌, ◌>>◌, assert, present,
  unknown_peer, out_of_range,
}
use rappel.Base.Map.{Map, lookup, insert, erase}
use rappel.Base.Word.{add32}
use rappel.Events.{minute}

pub record TopologyNode : Type 0 where
  pub isp_network : ℕ
  pub isp_delay : ℕ

-- The trace link given to a link, and the last arrival on it.
pub record LinkInfo : Type 0 where
  pub trace_link : ℕ
  pub last_arrival : ℕ

-- A pair of 32-bit addresses is one number, in the order of the pairs.
abbrev pub link_of : ℕ → ℕ → ℕ
link_of src dst = src * 2 ^ 32 + dst

pub record Topology : Type 0 where
  pub nodes : Map TopologyNode
  pub delays : Map (List (List ℕ))
  pub next_delay : Map ℕ
  pub highest_delay : ℕ
  pub link_info : Map LinkInfo

abbrev pub cleanup_buffer : ℕ
cleanup_buffer = 30 * minute

-- The delay that the traces are kept under.
unfoldable pub trace_delay : Topology → ℕ → Result ℕ
trace_delay t delay_in_ms = elim (lookup delay_in_ms t.next_delay) [
  | some next ↦ ok next
  | none ↦ assert (ltb t.highest_delay delay_in_ms) out_of_range >> ok t.highest_delay
]

-- A link that has no trace link gets the one drawn.
abbrev pub info_of : Topology → ℕ → ℕ → ℕ → LinkInfo
info_of t now link draw_link = elim (lookup link t.link_info) [
  | some info ↦ info
  | none ↦ record { trace_link = draw_link; last_arrival = now }
]

-- The delay that keeps the order, as an `unsigned int`, and the arrival that is remembered.
unfoldable pub in_order : ℕ → ℕ → ℕ → ℕ × ℕ
in_order now delay last_arrival =
    if leb (now + delay) last_arrival
    then ((last_arrival + 1 - now + 1) % 2 ^ 32, last_arrival + 1)
    else (delay, now + delay)

unfoldable pub network_delay_native : (ℕ → ℕ → ℕ) → TopologyNode → TopologyNode → ℕ
network_delay_native as_delay src dst =
    add32 (add32 (as_delay src.isp_network dst.isp_network) src.isp_delay) dst.isp_delay

unfoldable pub network_delay : (ℕ → ℕ → ℕ) → Topology → ℕ → ℕ → ℕ → ℕ → ℕ → Result (ℕ × Topology)
network_delay as_delay t now src dst draw_link draw_msmnt = do
  src_node ← present (lookup src t.nodes) unknown_peer
  dst_node ← present (lookup dst t.nodes) unknown_peer
  next ← trace_delay t (network_delay_native as_delay src_node dst_node / 1000)
  links ← present (lookup next t.delays) out_of_range
  let info = info_of t now (link_of src dst) draw_link
  msmnts ← present (get_elem? links info.trace_link) out_of_range
  delay ← present (get_elem? msmnts draw_msmnt) out_of_range
  let r = in_order now delay info.last_arrival
  ok (
    r.0,
    record t {
      link_info = insert (link_of src dst) (record info { last_arrival = r.1 }) t.link_info;
    },
  )

-- One link of the loop of `cleanup`: the number erased so far, and the links that are left.
unfoldable pub cleanup_link : ℕ → ℕ → ℕ × Map LinkInfo → ℕ × Map LinkInfo
cleanup_link now link (erased, links) = elim (lookup link links) [
  | none ↦ (erased, links)
  | some info ↦
      if ltb (info.last_arrival + cleanup_buffer) now
      then (erased + 1, erase link links)
      else (erased, links)
]

unfoldable pub cleanup_loop : ℕ → Map LinkInfo → ℕ × Map LinkInfo → ℕ × Map LinkInfo
cleanup_loop now [] r = r
cleanup_loop now ((link, info) ∷ rest) r = cleanup_loop now rest (cleanup_link now link r)

unfoldable pub cleanup : Topology → ℕ → ℕ × Topology
cleanup t now =
    let r = cleanup_loop now t.link_info (0, t.link_info) in (r.0, record t { link_info = r.1 })

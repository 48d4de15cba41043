-- ===== src/Topology/Fifo.antt =====
-- src/topology.cpp: the order in which the messages of a link arrive.
use rappel.Base.{ℕ, ◌≡◌, refl, ◌∙◌, inl, inr, false, List, arith, ◌==◌, ==_refl}
use rappel.Topology.{Topology, link_of, in_order, cleanup}
use rappel.Topology.Arrivals.{
  last_of, Arrivals, at_first, passed, sent, sent_elsewhere, cleaned, Ordered, network_delay-Sent,
  cleanup_loop_lem, Inv, All-weaken, last_of-later, in_order_lem,
}

module _ (as_delay : ℕ → ℕ → ℕ) (src dst : ℕ) where
  Arrivals-Inv :
      (t : Topology) (now : ℕ) (l : List ℕ)
      → Arrivals as_delay src dst t now l
      → Inv t now (link_of src dst) l
  unfolding cleanup
  Arrivals-Inv _ _ _ (at_first t now) = record { before = tt; ordered = tt }
  Arrivals-Inv _ _ _ (passed t now later l s h) =
      let v = Arrivals-Inv t now l s in
      record {
        before =
            All-weaken _ _ l
              (omega (arith, last_of-later t.link_info now later (link_of src dst) h)) v.before;
        ordered = v.ordered;
      }
  Arrivals-Inv _ _ _ (sent t t' now delay draw_link draw_msmnt l s near e) =
      let v = Arrivals-Inv t now l s in
      let c = network_delay-Sent as_delay t t' now src dst draw_link draw_msmnt delay e in
      let o = in_order_lem now c.d (last_of t.link_info now (link_of src dst)) near in
      let new : last_of t'.link_info now (link_of src dst)
          ≡ (in_order now c.d (last_of t.link_info now (link_of src dst))).1 =
        c.links (link_of src dst) ∙ rw (==_refl (link_of src dst)) refl in
      record {
        before =
            (omega (arith, o, new, c.is), All-weaken _ _ l (omega (arith, o, new, c.is)) v.before);
        ordered = (All-weaken _ _ l (omega (arith, o, c.is)) v.before, v.ordered);
      }
  Arrivals-Inv _ _ _ (sent_elsewhere t t' now delay a b draw_link draw_msmnt l s other e) =
      let v = Arrivals-Inv t now l s in
      let c = network_delay-Sent as_delay t t' now a b draw_link draw_msmnt delay e in
      let ne : (link_of a b == link_of src dst) ≡ false = ground arith in
      let same = c.links (link_of src dst) ∙ rw ne refl in
      record { before = rw same v.before; ordered = v.ordered }
  Arrivals-Inv _ _ _ (cleaned t now l s) =
      let v = Arrivals-Inv t now l s in
      record {
        before = elim (cleanup_loop_lem now t.link_info (0, t.link_info) (link_of src dst)) [
          | inl e ↦ All-weaken _ _ l (omega (arith, e)) v.before
          | inr gone ↦ All-weaken _ _ l (omega (arith, gone)) v.before
        ];
        ordered = v.ordered;
      }

-- Whatever messages a link carries, at times that do not go back, among messages of other links
-- and cleanings, none arrives before one that was sent earlier.
pub Arrivals-Ordered :
    (as_delay : ℕ → ℕ → ℕ) (src dst : ℕ) (t : Topology) (now : ℕ) (l : List ℕ)
    → Arrivals as_delay src dst t now l
    → Ordered l
Arrivals-Ordered as_delay src dst t now l s = (Arrivals-Inv as_delay src dst t now l s).ordered

-- ===== src/Topology/Arrivals.antt =====
-- src/topology.cpp: runs of the messages of a link, and what one message or one cleaning changes.
use rappel.Base.{
  ℕ, ◌+◌, ◌^◌, ◌≤◌, ◌<◌, ◌≡◌, ◌≢◌, refl, ap, ◌∙◌, ◌⊎◌, inl, inr, List, [], ◌∷◌, All, none, some,
  arith, ltb, ◌==◌, if◌then◌else◌, Bool-cases, Option-cases, Result, ok, present_cases, bind_cases,
  unknown_peer, out_of_range, get_elem?, ◌/◌,
}
use rappel.Base.Map.{Map, lookup, insert, erase, lookup-insert, lookup-erase}
use rappel.Topology.{
  Topology, LinkInfo, link_of, info_of, in_order, network_delay, trace_delay, network_delay_native,
  cleanup, cleanup_loop, cleanup_link, cleanup_buffer,
}

-- The last arrival remembered for a link, or the time where there is none.
abbrev pub last_of : Map LinkInfo → ℕ → ℕ → ℕ
last_of links now link = elim (lookup link links) [ none ↦ now | some info ↦ info.last_arrival ]

-- The messages of one link, from its first: the times at which they arrive, the latest sent
-- first. Between them messages of other links are sent, links are cleaned up, and time passes.
-- No message is sent while the last arrival lies more than `2 ^ 31` ahead.
pub data Arrivals (as_delay : ℕ → ℕ → ℕ) (src dst : ℕ) : Topology → ℕ → List ℕ → Type 0 where
  at_first : (t : Topology) (now : ℕ) → Arrivals as_delay src dst t now []
  passed :
      (t : Topology) (now later : ℕ) (l : List ℕ)
      → Arrivals as_delay src dst t now l
      → now ≤ later
      → Arrivals as_delay src dst t later l
  sent :
      (t t' : Topology) (now delay draw_link draw_msmnt : ℕ) (l : List ℕ)
      → Arrivals as_delay src dst t now l
      → last_of t.link_info now (link_of src dst) ≤ now + 2 ^ 31
      → network_delay as_delay t now src dst draw_link draw_msmnt ≡ ok (delay, t')
      → Arrivals as_delay src dst t' now ((now + delay) ∷ l)
  sent_elsewhere :
      (t t' : Topology) (now delay a b draw_link draw_msmnt : ℕ) (l : List ℕ)
      → Arrivals as_delay src dst t now l
      → link_of a b ≢ link_of src dst
      → network_delay as_delay t now a b draw_link draw_msmnt ≡ ok (delay, t')
      → Arrivals as_delay src dst t' now l
  cleaned :
      (t : Topology) (now : ℕ) (l : List ℕ)
      → Arrivals as_delay src dst t now l
      → Arrivals as_delay src dst (cleanup t now).1 now l

-- Each time is no earlier than those after it in the list.
abbrev pub Ordered : List ℕ → Type 0
Ordered [] = Unit
Ordered (a ∷ l) = All (λ b. b ≤ a) l × Ordered l

info_of_lem :
    (t : Topology) (now link draw_link : ℕ)
    → (info_of t now link draw_link).last_arrival ≡ last_of t.link_info now link
info_of_lem t now link draw_link = ground arith

last_of-insert :
    (links : Map LinkInfo) (now link k : ℕ) (info : LinkInfo)
    → last_of (insert link info links) now k
      ≡ (if link == k then info.last_arrival else last_of links now k)
last_of-insert links now link k info = ground (arith, lookup-insert link k info links)

last_of-erase :
    (links : Map LinkInfo) (now link k : ℕ)
    → last_of (erase link links) now k ≡ (if link == k then now else last_of links now k)
last_of-erase links now link k = ground (arith, lookup-erase link k links)

-- What a message of a delay `d` in the traces changes.
pub record Sent (t t' : Topology) (now link delay : ℕ) : Type 0 where
  pub d : ℕ
  pub is : delay ≡ (in_order now d (last_of t.link_info now link)).0
  pub links :
      (k : ℕ)
      → last_of t'.link_info now k ≡ (
          if link == k
          then (in_order now d (last_of t.link_info now link)).1
          else last_of t.link_info now k)

sent_lem :
    (t t' : Topology) (now link draw_link delay d : ℕ)
    → let info = info_of t now link draw_link in
      let r = in_order now d info.last_arrival in
      let after : Topology = record t {
        link_info = insert link (record info { last_arrival = r.1 }) t.link_info;
      } in
      ◌≡◌ {A = Result (ℕ × Topology)} (ok (r.0, after)) (ok (delay, t')) → Sent t t' now link delay
sent_lem t t' now link draw_link delay d e =
    let last = info_of_lem t now link draw_link in
    let info : LinkInfo = info_of t now link draw_link in
    let is' : delay ≡ (in_order now d info.last_arrival).0 = cc in
    let links' : t'.link_info
        ≡ insert link (record info { last_arrival = (in_order now d info.last_arrival).1 })
            t.link_info =
      cc in
    record {
      d = d;
      is = is' ∙ ap (λ a. (in_order now d a).0) last;
      links = λ k.
          ap (λ m. last_of m now k) links'
          ∙ last_of-insert t.link_info now link k _
          ∙ ap (λ a. if link == k then (in_order now d a).1 else last_of t.link_info now k) last;
    }

module _ (as_delay : ℕ → ℕ → ℕ) (t t' : Topology) (now src dst draw_link draw_msmnt delay : ℕ) where
  pub network_delay-Sent :
      network_delay as_delay t now src dst draw_link draw_msmnt ≡ ok (delay, t')
      → Sent t t' now (link_of src dst) delay
  unfolding network_delay
  network_delay-Sent =
      present_cases P (lookup src t.nodes) unknown_peer _ (λ h. cc)
        λ a _.
          present_cases P (lookup dst t.nodes) unknown_peer _ (λ h. cc)
            λ b _.
              bind_cases P (trace_delay t (network_delay_native as_delay a b / 1000)) _
                (λ e _ h. cc)
                λ next _.
                  present_cases P (lookup next t.delays) out_of_range _ (λ h. cc)
                    λ links _.
                      present_cases P
                        (get_elem? links (info_of t now (link_of src dst) draw_link).trace_link)
                        out_of_range _ (λ h. cc)
                        λ msmnts _.
                          present_cases P (get_elem? msmnts draw_msmnt) out_of_range _ (λ h. cc)
                            λ d _ e. sent_lem t t' now (link_of src dst) draw_link delay d e
    where
      P : Result (ℕ × Topology) → Type 0
      P r = r ≡ ok (delay, t') → Sent t t' now (link_of src dst) delay

-- Links that are cleaned up have arrivals long past.
cleanup_link_lem :
    (now link : ℕ) (r : ℕ × Map LinkInfo) (k : ℕ)
    → (last_of (cleanup_link now link r).1 now k ≡ last_of r.1 now k)
      ⊎ ((last_of (cleanup_link now link r).1 now k ≡ now) × (last_of r.1 now k < now))
unfolding cleanup_link
cleanup_link_lem now link r k = elim (Option-cases (lookup link r.1)) [
  | inl e ↦ rw (e, cleanup_link) (inl refl)
  | inr (info, e) ↦ elim (Bool-cases (ltb (info.last_arrival + cleanup_buffer) now)) [
    | inl old ↦ elim (Bool-cases (link == k)) [
      | inl same ↦
          rw (e, cleanup_link)
            (rw old (inr (last_of-erase r.1 now link k ∙ rw same refl, ground arith)))
      | inr other ↦
          rw (e, cleanup_link) (rw old (inl (last_of-erase r.1 now link k ∙ rw other refl)))
    ]
    | inr recent ↦ rw (e, cleanup_link) (rw recent (inl refl))
  ]
]

pub cleanup_loop_lem :
    (now : ℕ) (todo : Map LinkInfo) (r : ℕ × Map LinkInfo) (k : ℕ)
    → (last_of (cleanup_loop now todo r).1 now k ≡ last_of r.1 now k)
      ⊎ ((last_of (cleanup_loop now todo r).1 now k ≡ now) × (last_of r.1 now k < now))
unfolding cleanup_loop
cleanup_loop_lem now [] r k = inl refl
cleanup_loop_lem now ((link, info) ∷ rest) r k =
    let one = cleanup_link_lem now link r k in
    let more = cleanup_loop_lem now rest (cleanup_link now link r) k in
    elim more [
      | inl m ↦ elim one [ inl o ↦ inl (m ∙ o) | inr o ↦ inr (m ∙ o.0, o.1) ]
      | inr m ↦ elim one [ inl o ↦ inr (m.0, omega (arith, m.1, o)) | inr o ↦ inr (m.0, o.1) ]
    ]

-- What holds of a link's arrivals: they are in order, none much later than the one remembered.
pub record Inv (t : Topology) (now link : ℕ) (l : List ℕ) : Type 0 where
  pub before : All (λ a. a ≤ last_of t.link_info now link + 1) l
  pub ordered : Ordered l

pub All-weaken : (m n : ℕ) (l : List ℕ) → m ≤ n → All (λ a. a ≤ m) l → All (λ a. a ≤ n) l
All-weaken m n [] h p = tt
All-weaken m n (a ∷ l) h p = (omega (arith, p.0), All-weaken m n l h p.1)

pub last_of-later :
    (links : Map LinkInfo) (now later link : ℕ)
    → now ≤ later
    → last_of links now link ≤ last_of links later link
last_of-later links now later link h = ground arith

pub in_order_lem :
    (now d last : ℕ)
    → last ≤ now + 2 ^ 31
    → (last + 1 ≤ now + (in_order now d last).0)
      × (now + (in_order now d last).0 ≤ (in_order now d last).1 + 1)
unfolding in_order
in_order_lem now d last h = ground arith

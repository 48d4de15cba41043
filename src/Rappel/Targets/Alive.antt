-- ===== src/Rappel/Targets/Alive.antt =====
-- src/rappel.cpp: `initiate_feed_join_req` asks no node that has failed.
use rappel.Base.{
  ℕ, ◌≡◌, refl, ◌⊎◌, inl, inr, true, false, not, ◌&&◌, ◌||◌, List, [], ◌∷◌, arith, ltb, contains,
  ◌==◌, if◌then◌else◌, Bool-cases, ok, stages, present, assert, no_target, assert-eq-ok,
}
use rappel.Base.Map.{Map, lookup}
use rappel.Events.{no_such_node}
use rappel.Rappel.Targets.{
  is_new, with_publisher, with_fwd_node, first_new, least_attempted, choose_target,
}

module _ (attempted : Map ℕ) (failed_nodes : List ℕ) where
  -- No node, or one that has not failed.
  abbrev Alive : ℕ → Type 0
  Alive n = (n ≡ no_such_node) ⊎ (contains failed_nodes n ≡ false)

  first_new-Alive : (ns : List ℕ) → Alive (first_new attempted failed_nodes ns)
  unfolding first_new
  first_new-Alive [] = inl refl
  first_new-Alive (n ∷ ns) = elim (Bool-cases (is_new attempted failed_nodes n)) [
    | inl new ↦ rw new (inr (ground (arith, new)))
    | inr old ↦ rw old (first_new-Alive ns)
  ]

  least_attempted-Alive :
      (ns : List ℕ) (min_node min_attempts t : ℕ)
      → Alive min_node
      → least_attempted attempted failed_nodes ns min_node min_attempts ≡ ok t
      → Alive t
  unfolding least_attempted
  least_attempted-Alive [] m k t a e = let same : m ≡ t = cc in rw (← same) a
  least_attempted-Alive (n ∷ ns) m k t a e = elim (Bool-cases (contains failed_nodes n)) [
    | inl dead ↦ least_attempted-Alive ns m k t a (rw dead at e)
    | inr lives ↦
        let (c, _, e') = stages (present (lookup n attempted) no_target) _ (rw lives at e) in
        least_attempted-Alive ns _ _ t
          (elim (Bool-cases (m == no_such_node || ltb c k)) [
            | inl fewer ↦ rw fewer (inr lives)
            | inr more ↦ rw more a
          ])
          e'
  ]

  -- The node that is asked has not failed.
  pub choose_target-alive :
      (fwd_node publisher : ℕ) (subscribers : List ℕ) (t : ℕ)
      → choose_target attempted failed_nodes fwd_node publisher subscribers ≡ ok t
      → contains failed_nodes t ≡ false
  unfolding choose_target
  choose_target-alive fwd_node publisher subscribers t e =
      let nodes =
        with_fwd_node attempted failed_nodes fwd_node (with_publisher publisher subscribers) in
      let forwarded = not (fwd_node == no_such_node) && is_new attempted failed_nodes fwd_node in
      let target = if forwarded then fwd_node else first_new attempted failed_nodes nodes in
      let first : Alive target = elim (Bool-cases forwarded) [
        | inl new ↦ rw new (inr (ground (arith, new)))
        | inr old ↦ rw old (first_new-Alive nodes)
      ] in
      let (u, chosen, e₂) =
        stages
          (if target == no_such_node
            then least_attempted attempted failed_nodes nodes no_such_node 999999
            else ok target)
          _ e in
      let (_, named, e₃) = stages (assert (not (u == no_such_node)) no_target) _ e₂ in
      let real : not (u == no_such_node) ≡ true = assert-eq-ok _ no_target named in
      let alive : Alive u = elim (Bool-cases (target == no_such_node)) [
        | inl none_new ↦
            least_attempted-Alive nodes no_such_node 999999 u (inl refl) (rw none_new at chosen)
        | inr some_new ↦
            let c : ok target ≡ ok u = rw some_new at chosen in
            let same : target ≡ u = cc in rw same at first
      ] in
      let same : u ≡ t = cc in
      elim alive [
        | inl none_left ↦ absurd (ground (arith, none_left, real))
        | inr lives ↦ rw same at lives
      ]

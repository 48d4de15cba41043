-- ===== src/Rappel/Targets/Choice.antt =====
-- src/rappel.cpp: the node that `initiate_feed_join_req` chooses.
use rappel.Base.{
  ℕ, ◌≡◌, ◌≢◌, refl, ◌⊎◌, inl, inr, true, false, not, ◌&&◌, List, arith, contains, ◌==◌, Bool-cases,
  Option-cases, ok, failed, no_target, contains-append,
}
use rappel.Base.Map.{Map, lookup, has, has_of_lookup}
use rappel.Events.{no_such_node}
use rappel.Rappel.Targets.{is_new, with_publisher, with_fwd_node, first_new, choose_target}
use rappel.Rappel.Targets.Least.{
  attempts_of, Least, AllFailed, in_real, first_new_cases, least_start,
}

module _ (attempted : Map ℕ) (failed_nodes : List ℕ) where
  fresh_least :
      (t : ℕ) (ns : List ℕ)
      → is_new attempted failed_nodes t ≡ true
      → Least attempted failed_nodes t ns
  fresh_least t ns new = record {
    alive = ground (arith, new);
    fewest = λ n c a. elim (Option-cases (lookup t attempted)) [
      | inl none_at ↦ rw (none_at, attempts_of) (omega arith)
      | inr (k, at) ↦
          absurd (
            let h : has t attempted ≡ true = has_of_lookup t attempted at in ground (arith, h, new))
    ];
  }

  with_publisher_real :
      (publisher : ℕ) (ns : List ℕ)
      → contains ns no_such_node ≡ false
      → publisher ≢ no_such_node
      → contains (with_publisher publisher ns) no_such_node ≡ false
  with_publisher_real publisher ns real some_p = elim (Bool-cases (contains ns publisher)) [
    | inl there ↦ rw there real
    | inr out ↦ rw (out, contains-append ns publisher no_such_node, real) (ground (arith, some_p))
  ]

  with_fwd_node_real :
      (fwd_node : ℕ) (ns : List ℕ)
      → contains ns no_such_node ≡ false
      → contains (with_fwd_node attempted failed_nodes fwd_node ns) no_such_node ≡ false
  with_fwd_node_real fwd_node ns real = ground (arith, real)

  -- What `choose_target` may choose.
  pub record Chosen (t fwd_node : ℕ) (ns : List ℕ) : Type 0 where
    pub named : t ≢ no_such_node
    pub among : (t ≡ fwd_node) ⊎ (contains ns t ≡ true)
    pub least : Least attempted failed_nodes t ns

  -- The node that is asked to be the parent: where the publisher and the subscribers are nodes, the
  -- choice ends, and either fails the assertion that there is a target, and then every node of the
  -- list has failed, or names a node that is the forwarding node or stands in the list, has not
  -- failed, and has been asked no more often than any node of the list that has not failed. The
  -- list is that of the subscribers, with the publisher and the forwarding node where they are added.
  pub choose_target_lem :
      (fwd_node publisher : ℕ) (subscribers : List ℕ)
      → contains subscribers no_such_node ≡ false
      → publisher ≢ no_such_node
      → (let nodes =
            with_fwd_node attempted failed_nodes fwd_node (with_publisher publisher subscribers) in
          ((choose_target attempted failed_nodes fwd_node publisher subscribers ≡ failed no_target)
            × AllFailed attempted failed_nodes nodes)
          ⊎ ((t : ℕ) × (choose_target attempted failed_nodes fwd_node publisher subscribers ≡ ok t)
              × Chosen t fwd_node nodes))
  unfolding choose_target
  choose_target_lem fwd_node publisher subscribers real some_p =
      let nodes =
        with_fwd_node attempted failed_nodes fwd_node (with_publisher publisher subscribers) in
      let real_nodes : contains nodes no_such_node ≡ false =
        with_fwd_node_real fwd_node _ (with_publisher_real publisher subscribers real some_p) in
      elim (Bool-cases (not (fwd_node == no_such_node) && is_new attempted failed_nodes fwd_node)) [
        | inl forwarded ↦
            let some_f : (fwd_node == no_such_node) ≡ false = ground (arith, forwarded) in
            inr (
              fwd_node,
              ground (arith, forwarded, some_f),
              record {
                named = ground (arith, some_f);
                among = inl refl;
                least = fresh_least fwd_node nodes (ground (arith, forwarded));
              },
            )
        | inr direct ↦ elim (first_new_cases attempted failed_nodes nodes real_nodes) [
          | inr (c, new) ↦
              let some_t : (first_new attempted failed_nodes nodes == no_such_node) ≡ false =
                in_real _ nodes c real_nodes in
              inr (
                first_new attempted failed_nodes nodes,
                ground (arith, direct, some_t),
                record {
                  named = ground (arith, some_t);
                  among = inr c;
                  least = fresh_least _ nodes new;
                },
              )
          | inl (none_new, all_old) ↦
              elim (least_start attempted failed_nodes nodes 999999 real_nodes
                (λ n c a. ground (arith, all_old n c, a))) [
                  | inl (e, all) ↦ inl (rw (direct, none_new, e) refl, all)
                  | inr (t, e, c, some_t, least) ↦ inr (
                    t,
                    rw (direct, none_new, e) (ground (arith, some_t)),
                    record { named = some_t; among = inr c; least = least },
                  )
                ]
        ]
      ]

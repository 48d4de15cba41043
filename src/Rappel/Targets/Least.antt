-- ===== src/Rappel/Targets/Least.antt =====
-- src/rappel.cpp: the loops of `initiate_feed_join_req` that look for a node that is new, and for the
-- one with the fewest attempts.
use rappel.Base.{
  ℕ, ◌≤◌, ◌≡◌, ◌≢◌, refl, ◌⊎◌, inl, inr, true, false, List, [], ◌∷◌, none, some, arith, contains,
  ltb, ◌==◌, ==_iff, ==_refl, Bool-cases, ok,
}
use rappel.Base.Map.{Map, lookup, has, lookup_of_has}
use rappel.Events.{no_such_node}
use rappel.Rappel.Targets.{is_new, first_new, least_attempted}

-- How often a node has been asked.
abbrev pub attempts_of : Map ℕ → ℕ → ℕ
attempts_of attempted n = elim (lookup n attempted) [ none ↦ 0 | some k ↦ k ]

contains_head : (n : ℕ) (ns : List ℕ) → contains (n ∷ ns) n ≡ true
contains_head n ns = ground arith

head_real : (n : ℕ) (ns : List ℕ) → contains (n ∷ ns) no_such_node ≡ false → n ≢ no_such_node
head_real n ns real = ground (arith, real)

pub in_real :
    (t : ℕ) (ns : List ℕ)
    → contains ns t ≡ true
    → contains ns no_such_node ≡ false
    → (t == no_such_node) ≡ false
in_real t ns c real = elim (Bool-cases (t == no_such_node)) [
  | inl same ↦ let e : t ≡ no_such_node = (==_iff t no_such_node).0 same in cc
  | inr other ↦ other
]

later :
    (t m n : ℕ) (ns : List ℕ)
    → (t ≡ m) ⊎ (contains ns t ≡ true)
    → (t ≡ m) ⊎ (contains (n ∷ ns) t ≡ true)
later t m n ns (inl e) = inl e
later t m n ns (inr c) = inr (ground (arith, c))

now :
    (t m n : ℕ) (ns : List ℕ)
    → (t ≡ n) ⊎ (contains ns t ≡ true)
    → (t ≡ m) ⊎ (contains (n ∷ ns) t ≡ true)
now t m n ns (inl e) = inr (ground (arith, e))
now t m n ns (inr c) = inr (ground (arith, c))

module _ (attempted : Map ℕ) (failed_nodes : List ℕ) where
  pub first_new_cases :
      (ns : List ℕ)
      → contains ns no_such_node ≡ false
      → ((first_new attempted failed_nodes ns ≡ no_such_node)
          × ((n : ℕ) → contains ns n ≡ true → is_new attempted failed_nodes n ≡ false))
        ⊎ ((contains ns (first_new attempted failed_nodes ns) ≡ true)
            × (is_new attempted failed_nodes (first_new attempted failed_nodes ns) ≡ true))
  unfolding first_new
  first_new_cases [] real = inl (refl, λ n c. cc)
  first_new_cases (n ∷ ns) real = elim (Bool-cases (is_new attempted failed_nodes n)) [
    | inl new ↦ rw new (inr (ground arith, new))
    | inr old ↦ rw old (elim (first_new_cases ns (ground arith)) [
      | inl (e, all) ↦ inl (
        e,
        λ m c. elim (Bool-cases (n == m)) [
          | inl here ↦ let same : n ≡ m = (==_iff n m).0 here in rw (← same) old
          | inr other ↦ all m (rw other at c)
        ],
      )
      | inr (c, new) ↦ inr (ground (arith, c), new)
    ])
  ]

  -- A node that has not failed, with no more attempts than `nodes` allow.
  pub record Least (t : ℕ) (ns : List ℕ) : Type 0 where
    pub alive : contains failed_nodes t ≡ false
    pub fewest :
        (n : ℕ)
        → contains ns n ≡ true
        → contains failed_nodes n ≡ false
        → attempts_of attempted t ≤ attempts_of attempted n

  abbrev pub AllFailed : List ℕ → Type 0
  AllFailed ns = (n : ℕ) → contains ns n ≡ true → contains failed_nodes n ≡ true

  abbrev AllAsked : List ℕ → Type 0
  AllAsked ns =
      (n : ℕ) → contains ns n ≡ true → contains failed_nodes n ≡ false → has n attempted ≡ true

  attempts_at : (n k : ℕ) → lookup n attempted ≡ some k → attempts_of attempted n ≡ k
  attempts_at n k e = rw (e, attempts_of) refl

  extended :
      (t n : ℕ) (ns : List ℕ)
      → Least t ns
      → (contains failed_nodes n ≡ false → attempts_of attempted t ≤ attempts_of attempted n)
      → Least t (n ∷ ns)
  extended t n ns least first = record {
    alive = least.alive;
    fewest = λ j c a. elim (Bool-cases (n == j)) [
      | inl here ↦ let same : n ≡ j = (==_iff n j).0 here in rw (← same) (first (rw same a))
      | inr other ↦ least.fewest j (rw other at c) a
    ];
  }

  -- From a node `m` that has not failed and was asked `k` times.
  least_from :
      (ns : List ℕ) (m k : ℕ)
      → contains ns no_such_node ≡ false
      → AllAsked ns
      → m ≢ no_such_node
      → contains failed_nodes m ≡ false
      → lookup m attempted ≡ some k
      → (t : ℕ) × (least_attempted attempted failed_nodes ns m k ≡ ok t)
        × ((t ≡ m) ⊎ (contains ns t ≡ true))
        × (t ≢ no_such_node)
        × (attempts_of attempted t ≤ k)
        × Least t ns
  unfolding least_attempted
  least_from [] m k real asked some_m alive at = (
    m,
    refl,
    inl refl,
    some_m,
    rw (attempts_at m k at) (omega arith),
    record { alive = alive; fewest = λ n c a. cc },
  )
  least_from (n ∷ ns) m k real asked some_m alive at =
      let real' : contains ns no_such_node ≡ false = ground arith in
      let asked' : AllAsked ns = λ j c a. asked j (ground (arith, c)) a in
      elim (Bool-cases (contains failed_nodes n)) [
        | inl dead ↦
            let (t, e, from, some_t, few, least) = least_from ns m k real' asked' some_m alive at in
            (t, rw dead e, later t m n ns from, some_t, few, extended t n ns least (λ a. cc))
        | inr lives ↦
            let (kn, at_n) = lookup_of_has n attempted (asked n (contains_head n ns) lives) in
            let some_n : n ≢ no_such_node = λ h. head_real n ns real h in
            let named : (m == no_such_node) ≡ false = ground (arith, some_m) in
            elim (Bool-cases (ltb kn k)) [
              | inl fewer ↦
                  let (t, e, from, some_t, few, least) =
                    least_from ns n kn real' asked' some_n lives at_n in
                  (
                    t,
                    rw (lives, at_n, named, fewer) e,
                    now t m n ns from,
                    some_t,
                    ground arith,
                    extended t n ns least (λ a. rw (attempts_at n kn at_n) few),
                  )
              | inr more ↦
                  let (t, e, from, some_t, few, least) =
                    least_from ns m k real' asked' some_m alive at in
                  (
                    t,
                    rw (lives, at_n, named, more) e,
                    later t m n ns from,
                    some_t,
                    few,
                    extended t n ns least (λ a. rw (attempts_at n kn at_n) (ground arith)),
                  )
            ]
      ]

  -- The loop from its start: every node has failed, or it finds one.
  pub least_start :
      (ns : List ℕ) (x : ℕ)
      → contains ns no_such_node ≡ false
      → AllAsked ns
      → ((least_attempted attempted failed_nodes ns no_such_node x ≡ ok no_such_node)
          × AllFailed ns)
        ⊎ ((t : ℕ) × (least_attempted attempted failed_nodes ns no_such_node x ≡ ok t)
            × (contains ns t ≡ true)
            × (t ≢ no_such_node)
            × Least t ns)
  unfolding least_attempted
  least_start [] x real asked = inl (refl, λ n c. cc)
  least_start (n ∷ ns) x real asked =
      let real' : contains ns no_such_node ≡ false = ground arith in
      let asked' : AllAsked ns = λ j c a. asked j (ground (arith, c)) a in
      elim (Bool-cases (contains failed_nodes n)) [
        | inl dead ↦ elim (least_start ns x real' asked') [
          | inl (e, all) ↦ inl (
            rw dead e,
            λ j c. elim (Bool-cases (n == j)) [
              | inl here ↦ let same : n ≡ j = (==_iff n j).0 here in rw (← same) dead
              | inr other ↦ all j (rw other at c)
            ],
          )
          | inr (t, e, c, some_t, least) ↦
              inr (t, rw dead e, ground (arith, c), some_t, extended t n ns least (λ a. cc))
        ]
        | inr lives ↦
            let (kn, at_n) = lookup_of_has n attempted (asked n (contains_head n ns) lives) in
            let some_n : n ≢ no_such_node = λ h. head_real n ns real h in
            let (t, e, from, some_t, few, least) =
              least_from ns n kn real' asked' some_n lives at_n in
            let here : contains (n ∷ ns) t ≡ true = elim from [
              | inl same ↦ rw same (contains_head n ns)
              | inr c ↦ ground (arith, c)
            ] in
            inr (
              t,
              rw (lives, at_n, ==_refl no_such_node) e,
              here,
              some_t,
              extended t n ns least (λ a. rw (attempts_at n kn at_n) few),
            )
      ]

-- ===== src/Rappel/Joins/Alive.antt =====
-- src/rappel.cpp: the nodes that have not failed, when another fails (`failed.push_back`).
use rappel.Base.{
  ℕ, ◌+◌, ◌<◌, ◌≤◌, ◌≡◌, refl, ◌∙◌, inl, inr, true, false, ◌||◌, List, [], ◌∷◌, arith, length,
  contains, contains-append, ◌==◌, ==_iff, if◌then◌else◌, Bool-cases,
}
use rappel.Rappel.Joins.{with_failed}

-- The nodes of the list that have not failed.
pub alive : List ℕ → List ℕ → ℕ
alive failed_nodes [] = 0
alive failed_nodes (n ∷ ns) = (if contains failed_nodes n then 0 else 1) + alive failed_nodes ns

pub contains-with_failed :
    (failed_nodes : List ℕ) (t n : ℕ)
    → contains (with_failed failed_nodes t) n ≡ (contains failed_nodes n || t == n)
unfolding with_failed
contains-with_failed failed_nodes t n = elim (Bool-cases (contains failed_nodes t)) [
  | inl old ↦ elim (Bool-cases (t == n)) [
    | inl here ↦
        let e : t ≡ n = (==_iff t n).0 here in
        let there : contains failed_nodes n ≡ true = rw e at old in rw (old, there) refl
    | inr other ↦ ground (arith, old, other)
  ]
  | inr new ↦ rw new (contains-append failed_nodes t n)
]

alive-with_failed_le :
    (failed_nodes : List ℕ) (t : ℕ) (ns : List ℕ)
    → alive (with_failed failed_nodes t) ns ≤ alive failed_nodes ns
unfolding alive
alive-with_failed_le failed_nodes t [] = omega arith
alive-with_failed_le failed_nodes t (n ∷ ns) =
    ground (arith, contains-with_failed failed_nodes t n, alive-with_failed_le failed_nodes t ns)

-- A node of the list that fails is one less.
pub alive-with_failed :
    (failed_nodes : List ℕ) (t : ℕ) (ns : List ℕ)
    → contains failed_nodes t ≡ false
    → contains ns t ≡ true
    → alive (with_failed failed_nodes t) ns < alive failed_nodes ns
unfolding alive
alive-with_failed failed_nodes t [] lives in_list = cc
alive-with_failed failed_nodes t (n ∷ ns) lives in_list =
    let le = alive-with_failed_le failed_nodes t ns in
    let at_n = contains-with_failed failed_nodes t n in
    elim (Bool-cases (n == t)) [
      | inl here ↦
          let e : n ≡ t = (==_iff n t).0 here in
          let lives_n : contains failed_nodes n ≡ false = rw e lives in
          let gone : contains (with_failed failed_nodes t) n ≡ true =
            at_n ∙ rw lives_n (ground (arith, e)) in
          rw (gone, lives_n) (ground (arith, le))
      | inr other ↦
          let same : contains (with_failed failed_nodes t) n ≡ contains failed_nodes n =
            at_n ∙ ground (arith, other) in
          let less = alive-with_failed failed_nodes t ns lives (rw other at in_list) in
          rw same (ground (arith, less))
    ]

pub alive_le : (failed_nodes ns : List ℕ) → alive failed_nodes ns ≤ length ns
unfolding alive
alive_le failed_nodes [] = omega arith
alive_le failed_nodes (n ∷ ns) = ground (arith, alive_le failed_nodes ns)

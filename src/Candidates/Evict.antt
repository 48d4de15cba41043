-- ===== src/Candidates/Evict.antt =====
-- src/rappel.cpp: `remove_old_candidate` evicts ten candidates, those that were voted for least
-- recently.
use rappel.Base.{
  ℕ, ◌+◌, ◌<◌, ◌≡◌, ◌≢◌, refl, sym, ap, ◌∙◌, ◌⊎◌, inl, inr, true, false, List, [], ◌∷◌, none, some,
  arith, length, ◌==◌, ==_iff, Bool-cases, ok, lt→ltb,
}
use rappel.Base.Map.{Map, lookup, erase, lookup-erase}
use rappel.Base.Keys.{Above, Sorted, erase-Sorted, length-erase}
use rappel.Base.Int.{◌≤ℤ◌}
use rappel.Neighbor.{CandidatePeer}
use rappel.Candidates.{
  CandidateAge, age_of, candidates_to_remove, oldest_loop, erase_loop, remove_old_candidate,
}
use rappel.Candidates.Queued.{Listed, Apart, AtMost_listed}
use rappel.Candidates.Ages.{Within, Named, Oldest, Oldest-of_all, length-oldest_loop}

pub lookup-Within :
    (m : Map CandidatePeer) (j : ℕ) (c : CandidatePeer)
    → Named m
    → lookup j m ≡ some c
    → Within (age_of c) m × (c.id ≡ j)
unfolding lookup
lookup-Within [] j c n e = cc
lookup-Within ((k, d) ∷ m) j c n e = elim (Bool-cases (k == j)) [
  | inl here ↦
      let same : d ≡ c = let e' = rw here at e in cc in
      (
        inl (ap (λ (x : CandidatePeer). age_of x) (sym same)),
        ap (λ (x : CandidatePeer). x.id) (sym same) ∙ n.0 ∙ (==_iff k j).0 here,
      )
  | inr there ↦ let (w, i) = lookup-Within m j c n.1 (rw there at e) in (inr w, i)
]

Within-Above :
    (m : Map CandidatePeer) (k : ℕ) (e : CandidateAge) → Named m → Above k m → Within e m → k < e.id
Within-Above [] k e n a w = elim w [ ]
Within-Above ((j, c) ∷ m) k e n a w = elim w [
  | inl same ↦ let i = ap (λ (x : CandidateAge). x.id) same in omega (arith, n.0, a.0)
  | inr more ↦ Within-Above m k e n.1 a.1 more
]

Within-lookup :
    (m : Map CandidatePeer) (e : CandidateAge)
    → Sorted m
    → Named m
    → Within e m
    → (c : CandidatePeer) × (lookup e.id m ≡ some c) × (e ≡ age_of c)
unfolding lookup
Within-lookup [] e s n w = elim w [ ]
Within-lookup ((k, c) ∷ m) e s n w = elim w [
  | inl same ↦
      let i : k ≡ e.id = sym (ap (λ (x : CandidateAge). x.id) same ∙ n.0) in
      let here : (k == e.id) ≡ true = (==_iff k e.id).1 i in (c, rw here refl, same)
  | inr more ↦
      let above = Within-Above m k e n.1 s.0 more in
      let there : (k == e.id) ≡ false = ground arith in
      let (d, found, same) = Within-lookup m e s.1 n.1 more in (d, rw there found, same)
]

pub erase-Named : (k : ℕ) (m : Map CandidatePeer) → Named m → Named (erase k m)
unfolding erase
erase-Named k [] n = tt
erase-Named k ((j, c) ∷ m) n = ground (arith, erase-Named k m n.1)

-- What the last loop leaves: the entries whose id is not in the queue.
abbrev Left : List CandidateAge → Map CandidatePeer → Map CandidatePeer → ℕ → Type 0
Left q m m' j =
    ((e : CandidateAge) × Listed e q × (e.id ≡ j) × (lookup j m' ≡ none))
    ⊎ (((e : CandidateAge) → Listed e q → e.id ≢ j) × (lookup j m' ≡ lookup j m))

erase_loop_total :
    (q : List CandidateAge) (m : Map CandidatePeer)
    → Apart q
    → Sorted m
    → Named m
    → ((e : CandidateAge) → Listed e q → (c : CandidatePeer) × (lookup e.id m ≡ some c))
    → (m' : Map CandidatePeer) × (erase_loop q m ≡ ok m')
      × (length m' + length q ≡ length m)
      × Sorted m'
      × Named m'
      × ((j : ℕ) → Left q m m' j)
unfolding erase_loop
erase_loop_total [] m a s n there = (m, refl, omega arith, s, n, λ j. inr ((λ e l. absurd l), refl))
erase_loop_total (t ∷ q) m a s n there =
    let (c, found) = there t (inl refl) in
    let (m', e, size, s', n', left) =
      erase_loop_total q (erase t.id m) a.1 (erase-Sorted t.id m s) (erase-Named t.id m n) (λ e l.
        let (d, old) = there e (inr l) in
        let other : (t.id == e.id) ≡ false = let h = a.0 e l in ground arith in
        (d, rw (lookup-erase t.id e.id m, other) old)) in
    (
      m',
      rw found e,
      omega (arith, length-erase t.id c m s found),
      s',
      n',
      λ j. elim (left j) [
        | inl (x, l, i, gone) ↦ inl (x, inr l, i, gone)
        | inr (never, same) ↦ elim (Bool-cases (t.id == j)) [
          | inl here ↦
              inl (t, inl refl, (==_iff t.id j).0 here, same ∙ lookup-erase t.id j m ∙ rw here refl)
          | inr other ↦ inr (
            (λ x l. elim l [
              | inl first ↦ λ i. let h = ap (λ (y : CandidateAge). y.id) first in ground arith
              | inr more ↦ never x more
            ]),
            same ∙ lookup-erase t.id j m ∙ rw other refl,
          )
        ]
      ],
    )

-- The policy: ten entries go, the others stay as they are, and none that goes was voted for after
-- one that stays.
pub record Evicted (m m' : Map CandidatePeer) : Type 0 where
  pub ten : length m' + candidates_to_remove ≡ length m
  pub kept : (j : ℕ) (c : CandidatePeer) → lookup j m' ≡ some c → lookup j m ≡ some c
  pub older :
      (i j : ℕ) (c d : CandidatePeer)
      → lookup i m ≡ some c
      → lookup i m' ≡ none
      → lookup j m' ≡ some d
      → c.last_voted_at ≤ℤ d.last_voted_at

-- The candidates are a map under their ids.
pub record IsMap (m : Map CandidatePeer) : Type 0 where
  pub sorted : Sorted m
  pub named : Named m

none_ne_some : {c : CandidatePeer} → none ≢ some c
none_ne_some h = cc

module _ (m : Map CandidatePeer) (v : IsMap m) (q : List CandidateAge)
    (o : Oldest (λ e. Within e m) q) (full : length q ≡ candidates_to_remove) where
  all_there : (e : CandidateAge) → Listed e q → (c : CandidatePeer) × (lookup e.id m ≡ some c)
  all_there e l = let (c, found, _) = Within-lookup m e v.sorted v.named (o.from e l) in (c, found)

  kept-Evicted :
      (m' : Map CandidatePeer)
      → length m' + length q ≡ length m
      → ((j : ℕ) → Left q m m' j)
      → Evicted m m'
  kept-Evicted m' size left = record {
    ten = omega arith;
    kept = λ j c found. elim (left j) [
      | inl (e, l, i, gone) ↦ absurd (none_ne_some (sym gone ∙ found))
      | inr (never, same) ↦ sym same ∙ found
    ];
    older = λ i j c d there gone found. elim (left i) [
      | inr (never, same) ↦ absurd (none_ne_some (sym gone ∙ same ∙ there))
      | inl (e, l, at, _) ↦ elim (left j) [
        | inl (e', l', at', gone') ↦ absurd (none_ne_some (sym gone' ∙ found))
        | inr (never, same) ↦
            let (w, named) = lookup-Within m j d v.named (sym same ∙ found) in
            let (c', there', aged) = Within-lookup m e v.sorted v.named (o.from e l) in
            let one : c' ≡ c = let h : lookup i m ≡ some c' = rw (← at) there' in cc in
            let age : e.age ≡ c.last_voted_at =
              ap (λ (x : CandidateAge). x.age) aged
              ∙ ap (λ (x : CandidatePeer). x.last_voted_at) one in
            elim (o.out (age_of d) w) [
              | inl listed ↦ absurd (never (age_of d) listed named)
              | inr (_, most) ↦
                  let le : e.age ≤ℤ d.last_voted_at = AtMost_listed d.last_voted_at q e most l in
                  rw (← age) le
            ]
      ]
    ];
  }

-- For a map of more than ten candidates, `remove_old_candidate` fails no assertion, that ten are in
-- the queue and that each of them is found included. Exactly ten candidates go, and none of them
-- was voted for after one that stays; the others stay as they are.
pub remove_old_candidate_lem :
    (m : Map CandidatePeer)
    → IsMap m
    → candidates_to_remove < length m
    → (m' : Map CandidatePeer) × (remove_old_candidate m ≡ ok m') × Evicted m m' × IsMap m'
unfolding remove_old_candidate
remove_old_candidate_lem m v many =
    let q = oldest_loop m [] in
    let full : length q ≡ candidates_to_remove =
      length-oldest_loop m [] (omega arith) (omega arith) in
    let o : Oldest (λ e. Within e m) q = Oldest-of_all m v.sorted v.named in
    let (m', e, size, s', n', left) =
      erase_loop_total q m o.apart v.sorted v.named (all_there m v q o full) in
    let t : (length q == candidates_to_remove) ≡ true = (==_iff _ _).1 full in
    rw (lt→ltb candidates_to_remove (length m) many, t)
      (m', e, kept-Evicted m v q o full m' size left, record { sorted = s'; named = n' })

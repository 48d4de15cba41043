-- ===== src/Candidates/Best.antt =====
-- src/rappel.cpp: the loop of `most_popular_candidate` keeps the best of the candidates seen.
use rappel.Base.{
  ℕ, ◌≤◌, ◌<◌, ◌≡◌, refl, ap, sym, ◌∙◌, ◌⊎◌, inl, inr, Bool, true, false, not, ◌&&◌, List, [], ◌∷◌,
  none, some, arith, length, contains, ltb, ◌==◌, if◌then◌else◌, Bool-cases, Option-cases, ok,
  contains-append, length-append, subst,
}
use rappel.Base.Map.{Map, lookup}
use rappel.Neighbor.{Neighbor, friend_role, finds, CandidatePeer}
use rappel.Neighbor.Roles as Roles
use rappel.Neighbor.Roles.{plays_role_lem}
use rappel.Candidates.{peer_plays_role, more_popular, popular_loop}

-- An entry of the map.
abbrev pub Entry : ℕ × CandidatePeer → Map CandidatePeer → Type 0
Entry e [] = ⊥
Entry e (f ∷ rest) = (e ≡ f) ⊎ Entry e rest

-- A peer in the role of a friend.
abbrev pub is_friend : Map Neighbor → ℕ → Bool
is_friend peers id = elim (lookup id peers) [ none ↦ false | some n ↦ finds friend_role n.roles ]

-- Neither audited nor a friend.
abbrev pub is_open : Map Neighbor → ℕ × CandidatePeer → Bool
is_open peers e = not e.1.audited && not (is_friend peers e.0)

-- All peers are sound.
abbrev pub Sound : Map Neighbor → Type 0
Sound peers = (id : ℕ) (n : Neighbor) → lookup id peers ≡ some n → Roles.Inv n

module _ (peers : Map Neighbor) (sound : Sound peers) where
  friend_of :
      (id : ℕ) (n : Neighbor)
      → lookup id peers ≡ some n
      → is_friend peers id ≡ finds friend_role n.roles
  friend_of id n e = ground arith

  peer_plays_role_lem : (id : ℕ) → peer_plays_role peers id friend_role ≡ ok (is_friend peers id)
  unfolding peer_plays_role
  peer_plays_role_lem id = elim (Option-cases (lookup id peers)) [
    | inl e ↦ rw (e, peer_plays_role) (ground arith)
    | inr (n, e) ↦
        rw (e, peer_plays_role)
          (plays_role_lem (sound id n e) friend_role ∙ ap ok (sym (friend_of id n e)))
  ]

  -- The best of the entries seen.
  pub record Best (seen : ℕ × CandidatePeer → Type 0) (best : List ℕ × ℕ) : Type 0 where
    pub covers :
        (e : ℕ × CandidatePeer)
        → seen e
        → is_open peers e ≡ true
        → (e.1.num_votes ≤ best.1) × (0 < length best.0)
    pub filled : 0 < best.1 → 0 < length best.0
    pub chosen :
        (i : ℕ)
        → contains best.0 i ≡ true
        → (c : CandidatePeer) × seen (i, c) × (is_open peers (i, c) ≡ true) × (c.num_votes ≡ best.1)

  passed-Best :
      (seen : ℕ × CandidatePeer → Type 0) (best : List ℕ × ℕ) (e : ℕ × CandidatePeer)
      → is_open peers e ≡ false
      → Best seen best
      → Best (λ x. (x ≡ e) ⊎ seen x) best
  passed-Best seen best e shut b = record {
    covers = λ x s o. elim s [
      | inl same ↦ absurd (let never = rw same at o in ground arith)
      | inr old ↦ b.covers x old o
    ];
    filled = b.filled;
    chosen = λ i m. let (c, s, o, v) = b.chosen i m in (c, inr s, o, v);
  }

  added-Best :
      (seen : ℕ × CandidatePeer → Type 0) (best : List ℕ × ℕ) (id : ℕ) (c : CandidatePeer)
      → is_open peers (id, c) ≡ true
      → Best seen best
      → Best (λ x. (x ≡ (id, c)) ⊎ seen x) (more_popular best id c.num_votes)
  added-Best seen (ids, votes) id c open_ b = elim (Bool-cases (ltb votes c.num_votes)) [
    | inl more ↦ rw more (record {
      covers = λ x s o. elim s [
        | inl same ↦
            (omega (arith, ap (λ (e : ℕ × CandidatePeer). e.1.num_votes) same), omega arith)
        | inr old ↦ (ground (arith, (b.covers x old o).0), omega arith)
      ];
      filled = λ h. omega arith;
      chosen = λ i m. here i (ground arith);
    })
    | inr no_more ↦ elim (Bool-cases (c.num_votes == votes)) [
      | inl as_many ↦
          rw (no_more, as_many)
            (record {
              covers = λ x s o. elim s [
                | inl same ↦ (
                  ground (arith, ap (λ (e : ℕ × CandidatePeer). e.1.num_votes) same),
                  omega (arith, length-append ids (id ∷ [])),
                )
                | inr old ↦ ((b.covers x old o).0, omega (arith, length-append ids (id ∷ [])))
              ];
              filled = λ h. omega (arith, length-append ids (id ∷ []));
              chosen = λ i m. elim (Bool-cases (contains ids i)) [
                | inl before ↦ let (d, s, o, v) = b.chosen i before in (d, inr s, o, v)
                | inr new ↦
                    let (d, s, o, v) = here i (ground (arith, contains-append ids id i)) in
                    (d, s, o, ground arith)
              ];
            })
      | inr fewer ↦
          rw (no_more, fewer)
            (record {
              covers = λ x s o. elim s [
                | inl same ↦ (
                  ground (arith, ap (λ (e : ℕ × CandidatePeer). e.1.num_votes) same),
                  b.filled (ground arith),
                )
                | inr old ↦ b.covers x old o
              ];
              filled = b.filled;
              chosen = λ i m. let (d, s, o, v) = b.chosen i m in (d, inr s, o, v);
            })
    ]
  ]
    where
      here :
          (i : ℕ)
          → id ≡ i
          → (d : CandidatePeer) × (◌≡◌ {A = ℕ × CandidatePeer} (i, d) (id, c) ⊎ seen (i, d))
            × (is_open peers (i, d) ≡ true)
            × (d.num_votes ≡ c.num_votes)
      here i e = (
        c,
        inl (ap (λ k. (k, c)) (sym e)),
        subst (λ k. is_open peers (k, c) ≡ true) e open_,
        refl,
      )

  same-Best :
      (seen seen' : ℕ × CandidatePeer → Type 0) (best : List ℕ × ℕ)
      → ((x : ℕ × CandidatePeer) → seen x → seen' x)
      → ((x : ℕ × CandidatePeer) → seen' x → seen x)
      → Best seen best
      → Best seen' best
  same-Best seen seen' best to from b = record {
    covers = λ x s o. b.covers x (from x s) o;
    filled = b.filled;
    chosen = λ i m. let (c, s, o, v) = b.chosen i m in (c, to (i, c) s, o, v);
  }

  -- The tests of one round.
  tests_lem :
      (id : ℕ) (c : CandidatePeer)
      → (if c.audited then ok true else peer_plays_role peers id friend_role)
        ≡ ok (not (is_open peers (id, c)))
  tests_lem id c = rw (peer_plays_role_lem id) (ground arith)

  -- The entries seen before and one more, and then those of the rest.
  regroup :
      (seen : ℕ × CandidatePeer → Type 0) (e : ℕ × CandidatePeer) (rest : Map CandidatePeer)
      (best : List ℕ × ℕ)
      → Best (λ x. Entry x rest ⊎ ((x ≡ e) ⊎ seen x)) best
      → Best (λ x. Entry x (e ∷ rest) ⊎ seen x) best
  regroup seen e rest best b =
      same-Best _ _ best
        (λ x s. elim s [
          | inl later ↦ inl (inr later)
          | inr before ↦ elim before [ inl now ↦ inl (inl now) | inr old ↦ inr old ]
        ])
        (λ x s. elim s [
          | inl any ↦ elim any [ inl now ↦ inr (inl now) | inr later ↦ inl later ]
          | inr old ↦ inr (inr old)
        ])
        b

  pub popular_loop-Best :
      (seen : ℕ × CandidatePeer → Type 0) (rest : Map CandidatePeer) (best : List ℕ × ℕ)
      → Best seen best
      → (best' : List ℕ × ℕ) × (popular_loop peers rest best ≡ ok best')
        × Best (λ x. Entry x rest ⊎ seen x) best'
  unfolding popular_loop
  popular_loop-Best seen [] best b = (
    best,
    refl,
    same-Best _ _ best (λ x s. inr s) (λ x s. elim s [ inl h ↦ absurd h | inr old ↦ old ]) b,
  )
  popular_loop-Best seen ((id, c) ∷ rest) best b = elim (Bool-cases (is_open peers (id, c))) [
    | inl o ↦
        let (best', e, b') =
          popular_loop-Best (λ x. (x ≡ (id, c)) ⊎ seen x) rest (more_popular best id c.num_votes)
            (added-Best seen best id c o b) in
        (best', rw (tests_lem id c) (rw o e), regroup seen (id, c) rest best' b')
    | inr o ↦
        let (best', e, b') =
          popular_loop-Best (λ x. (x ≡ (id, c)) ⊎ seen x) rest best
            (passed-Best seen best (id, c) o b) in
        (best', rw (tests_lem id c) (rw o e), regroup seen (id, c) rest best' b')
  ]

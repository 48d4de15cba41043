-- ===== src/Candidates/Ages.antt =====
-- src/rappel.cpp: the queue of `remove_old_candidate` holds the oldest of the candidates seen.
use rappel.Base.{
  ℕ, suc, ◌+◌, ◌<◌, ◌≤◌, ◌≡◌, ◌≢◌, sym, ap, ◌∙◌, subst, ◌⊎◌, inl, inr, true, false, List, [], ◌∷◌,
  arith, length, ltb, leb, if◌then◌else◌, Bool-cases,
}
use rappel.Base.Map.{Map}
use rappel.Base.Keys.{Above, Sorted}
use rappel.Base.Int.{◌≤ℤ◌, ltb_ℤ}
use rappel.Neighbor.{CandidatePeer}
use rappel.Candidates.{
  CandidateAge, age_of, candidates_to_remove, push_age, considered, oldest_loop,
}
use rappel.Candidates.Queued.{
  Listed, AtMost, Falling, Apart, AtMost-le, length-push_age, Listed-push_age, push_age-Listed,
  AtMost-push_age, push_age-Falling, push_age-Apart,
}

-- The queue after the candidates that satisfy `seen`.
pub record Oldest (seen : CandidateAge → Type 0) (q : List CandidateAge) : Type 0 where
  pub falling : Falling q
  pub apart : Apart q
  pub from : (e : CandidateAge) → Listed e q → seen e
  -- What was seen is in the queue, or the queue is full of what is no newer.
  pub out :
      (e : CandidateAge)
      → seen e
      → Listed e q ⊎ ((length q ≡ candidates_to_remove) × AtMost e.age q)
  pub few : length q ≤ candidates_to_remove

pop-Oldest :
    (seen : CandidateAge → Type 0) (t : CandidateAge) (q : List CandidateAge)
    → Oldest seen (t ∷ q)
    → length (t ∷ q) ≡ candidates_to_remove
    → (e : CandidateAge) → seen e
    → Listed e q ⊎ ((t.age ≤ℤ e.age) × AtMost e.age q)
pop-Oldest seen t q o full e s = elim (o.out e s) [
  | inr (_, m) ↦ inr m
  | inl l ↦ elim l [
    | inr old ↦ inl old
    | inl same ↦
        let le : t.age ≤ℤ e.age = rw same (omega arith) in
        inr (le, AtMost-le t.age e.age q le o.falling.0)
  ]
]

-- One round of the loop.
module _ (seen : CandidateAge → Type 0) (e : CandidateAge) where
  abbrev Next : CandidateAge → Type 0
  Next x = seen x ⊎ (x ≡ e)

  pushed-Oldest :
      (q : List CandidateAge)
      → Falling q
      → Apart q
      → ((x : CandidateAge) → Listed x q → seen x)
      → ((x : CandidateAge) → Listed x q → x.id ≢ e.id)
      → ((x : CandidateAge)
          → seen x
          → Listed x q
            ⊎ ((length q + 1 ≡ candidates_to_remove) × (e.age ≤ℤ x.age) × AtMost x.age q))
      → length q < candidates_to_remove
      → Oldest Next (push_age e q)
  pushed-Oldest q falling apart from new out room = record {
    falling = push_age-Falling e q falling;
    apart = push_age-Apart e q apart new;
    from = λ x l. elim (Listed-push_age x e q l) [ inl n ↦ inr n | inr old ↦ inl (from x old) ];
    out = λ x s. elim s [
      | inr n ↦ inl (push_age-Listed x e q (inl n))
      | inl old ↦ elim (out x old) [
        | inl l ↦ inl (push_age-Listed x e q (inr l))
        | inr (full, le, m) ↦
            inr (omega (arith, length-push_age e q), AtMost-push_age x.age e q le m)
      ]
    ];
    few = omega (arith, length-push_age e q);
  }

  considered-Oldest :
      (q : List CandidateAge)
      → Oldest seen q
      → ((x : CandidateAge) → Listed x q → x.id ≢ e.id)
      → Oldest Next (considered e q)
  considered-Oldest [] o new =
      pushed-Oldest [] tt tt o.from new
        (λ x s. elim (o.out x s) [ inl l ↦ elim l [ ] | inr (full, _) ↦ absurd (omega arith) ])
        (omega arith)
  considered-Oldest (t ∷ q) o new = elim (Bool-cases (ltb (suc (length q)) candidates_to_remove)) [
    | inl room ↦
        let h : leb candidates_to_remove (suc (length q)) ≡ false = ground arith in
        rw (room, h)
          (pushed-Oldest (t ∷ q) o.falling o.apart o.from new
            (λ x s. elim (o.out x s) [ inl l ↦ inl l | inr (full, _) ↦ absurd (ground arith) ])
            (ground arith))
    | inr no_room ↦
        let h : leb candidates_to_remove (suc (length q)) ≡ true = ground arith in
        let full : length (t ∷ q) ≡ candidates_to_remove = ground (arith, o.few) in
        elim (Bool-cases (ltb_ℤ e.age t.age)) [
          | inl older ↦
              let lt : e.age ≤ℤ t.age = ground arith in
              rw (no_room, older, h)
                (pushed-Oldest q o.falling.1 o.apart.1 (λ x l. o.from x (inr l))
                  (λ x l. new x (inr l))
                  (λ x s. elim (pop-Oldest seen t q o full x s) [
                    | inl l ↦ inl l
                    | inr (le, m) ↦ inr (omega arith, omega arith, m)
                  ])
                  (omega arith))
          | inr newer ↦
              let le : t.age ≤ℤ e.age = ground arith in
              rw (no_room, newer)
                (record {
                  falling = o.falling;
                  apart = o.apart;
                  from = λ x l. inl (o.from x l);
                  out = λ x s. elim s [
                    | inl old ↦ o.out x old
                    | inr n ↦
                        let le' : t.age ≤ℤ x.age = rw n le in
                        inr (full, (le', AtMost-le t.age x.age q le' o.falling.0))
                  ];
                  few = o.few;
                })
        ]
  ]

-- The candidates of a part of the map, as the queue has them.
abbrev pub Within : CandidateAge → Map CandidatePeer → Type 0
Within e [] = ⊥
Within e ((k, c) ∷ m) = (e ≡ age_of c) ⊎ Within e m

-- Each candidate stands under its own id.
abbrev pub Named : Map CandidatePeer → Type 0
Named [] = Unit
Named ((k, c) ∷ m) = (c.id ≡ k) × Named m

weaken :
    (seen later : CandidateAge → Type 0) (q : List CandidateAge)
    → ((e : CandidateAge) → seen e → later e)
    → ((e : CandidateAge) → later e → seen e)
    → Oldest seen q
    → Oldest later q
weaken seen later q f g o = record {
  falling = o.falling;
  apart = o.apart;
  from = λ e l. f e (o.from e l);
  out = λ e s. o.out e (g e s);
  few = o.few;
}

oldest_loop-Oldest :
    (m : Map CandidatePeer) (seen : CandidateAge → Type 0) (q : List CandidateAge)
    → Sorted m
    → Named m
    → ((e : CandidateAge) → seen e → Above e.id m)
    → Oldest seen q
    → Oldest (λ e. seen e ⊎ Within e m) (oldest_loop m q)
unfolding oldest_loop
oldest_loop-Oldest [] seen q s n before o =
    weaken seen (λ e. seen e ⊎ ⊥) q (λ e x. inl x)
      (λ e x. elim x [ inl y ↦ y | inr never ↦ absurd never ]) o
oldest_loop-Oldest ((k, c) ∷ m) seen q s n before o =
    weaken (λ e. (seen e ⊎ (e ≡ age_of c)) ⊎ Within e m)
      (λ e. seen e ⊎ ((e ≡ age_of c) ⊎ Within e m)) (oldest_loop m (considered (age_of c) q))
      (λ e x. elim x [
        | inl y ↦ elim y [ inl z ↦ inl z | inr z ↦ inr (inl z) ]
        | inr z ↦ inr (inr z)
      ])
      (λ e x. elim x [
        | inl z ↦ inl (inl z)
        | inr y ↦ elim y [ inl z ↦ inl (inr z) | inr z ↦ inr z ]
      ])
      (oldest_loop-Oldest m (λ e. seen e ⊎ (e ≡ age_of c)) (considered (age_of c) q) s.1 n.1
        (λ e x. elim x [
          | inl old ↦ (before e old).1
          | inr new ↦
              subst (λ (i : ℕ). Above i m) (sym (ap (λ (y : CandidateAge). y.id) new ∙ n.0)) s.0
        ])
        (considered-Oldest seen (age_of c) q o
          (λ x l same. let b = (before x (o.from x l)).0 in omega arith)))

-- The loop fills the queue.
length-considered :
    (e : CandidateAge) (q : List CandidateAge)
    → length q ≤ candidates_to_remove
    → length (considered e q)
      ≡ (if ltb (length q) candidates_to_remove then length q + 1 else candidates_to_remove)
length-considered e [] h = ground (arith, length-push_age e [])
length-considered e (t ∷ q) h = ground (arith, length-push_age e (t ∷ q), length-push_age e q)

pub length-oldest_loop :
    (m : Map CandidatePeer) (q : List CandidateAge)
    → length q ≤ candidates_to_remove
    → candidates_to_remove ≤ length q + length m
    → length (oldest_loop m q) ≡ candidates_to_remove
unfolding oldest_loop
length-oldest_loop [] q h enough = omega arith
length-oldest_loop ((k, c) ∷ m) q h enough =
    let grown = length-considered (age_of c) q h in
    length-oldest_loop m (considered (age_of c) q) (ground arith) (ground arith)

-- The queue after the whole map.
pub Oldest-of_all :
    (m : Map CandidatePeer) → Sorted m → Named m → Oldest (λ e. Within e m) (oldest_loop m [])
Oldest-of_all m s n =
    weaken (λ e. ⊥ ⊎ Within e m) (λ e. Within e m) (oldest_loop m [])
      (λ e x. elim x [ inl never ↦ absurd never | inr w ↦ w ]) (λ e w. inr w)
      (oldest_loop-Oldest m (λ e. ⊥) [] s n (λ e never. absurd never)
        (record {
          falling = tt;
          apart = tt;
          from = λ e l. absurd l;
          out = λ e never. absurd never;
          few = omega arith;
        }))

-- ===== src/Candidates/Queued.antt =====
-- src/rappel.cpp: the queue of `remove_old_candidate`, in the order its `push` keeps.
use rappel.Base.{
  ◌+◌, ◌≡◌, ◌≢◌, refl, sym, ap, ◌∙◌, ◌⊎◌, inl, inr, List, [], ◌∷◌, arith, length, Bool-cases,
}
use rappel.Base.Int.{ℤ, ◌≤ℤ◌, ltb_ℤ}
use rappel.Candidates.{CandidateAge, push_age}

abbrev pub Listed : CandidateAge → List CandidateAge → Type 0
Listed e [] = ⊥
Listed e (t ∷ q) = (e ≡ t) ⊎ Listed e q

-- Every age of the queue is at most `a`.
abbrev pub AtMost : ℤ → List CandidateAge → Type 0
AtMost a [] = Unit
AtMost a (t ∷ q) = (t.age ≤ℤ a) × AtMost a q

-- The greatest age first.
abbrev pub Falling : List CandidateAge → Type 0
Falling [] = Unit
Falling (t ∷ q) = AtMost t.age q × Falling q

-- The ids differ, and are below the keys that are still to come.
abbrev pub Apart : List CandidateAge → Type 0
Apart [] = Unit
Apart (t ∷ q) = ((e : CandidateAge) → Listed e q → e.id ≢ t.id) × Apart q

pub AtMost-le : (a b : ℤ) (q : List CandidateAge) → a ≤ℤ b → AtMost a q → AtMost b q
AtMost-le a b [] h m = tt
AtMost-le a b (t ∷ q) h m = (omega arith, AtMost-le a b q h m.1)

pub AtMost_listed :
    (a : ℤ) (q : List CandidateAge) (e : CandidateAge) → AtMost a q → Listed e q → e.age ≤ℤ a
AtMost_listed a [] e m l = elim l [ ]
AtMost_listed a (t ∷ q) e m l = elim l [
  | inl same ↦ rw same m.0
  | inr more ↦ AtMost_listed a q e m.1 more
]

pub length-push_age :
    (e : CandidateAge) (q : List CandidateAge) → length (push_age e q) ≡ length q + 1
unfolding push_age
length-push_age e [] = omega arith
length-push_age e (t ∷ q) = ground (arith, length-push_age e q)

pub Listed-push_age :
    (x e : CandidateAge) (q : List CandidateAge) → Listed x (push_age e q) → (x ≡ e) ⊎ Listed x q
unfolding push_age
Listed-push_age x e [] l = l
Listed-push_age x e (t ∷ q) l = elim (Bool-cases (ltb_ℤ e.age t.age)) [
  | inr above ↦ rw above at l
  | inl below ↦
      let split : (x ≡ t) ⊎ Listed x (push_age e q) = rw below at l in
      elim split [
        | inl same ↦ inr (inl same)
        | inr more ↦ elim (Listed-push_age x e q more) [
          | inl new ↦ inl new
          | inr old ↦ inr (inr old)
        ]
      ]
]

pub push_age-Listed :
    (x e : CandidateAge) (q : List CandidateAge) → (x ≡ e) ⊎ Listed x q → Listed x (push_age e q)
unfolding push_age
push_age-Listed x e [] l = l
push_age-Listed x e (t ∷ q) l = elim (Bool-cases (ltb_ℤ e.age t.age)) [
  | inr above ↦ rw above l
  | inl below ↦ rw below (elim l [
    | inl new ↦ inr (push_age-Listed x e q (inl new))
    | inr old ↦ elim old [ inl same ↦ inl same | inr more ↦ inr (push_age-Listed x e q (inr more)) ]
  ])
]

pub AtMost-push_age :
    (a : ℤ) (e : CandidateAge) (q : List CandidateAge)
    → e.age ≤ℤ a
    → AtMost a q
    → AtMost a (push_age e q)
unfolding push_age
AtMost-push_age a e [] h m = (h, tt)
AtMost-push_age a e (t ∷ q) h m = ground (arith, AtMost-push_age a e q h m.1)

pub push_age-Falling :
    (e : CandidateAge) (q : List CandidateAge) → Falling q → Falling (push_age e q)
unfolding push_age
push_age-Falling e [] f = (tt, tt)
push_age-Falling e (t ∷ q) f = elim (Bool-cases (ltb_ℤ e.age t.age)) [
  | inl below ↦ rw below (AtMost-push_age t.age e q (ground arith) f.0, push_age-Falling e q f.1)
  | inr above ↦
      let h : t.age ≤ℤ e.age = ground arith in rw above ((h, AtMost-le t.age e.age q h f.0), f)
]

pub push_age-Apart :
    (e : CandidateAge) (q : List CandidateAge)
    → Apart q
    → ((x : CandidateAge) → Listed x q → x.id ≢ e.id)
    → Apart (push_age e q)
unfolding push_age
push_age-Apart e [] a h = ((λ x l. elim l [ ]), tt)
push_age-Apart e (t ∷ q) a h = elim (Bool-cases (ltb_ℤ e.age t.age)) [
  | inr above ↦ rw above (h, a)
  | inl below ↦ rw below (
    (λ x l. elim (Listed-push_age x e q l) [
      | inl new ↦ λ s. h t (inl refl) (sym s ∙ ap (λ (y : CandidateAge). y.id) new)
      | inr old ↦ a.0 x old
    ]),
    push_age-Apart e q a.1 (λ x l. h x (inr l)),
  )
]

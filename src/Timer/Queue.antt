-- ===== src/Timer/Queue.antt =====
-- `std::priority_queue` over `TimeOrderedEvent` with `std::greater`, as include/timer.h uses it:
-- the standard fixes which times come first, not the order of events of equal time. So the
-- queue is an interface; `list_queue` is one implementation.
use rappel.Base.{
  ℕ, ◌≡◌, refl, ◌∙◌, subst, ◌⊎◌, inl, inr, Bool, true, false, Option, none, some, List, [], ◌∷◌,
  arith, if◌then◌else◌, Bool-cases,
}
use rappel.Base.Int.{ℤ, ◌≤ℤ◌, ltb_ℤ}

pub record TimeOrderedEvent : Type 0 where
  pub id : ℕ
  pub whence : ℤ

pub record EventQueue : Type 1 where
  pub Queue : Type 0
  pub empty : Queue
  pub push : Queue → TimeOrderedEvent → Queue
  -- `top` and `pop`; `none` for an empty queue.
  pub pop : Queue → Option (TimeOrderedEvent × Queue)
  pub Has : Queue → TimeOrderedEvent → Type 0
  pub Has-empty : (u : TimeOrderedEvent) → ¬ Has empty u
  pub Has-push_self : (q : Queue) (t : TimeOrderedEvent) → Has (push q t) t
  pub Has-push_old : (q : Queue) (t u : TimeOrderedEvent) → Has q u → Has (push q t) u
  pub push_cases : (q : Queue) (t u : TimeOrderedEvent) → Has (push q t) u → (u ≡ t) ⊎ Has q u
  pub pop_none : (q : Queue) (u : TimeOrderedEvent) → pop q ≡ none → ¬ Has q u
  pub pop_top : (q r : Queue) (t : TimeOrderedEvent) → pop q ≡ some (t, r) → Has q t
  pub pop_rest : (q r : Queue) (t u : TimeOrderedEvent) → pop q ≡ some (t, r) → Has r u → Has q u
  pub pop_cases :
      (q r : Queue) (t u : TimeOrderedEvent) → pop q ≡ some (t, r) → Has q u → (u ≡ t) ⊎ Has r u
  pub pop_least :
      (q r : Queue) (t u : TimeOrderedEvent) → pop q ≡ some (t, r) → Has q u → t.whence ≤ℤ u.whence

-- A list in no order; `pop` looks for the first of the least times.
abbrev Mem : List TimeOrderedEvent → TimeOrderedEvent → Type 0
Mem [] u = ⊥
Mem (x ∷ xs) u = (u ≡ x) ⊎ Mem xs u

unfoldable pub extract :
    TimeOrderedEvent → List TimeOrderedEvent → TimeOrderedEvent × List TimeOrderedEvent
extract x [] = (x, [])
extract x (y ∷ ys) =
    let (least, rest) = extract (if ltb_ℤ y.whence x.whence then y else x) ys in
    (least, (if ltb_ℤ y.whence x.whence then x else y) ∷ rest)

unfoldable pub take_least :
    List TimeOrderedEvent → Option (TimeOrderedEvent × List TimeOrderedEvent)
unfolding extract
take_least [] = none
take_least (x ∷ xs) = some (extract x xs)

extract_cases :
    (x : TimeOrderedEvent) (xs : List TimeOrderedEvent) (u : TimeOrderedEvent)
    → Mem (x ∷ xs) u
    → (u ≡ (extract x xs).0) ⊎ Mem (extract x xs).1 u
unfolding extract
extract_cases x [] u h = h
extract_cases x (y ∷ ys) u h = elim (Bool-cases (ltb_ℤ y.whence x.whence)) [
  | inl e ↦ rw e (later (extract_cases y ys u) (swap h))
  | inr e ↦ rw e (later (extract_cases x ys u) (keep h))
]
  where
    later :
        {z w : TimeOrderedEvent} {A : Type 0}
        → (((u ≡ z) ⊎ Mem ys u) → (u ≡ w) ⊎ A)
        → {v : TimeOrderedEvent} → (u ≡ v) ⊎ ((u ≡ z) ⊎ Mem ys u)
        → (u ≡ w) ⊎ ((u ≡ v) ⊎ A)
    later f (inl e) = inr (inl e)
    later f (inr m) = elim (f m) [ inl e ↦ inl e | inr a ↦ inr (inr a) ]

    swap : Mem (x ∷ y ∷ ys) u → (u ≡ x) ⊎ ((u ≡ y) ⊎ Mem ys u)
    swap m = m

    keep : Mem (x ∷ y ∷ ys) u → (u ≡ y) ⊎ ((u ≡ x) ⊎ Mem ys u)
    keep (inl e) = inr (inl e)
    keep (inr (inl e)) = inl e
    keep (inr (inr m)) = inr (inr m)

-- What is in front of the rest, in either order.
abbrev front : TimeOrderedEvent → TimeOrderedEvent → Bool → TimeOrderedEvent
front x y b = if b then y else x

Mem_front :
    (b : Bool) (x y : TimeOrderedEvent) (ys : List TimeOrderedEvent) (u : TimeOrderedEvent)
    → Mem (front x y b ∷ ys) u
    → Mem (x ∷ y ∷ ys) u
Mem_front true x y ys u m = inr m
Mem_front false x y ys u (inl e) = inl e
Mem_front false x y ys u (inr m) = inr (inr m)

extract_top : (x : TimeOrderedEvent) (xs : List TimeOrderedEvent) → Mem (x ∷ xs) (extract x xs).0
unfolding extract
extract_top x [] = inl refl
extract_top x (y ∷ ys) =
    Mem_front (ltb_ℤ y.whence x.whence) x y ys _
      (extract_top (front x y (ltb_ℤ y.whence x.whence)) ys)

extract_rest :
    (x : TimeOrderedEvent) (xs : List TimeOrderedEvent) (u : TimeOrderedEvent)
    → Mem (extract x xs).1 u
    → Mem (x ∷ xs) u
unfolding extract
extract_rest x [] u h = absurd h
extract_rest x (y ∷ ys) u (inl e) = behind (ltb_ℤ y.whence x.whence) e
  where
    behind : (b : Bool) → u ≡ (if b then x else y) → Mem (x ∷ y ∷ ys) u
    behind true e = inl e
    behind false e = inr (inl e)
extract_rest x (y ∷ ys) u (inr m) =
    Mem_front (ltb_ℤ y.whence x.whence) x y ys u
      (extract_rest (front x y (ltb_ℤ y.whence x.whence)) ys u m)

extract-le :
    (x : TimeOrderedEvent) (xs : List TimeOrderedEvent) → (extract x xs).0.whence ≤ℤ x.whence
unfolding extract
extract-le x [] = omega arith
extract-le x (y ∷ ys) = ground (arith, extract-le (front x y (ltb_ℤ y.whence x.whence)) ys)

extract_least :
    (x : TimeOrderedEvent) (xs : List TimeOrderedEvent) (u : TimeOrderedEvent)
    → Mem (x ∷ xs) u
    → (extract x xs).0.whence ≤ℤ u.whence
unfolding extract
extract_least x xs u (inl e) = rw e (extract-le x xs)
extract_least x [] u (inr m) = absurd m
extract_least x (y ∷ ys) u (inr (inl e)) =
    rw e (ground (arith, extract-le (front x y (ltb_ℤ y.whence x.whence)) ys))
extract_least x (y ∷ ys) u (inr (inr m)) =
    extract_least (front x y (ltb_ℤ y.whence x.whence)) ys u (inr m)

pub take_none : (q : List TimeOrderedEvent) (u : TimeOrderedEvent) → take_least q ≡ none → ¬ Mem q u
unfolding take_least
take_none [] u e m = m
take_none (x ∷ xs) u e m = cc

pub take_top :
    (q r : List TimeOrderedEvent) (t : TimeOrderedEvent) → take_least q ≡ some (t, r) → Mem q t
unfolding take_least
take_top [] r t e = cc
take_top (x ∷ xs) r t e =
    let same : (extract x xs).0 ≡ t = cc in subst (Mem (x ∷ xs)) same (extract_top x xs)

pub take_rest :
    (q r : List TimeOrderedEvent) (t u : TimeOrderedEvent)
    → take_least q ≡ some (t, r)
    → Mem r u
    → Mem q u
unfolding take_least
take_rest [] r t u e m = cc
take_rest (x ∷ xs) r t u e m =
    let same : r ≡ (extract x xs).1 = cc in extract_rest x xs u (subst (λ l. Mem l u) same m)

pub take_cases :
    (q r : List TimeOrderedEvent) (t u : TimeOrderedEvent)
    → take_least q ≡ some (t, r)
    → Mem q u
    → (u ≡ t) ⊎ Mem r u
unfolding take_least
take_cases [] r t u e m = absurd m
take_cases (x ∷ xs) r t u e m =
    let top : (extract x xs).0 ≡ t = cc in
    let rest : (extract x xs).1 ≡ r = cc in
    elim (extract_cases x xs u m) [
      | inl i ↦ inl (i ∙ top)
      | inr i ↦ inr (subst (λ l. Mem l u) rest i)
    ]

pub take_min :
    (q r : List TimeOrderedEvent) (t u : TimeOrderedEvent)
    → take_least q ≡ some (t, r)
    → Mem q u
    → t.whence ≤ℤ u.whence
unfolding take_least
take_min [] r t u e m = absurd m
take_min (x ∷ xs) r t u e m =
    let top : (extract x xs).0 ≡ t = cc in
    subst (λ z. z.whence ≤ℤ u.whence) top (extract_least x xs u m)

abbrev pub list_queue : EventQueue
list_queue = record {
  Queue = List TimeOrderedEvent;
  empty = [];
  push = λ q t. t ∷ q;
  pop = take_least;
  Has = Mem;
  Has-empty = λ u m. m;
  Has-push_self = λ q t. inl refl;
  Has-push_old = λ q t u m. inr m;
  push_cases = λ q t u m. m;
  pop_none = take_none;
  pop_top = take_top;
  pop_rest = take_rest;
  pop_cases = take_cases;
  pop_least = take_min;
}

-- ===== src/Coordinate/Updates.antt =====
-- src/coordinate.cpp: `update` moves the system coordinates with each sample, and the
-- application's coordinates change only with the version.
use rappel.Base.{
  ℕ, ◌≡◌, refl, ◌⊎◌, inl, inr, Bool, true, false, List, [], ◌∷◌, ltb, Bool-cases, Result, ok, ◌>>=◌,
}
use rappel.Base.Word.{add32}
use rappel.Messages.{Coordinate}
use rappel.Coordinate.{
  Doubles, CoordinateOptions, OwnCoordinate, nought, min_double, norm_loop, minus, vector_norm,
  vector_dist, direction, pulled, sync, update,
}

module _ (d : Doubles) where
  -- Not NaN, which differs from itself.
  abbrev pub Number : ℕ → Type 0
  Number x = d.same x x ≡ true

  -- Neither NaN nor an infinity, whose difference from itself is NaN.
  abbrev pub Finite : ℕ → Type 0
  Finite x = Number (d.sub x x)

  abbrev pub Each : (ℕ → Type 0) → List ℕ → Type 0
  Each P [] = Unit
  Each P (x ∷ xs) = P x × Each P xs

  abbrev pub Numbers : List (List ℕ) → Type 0
  Numbers [] = Unit
  Numbers (v ∷ vs) = Each Number v × Numbers vs

-- What IEEE 754 promises of a comparison, a difference, a square, a sum and a root. A comparison
-- with NaN is false, so that `nought` is at most no NaN.
pub record IsSound (d : Doubles) : Type 0 where
  pub less_asym : (a b : ℕ) → d.less a b ≡ true → d.less b a ≡ false
  pub zero_least : d.at_most (nought d) (nought d) ≡ true
  pub difference : (a b : ℕ) → Finite d a → Finite d b → Number d (d.sub a b)
  pub square : (a : ℕ) → Number d a → d.at_most (nought d) (d.mul a a) ≡ true
  pub sum :
      (a b : ℕ)
      → d.at_most (nought d) a ≡ true
      → d.at_most (nought d) b ≡ true
      → d.at_most (nought d) (d.add a b) ≡ true
  pub root :
      (x : ℕ)
      → d.at_most (nought d) x ≡ true
      → d.same (d.sqrt x) (nought d) ≡ false
      → d.less (nought d) (d.sqrt x) ≡ true

module _ (d : Doubles) where
  abbrev pub norm_of : List ℕ → ℕ
  norm_of a = d.sqrt (norm_loop d a (nought d))

  -- One of the vectors drawn has a length.
  abbrev pub Moves : List (List ℕ) → Type 0
  Moves [] = ⊥
  Moves (v ∷ vs) = (d.same (norm_of v) (nought d) ≡ false) ⊎ Moves vs

  -- What `update` returns: whether the coordinates that are sent have changed, and all of them.
  abbrev pub Updated : CoordinateOptions → OwnCoordinate → Bool → Bool → OwnCoordinate → Type 0
  Updated o c force_sync changed c' =
      (changed ≡ true → (c'.app_coords ≡ c'.sys_coords) × (c'.version ≡ add32 c.version 1))
      × (changed ≡ false
          → (c'.app_coords ≡ c.app_coords)
            × (c'.version ≡ c.version)
            × (d.at_most o.sys_delta (norm_of (minus d c'.sys_coords c.app_coords)) ≡ false))
      × (force_sync ≡ true → changed ≡ true)
      × (d.less o.lambda_min c'.lambda ≡ false)

module _ (d : Doubles) (laws : IsSound d) where
  norm_loop-least :
      (a : List ℕ) (start : ℕ)
      → Each d (Number d) a
      → d.at_most (nought d) start ≡ true
      → d.at_most (nought d) (norm_loop d a start) ≡ true
  unfolding norm_loop
  norm_loop-least [] start numbers above = above
  norm_loop-least (x ∷ xs) start numbers above =
      norm_loop-least xs (d.add start (d.mul x x)) numbers.1
        (laws.sum start (d.mul x x) above (laws.square x numbers.0))

  squares :
      (a : List ℕ) → Each d (Number d) a → d.at_most (nought d) (norm_loop d a (nought d)) ≡ true
  squares a numbers = norm_loop-least a (nought d) numbers laws.zero_least

  minus-Number :
      (a b : List ℕ) → Each d (Finite d) a → Each d (Finite d) b → Each d (Number d) (minus d a b)
  minus-Number [] b fa fb = tt
  minus-Number (x ∷ xs) [] fa fb = tt
  minus-Number (x ∷ xs) (y ∷ ys) fa fb =
      (laws.difference x y fa.0 fb.0, minus-Number xs ys fa.1 fb.1)

  vector_norm_total : (a : List ℕ) → Each d (Number d) a → vector_norm d a ≡ ok (norm_of d a)
  unfolding vector_norm
  vector_norm_total a numbers = rw (squares a numbers) refl

  vector_dist_total :
      (a b : List ℕ)
      → Each d (Finite d) a
      → Each d (Finite d) b
      → vector_dist d a b ≡ ok (norm_of d (minus d a b))
  unfolding vector_dist
  vector_dist_total a b fa fb = vector_norm_total (minus d a b) (minus-Number a b fa fb)

  abbrev Found : Result (List ℕ × ℕ) → Type 0
  Found r = (p : List ℕ × ℕ) × (r ≡ ok p) × (d.less (nought d) p.1 ≡ true)

  direction_stops :
      (dir start : List ℕ) (draws : List (List ℕ))
      → Each d (Number d) start
      → d.same (norm_of d start) (nought d) ≡ false
      → Found (direction d dir (norm_of d start) draws)
  unfolding direction
  direction_stops dir start [] n long =
      rw long ((dir, norm_of d start), refl, laws.root _ (squares start n) long)
  direction_stops dir start (v ∷ vs) n long =
      rw long ((dir, norm_of d start), refl, laws.root _ (squares start n) long)

  -- The loop ends, with a direction that has a length.
  direction_total :
      (dir start : List ℕ) (draws : List (List ℕ))
      → Each d (Number d) start
      → Numbers d draws
      → Moves d draws
      → Found (direction d dir (norm_of d start) draws)
  unfolding direction
  direction_total dir start [] n numbers m = elim m [ ]
  direction_total dir start (v ∷ vs) n numbers m =
      elim (Bool-cases (d.same (norm_of d start) (nought d))) [
        | inr long ↦ direction_stops dir start (v ∷ vs) n long
        | inl short ↦
            rw (short, vector_norm_total v numbers.0)
              (elim m [
                | inl long ↦ direction_stops v v vs numbers.0 long
                | inr more ↦ direction_total v v vs numbers.0 numbers.1 more
              ])
      ]

  min_double-le : (a b : ℕ) → d.less a (min_double d a b) ≡ false
  min_double-le a b = elim (Bool-cases (d.less b a)) [
    | inl e ↦ rw e (laws.less_asym b a e)
    | inr e ↦ elim (Bool-cases (d.less a a)) [
      | inl f ↦ rw e (laws.less_asym a a f)
      | inr f ↦ rw e f
    ]
  ]

  module _ (o : CoordinateOptions) (c : OwnCoordinate) (other : Coordinate) (latency : ℕ)
      (draws : List (List ℕ)) where
    -- A sample moves the system coordinates only.
    abbrev Moved : OwnCoordinate → Type 0
    Moved c' =
        (c'.app_coords ≡ c.app_coords)
        × (c'.version ≡ c.version)
        × (c'.lambda ≡ min_double d o.lambda_min (d.sub c.lambda o.lambda_decr))

    pulled_total :
        Each d (Finite d) other.app_coords
        → Each d (Finite d) c.sys_coords
        → Numbers d draws
        → Moves d draws
        → (c' : OwnCoordinate) × (pulled d o c other latency draws ≡ ok c') × Moved c'
    unfolding pulled
    pulled_total there here numbers m =
        let apart : Each d (Number d) (minus d other.app_coords c.sys_coords) =
          minus-Number other.app_coords c.sys_coords there here in
        let (p, e, long) =
          direction_total (minus d other.app_coords c.sys_coords)
            (minus d other.app_coords c.sys_coords) draws apart numbers m in
        rw
          (
            vector_norm_total (minus d other.app_coords c.sys_coords) apart,
            e,
            long,
            vector_dist_total other.app_coords c.sys_coords there here,
          )
          (_, refl, (refl, refl, refl))

    small : (c' : OwnCoordinate) → Moved c' → d.less o.lambda_min c'.lambda ≡ false
    small c' (app, version, lambda) =
        rw lambda (min_double-le o.lambda_min (d.sub c.lambda o.lambda_decr))

    synced :
        (force_sync : Bool) (c' : OwnCoordinate)
        → Moved c'
        → ltb 0 c.version ≡ true
        → (r : Bool × OwnCoordinate) × ((sync c' >>= λ c''. ok (true, c'')) ≡ ok r)
          × Updated d o c force_sync r.0 r.1
    unfolding sync
    synced force_sync c' moved v =
        rw (moved.1, v) (_, refl, ((λ _. (refl, refl)), (λ f. cc), (λ _. refl), small c' moved))

    -- For a latency above zero, coordinates that have a version, and draws without NaN of which one
    -- has a length: where the coordinates of both nodes are finite and those that the sample moves
    -- stay so, `update` fails no assertion and ends. It says that the coordinates have changed
    -- exactly where they are set to the system coordinates, under the next version; it must if it
    -- is told to; else they and the version are as they were, and the system coordinates are less
    -- than the threshold away from them. The damping factor is then at most the option that is
    -- named its minimum. Of the doubles it takes what IEEE 754 promises.
    pub update_lem :
        (force_sync : Bool)
        → d.less (nought d) latency ≡ true
        → ltb 0 c.version ≡ true
        → Each d (Finite d) other.app_coords
        → Each d (Finite d) c.sys_coords
        → Each d (Finite d) c.app_coords
        → Numbers d draws
        → Moves d draws
        → ((c' : OwnCoordinate)
            → pulled d o c other latency draws ≡ ok c'
            → Each d (Finite d) c'.sys_coords)
        → (r : Bool × OwnCoordinate) × (update d o c other latency force_sync draws ≡ ok r)
          × Updated d o c force_sync r.0 r.1
    unfolding update
    update_lem force_sync lat v there here sent numbers m stay =
        let (c', e, moved) = pulled_total there here numbers m in
        go force_sync c' e moved
          (vector_dist_total c'.sys_coords c'.app_coords (stay c' e) (rw (moved.0) sent))
      where
        go :
            (force : Bool) (c' : OwnCoordinate)
            → pulled d o c other latency draws ≡ ok c'
            → Moved c'
            → vector_dist d c'.sys_coords c'.app_coords
              ≡ ok (norm_of d (minus d c'.sys_coords c'.app_coords))
            → (r : Bool × OwnCoordinate) × (update d o c other latency force draws ≡ ok r)
              × Updated d o c force r.0 r.1
        go true c' e moved far = rw (lat, v, e) (synced true c' moved v)
        go false c' e moved far =
            rw (lat, v, e, far)
              (elim (Bool-cases
                (d.at_most o.sys_delta (norm_of d (minus d c'.sys_coords c'.app_coords)))) [
                  | inl far ↦ rw far (synced false c' moved v)
                  | inr near ↦ rw near (
                    (false, c'),
                    refl,
                    (
                      (λ f. cc),
                      (λ _. (moved.0, moved.1, rw (← moved.0) near)),
                      (λ f. cc),
                      small c' moved,
                    ),
                  )
                ])

-- ===== src/Coordinate.antt =====
-- src/coordinate.cpp and include/coordinate.h: the network coordinates of a node. The system
-- coordinates move with each sample; the application's, which are sent to other nodes, are set to
-- them from time to time, under a new version. The virtual coordinates are only printed.
-- A `double` stands as its bits and its operations are a parameter. A vector has
-- `globops.nc_dims` elements.
pub mod Updates
pub mod Fixture
mod Tests
use rappel.Base.{
  ℕ, Bool, true, false, ◌||◌, List, [], ◌∷◌, ltb, ◌==◌, if◌then◌else◌, Result, ok, failed, ◌>>=◌,
  ◌>>◌, assert, bad_latency, no_version, bad_sum, out_of_draws,
}
use rappel.Base.Word.{add32}
use rappel.Messages.{Coordinate}

-- What the code does with a `double`; `leb` and `ltb` are false where a NaN is compared.
pub record Doubles : Type 0 where
  pub of_uint : ℕ → ℕ
  pub add : ℕ → ℕ → ℕ
  pub sub : ℕ → ℕ → ℕ
  pub mul : ℕ → ℕ → ℕ
  pub div : ℕ → ℕ → ℕ
  pub sqrt : ℕ → ℕ
  pub less : ℕ → ℕ → Bool
  pub at_most : ℕ → ℕ → Bool
  pub same : ℕ → ℕ → Bool

-- The fields of `globops` that the coordinates read.
pub record CoordinateOptions : Type 0 where
  pub lambda_init : ℕ
  pub lambda_min : ℕ
  pub lambda_decr : ℕ
  pub sys_delta : ℕ

pub record OwnCoordinate : Type 0 where
  pub lambda : ℕ
  pub sys_coords : List ℕ
  pub app_coords : List ℕ
  pub version : ℕ

-- The part of it that other nodes see.
abbrev pub sent : OwnCoordinate → Coordinate
sent c = record { app_coords = c.app_coords; version = c.version }

unfoldable pub init : OwnCoordinate → Result OwnCoordinate
init c = do assert (c.version == 0) no_version; ok (record c { version = 1 })

unfoldable pub sync : OwnCoordinate → Result OwnCoordinate
sync c = do
  assert (ltb 0 c.version) no_version
  ok (record c { app_coords = c.sys_coords; version = add32 c.version 1 })

module _ (d : Doubles) where
  open d use {of_uint, add, sub, mul, div, sqrt, less, at_most, same}

  abbrev pub nought : ℕ
  nought = of_uint 0

  -- `std::min`.
  abbrev pub min_double : ℕ → ℕ → ℕ
  min_double a b = if less b a then b else a

  unfoldable pub zeros : ℕ → List ℕ
  zeros ℕ.zero = []
  zeros (ℕ.suc n) = nought ∷ zeros n

  unfoldable pub new_coordinate : CoordinateOptions → ℕ → OwnCoordinate
  new_coordinate o dims = record {
    lambda = o.lambda_init;
    sys_coords = zeros dims;
    app_coords = zeros dims;
    version = 0;
  }

  -- The loops of `vector_norm` and `vector_dist`; `pow(a, 2)` is `a * a`.
  unfoldable pub norm_loop : List ℕ → ℕ → ℕ
  norm_loop [] sum = sum
  norm_loop (x ∷ xs) sum = norm_loop xs (add sum (mul x x))

  abbrev pub minus : List ℕ → List ℕ → List ℕ
  minus (x ∷ xs) (y ∷ ys) = sub x y ∷ minus xs ys
  minus _ _ = []

  unfoldable pub vector_norm : List ℕ → Result ℕ
  vector_norm a = do
    let sum = norm_loop a nought
    assert (at_most nought sum) bad_sum
    ok (sqrt sum)

  unfoldable pub vector_dist : List ℕ → List ℕ → Result ℕ
  unfolding vector_norm
  vector_dist a b = vector_norm (minus a b)

  unfoldable pub get_distance : Coordinate → Coordinate → Result ℕ
  get_distance c c' = do
    assert (ltb 0 c.version) no_version
    assert (ltb 0 c'.version) no_version
    vector_dist c.app_coords c'.app_coords

  -- The loop that gives two nodes in one place a random direction, on the vectors that the
  -- generator draws; it ends when one of them has a length.
  unfoldable pub direction : List ℕ → ℕ → List (List ℕ) → Result (List ℕ × ℕ)
  direction dir length [] = if same length nought then failed out_of_draws else ok (dir, length)
  direction dir length (drawn ∷ more) =
      let again = (do length' ← vector_norm drawn; direction drawn length' more) in
      if same length nought then again else ok (dir, length)

  -- `dir[i] /= dir_length` and `_sys_coords[i] += dir[i] * (diff * _lambda)`.
  abbrev pub unit_vector : List ℕ → ℕ → List ℕ
  unit_vector [] length = []
  unit_vector (x ∷ xs) length = div x length ∷ unit_vector xs length

  unfoldable pub moved : List ℕ → List ℕ → ℕ → List ℕ
  moved (x ∷ xs) (y ∷ ys) force = add x (mul y force) ∷ moved xs ys force
  moved xs _ force = xs

  -- The coordinates after the force of one sample.
  unfoldable pub pulled :
      CoordinateOptions → OwnCoordinate → Coordinate → ℕ → List (List ℕ) → Result OwnCoordinate
  pulled o c other latency draws = do
    length ← vector_norm (minus other.app_coords c.sys_coords)
    dir ← direction (minus other.app_coords c.sys_coords) length draws
    assert (less nought dir.1) bad_sum
    dist ← vector_dist other.app_coords c.sys_coords
    let lambda = min_double o.lambda_min (sub c.lambda o.lambda_decr)
    let force = mul (sub dist latency) lambda
    ok (record c {
      lambda = lambda;
      sys_coords = moved c.sys_coords (unit_vector dir.0 dir.1) force;
    })

  -- Whether the application's coordinates have changed, and the coordinates. `>=` is `<=` turned
  -- round, and `||` does not look at the distance if the sync is forced.
  unfoldable pub update :
      CoordinateOptions
      → OwnCoordinate
      → Coordinate
      → ℕ
      → Bool
      → List (List ℕ)
      → Result (Bool × OwnCoordinate)
  update o c other latency force_sync draws = do
    assert (less nought latency) bad_latency
    assert (ltb 0 c.version) no_version
    c' ← pulled o c other latency draws
    far ←
        if force_sync
        then ok true
        else (vector_dist c'.sys_coords c'.app_coords >>= λ dist. ok (at_most o.sys_delta dist))
    if far then (sync c' >>= λ c''. ok (true, c'')) else ok (false, c')

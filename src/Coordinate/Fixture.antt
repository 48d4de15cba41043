-- ===== src/Coordinate/Fixture.antt =====
-- Whole milliseconds for the doubles, to test what computes with coordinates.
use rappel.Base.{ℕ, zero, suc, ◌+◌, ◌-◌, ◌*◌, ◌/◌, ltb, leb, ◌==◌, if◌then◌else◌}
use rappel.Coordinate.{Doubles}

abbrev pub root_from : ℕ → ℕ → ℕ
root_from zero n = 0
root_from (suc k) n = if leb (suc k * suc k) n then suc k else root_from k n

abbrev pub whole : Doubles
whole = record {
  of_uint = λ n. n;
  add = ◌+◌;
  sub = ◌-◌;
  mul = ◌*◌;
  div = ◌/◌;
  sqrt = λ n. root_from n n;
  less = ltb;
  at_most = leb;
  same = ◌==◌;
}

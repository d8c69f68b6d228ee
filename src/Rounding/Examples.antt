-- ===== src/Rounding/Examples.antt =====
-- The engine on a toy number type: natural numbers of quarters.
use transisi_db.Prelude.{
  ℕ, ◌+◌, ◌*◌, ◌/◌, ◌-◌, ◌%◌, ◌≡◌, ◌≢◌, refl, ℤ, pos, negsuc, ltb, arith, ap, length,
}
use transisi_db.Config.{arithmetic_round, bankers_round}
use transisi_db.Rounding.{
  Float, Engine, convert_idr_to_idn, round_value, bankers_round_value, half_to_even, multiplier,
}
use transisi_db.Rounding.Ties.{Grid, IsNearest, scaled, convert_idr_to_idn-IsNearest}

abbrev of_integer : ℤ → ℕ
of_integer (pos n) = 4 * n
of_integer (negsuc n) = 0

abbrev power : ℕ → ℕ
power p = 4

-- The two constants are the half.
abbrev pub quarters : Float ℕ
quarters = record {
  of_int = of_integer;
  to_int64 = λ x. pos (x / 4);
  pow10 = power;
  mul = λ x y. x * y / 4;
  div = λ x y. x * 4 / y;
  sub = λ x y. x - y;
  less = ltb;
  floor = λ x. x / 4 * 4;
  ceil = λ x. (x + 3) / 4 * 4;
  round = λ x. (x + 2) / 4 * 4;
  below_half = 2;
  above_half = 2;
}

abbrev engine : Engine
engine = record { strategy = bankers_round; precision = pos 0 }

-- 5 / 2 and 7 / 2
two_and_a_half : convert_idr_to_idn quarters engine (pos 5) (pos 2) ≡ 8
unfolding convert_idr_to_idn round_value bankers_round_value half_to_even
two_and_a_half = refl

three_and_a_half : convert_idr_to_idn quarters engine (pos 7) (pos 2) ≡ 16
unfolding convert_idr_to_idn round_value bankers_round_value half_to_even
three_and_a_half = refl

bankers_not_arithmetic : bankers_round ≢ arithmetic_round
bankers_not_arithmetic e = omega (arith, ap length e)

abbrev size : ℤ → ℕ
size (pos n) = n
size (negsuc n) = 0

below_one : (x : ℕ) → pos (x / 4) ≡ pos 0 → x % 4 ≡ x
below_one x h = let z = ap size h in omega (arith, z)

less-below_one :
    (x y : ℕ) → pos (x / 4) ≡ pos 0 → pos (y / 4) ≡ pos 0 → ltb x y ≡ ltb (x % 4) (y % 4)
less-below_one x y a b = rw (below_one x a) (rw (below_one y b) refl)

abbrev quarter_grid : Grid quarters
quarter_grid = record {
  half = 2;
  slack = 0;
  InRange = λ x. Unit;
  whole = λ x. pos (x / 4);
  rest = λ x. x % 4;
  slack_le = omega arith;
  rest_lt = λ x. omega arith;
  whole-floor = λ x _. ap pos (omega arith);
  rest-floor = λ x _. omega arith;
  whole-ceil = λ x _ h. ap pos (omega (arith, h));
  rest-ceil = λ x _. omega arith;
  to_int64-floor = λ x _. ap pos (omega arith);
  whole-sub = λ x _. ap pos (omega arith);
  rest-sub = λ x _. omega arith;
  less_lem = less-below_one;
  whole-below_half = refl;
  whole-above_half = refl;
  below_positive = omega arith;
  below_le = omega arith;
  below_close = omega arith;
  above_ge = omega arith;
  above_close = omega arith;
}

convert_idr_to_idn-IsNearest_example :
    (n : ℕ) × (convert_idr_to_idn quarters engine (pos 7) (pos 2)
      ≡ n * 4 / multiplier quarters engine)
    × IsNearest quarters quarter_grid (scaled quarters engine (pos 7) (pos 2)) n
convert_idr_to_idn-IsNearest_example =
    convert_idr_to_idn-IsNearest quarters quarter_grid engine (pos 7) (pos 2) bankers_not_arithmetic
      tt

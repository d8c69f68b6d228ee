-- ===== src/Rounding.antt =====
-- internal/rounding/engine.go: the conversion of an amount and its rounding. Floating point numbers
-- and package math are a parameter.
pub mod Ties
pub mod Examples
use transisi_db.Prelude.{ℕ, Bool, ◌+◌, ◌%◌, Name, ℤ, pos, negsuc, bytes_eq, ◌==◌, if◌then◌else◌}
use transisi_db.Config.{arithmetic_round, bankers_round}

-- What the engine uses of float64; `below_half` and `above_half` are its constants 0.5-1e-9 and
-- 0.5+1e-9.
pub record Float (F : Type 0) : Type 0 where
  pub of_int : ℤ → F
  pub to_int64 : F → ℤ
  pub pow10 : F → F
  pub mul : F → F → F
  pub div : F → F → F
  pub sub : F → F → F
  pub less : F → F → Bool
  pub floor : F → F
  pub ceil : F → F
  pub round : F → F
  pub below_half : F
  pub above_half : F

pub record Engine : Type 0 where
  pub strategy : Name
  pub precision : ℤ

-- `n % 2 == 0`
abbrev pub is_even : ℤ → Bool
is_even (pos n) = n % 2 == 0
is_even (negsuc n) = (n + 1) % 2 == 0

module _ {F : Type 0} (fl : Float F) where
  -- `math.Pow(10, float64(e.precision))`
  abbrev pub multiplier : Engine → F
  multiplier e = fl.pow10 (fl.of_int e.precision)

  -- The integer that `adjusted` becomes.
  unfoldable pub half_to_even : F → F
  half_to_even adjusted =
      let floor = fl.floor adjusted in
      let ceil = fl.ceil adjusted in
      let fraction = fl.sub adjusted floor in
      if fl.less fraction fl.below_half
      then floor
      else if fl.less fl.above_half fraction
      then ceil
      else if is_even (fl.to_int64 floor)
      then floor
      else ceil

  unfoldable pub bankers_round_value : Engine → F → F
  unfolding half_to_even
  bankers_round_value e value = fl.div (half_to_even (fl.mul value (multiplier e))) (multiplier e)

  unfoldable pub arithmetic_round_value : Engine → F → F
  arithmetic_round_value e value = fl.div (fl.round (fl.mul value (multiplier e))) (multiplier e)

  unfoldable pub round_value : Engine → F → F
  unfolding bankers_round_value arithmetic_round_value
  round_value e value =
      if bytes_eq e.strategy bankers_round
      then bankers_round_value e value
      else if bytes_eq e.strategy arithmetic_round
      then arithmetic_round_value e value
      else bankers_round_value e value

  unfoldable pub convert_idr_to_idn : Engine → ℤ → ℤ → F
  unfolding round_value
  convert_idr_to_idn e idr_value ratio =
      round_value e (fl.div (fl.of_int idr_value) (fl.of_int ratio))

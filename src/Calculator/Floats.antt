-- ===== src/Calculator/Floats.antt =====
-- The floating-point numbers that src/modes/calculator.cpp computes with: a `double` is of a type
-- `D`, and what the code takes from <cmath> and from the conversions of text are operations on it.
use waylaunch.Prelude.{Bool, Option, none, some}
use waylaunch.Prelude.Tests.{if◌then◌else◌}
use waylaunch.Prelude.Text.{Text, codes, text_eq}

pub data MathFunction : Type 0 where
  sin cos tan asin acos atan sqrt cbrt log10 log exp abs ceil floor round : MathFunction

pub record Floats {ℓ} (D : Type ℓ) : Type ℓ where
  pub plus : D → D → D
  pub minus : D → D → D
  pub times : D → D → D
  pub over : D → D → D
  pub pow : D → D → D
  pub negated : D → D
  pub equal : D → D → Bool
  pub below : D → D → Bool
  pub zero : D
  pub one : D
  pub straight : D
  pub limit : D
  pub pi : D
  pub e : D
  pub phi : D
  pub infinity : D
  pub not_a_number : D
  pub math : MathFunction → D → D
  -- `std::stod`: `none` where it throws.
  pub stod : Text → Option D
  -- The `double` of the `int64_t` of a number, and how that and the number itself are printed.
  pub whole : D → D
  pub print_whole : D → Text
  pub print : D → Text

unfoldable pub sign {ℓ} : {D : Type ℓ} → Floats D → D → D
sign F arg =
    if F.below F.zero arg then F.one else if F.below arg F.zero then F.negated F.one else F.zero

module _ {ℓ} {D : Type ℓ} (F : Floats D) (degrees : Bool) where
  abbrev of_angle : MathFunction → D → D
  of_angle f arg = if degrees then F.math f (F.over (F.times arg F.pi) F.straight) else F.math f arg

  abbrev to_angle : MathFunction → D → D
  to_angle f arg = if degrees then F.over (F.times (F.math f arg) F.straight) F.pi else F.math f arg

  unfoldable pub function_of : Text → Option (D → D)
  unfolding sign
  function_of func =
      if text_eq func (codes "sin")
      then some (of_angle MathFunction.sin)
      else if text_eq func (codes "cos")
      then some (of_angle MathFunction.cos)
      else if text_eq func (codes "tan")
      then some (of_angle MathFunction.tan)
      else if text_eq func (codes "asin")
      then some (to_angle MathFunction.asin)
      else if text_eq func (codes "acos")
      then some (to_angle MathFunction.acos)
      else if text_eq func (codes "atan")
      then some (to_angle MathFunction.atan)
      else if text_eq func (codes "sqrt")
      then some (F.math MathFunction.sqrt)
      else if text_eq func (codes "cbrt")
      then some (F.math MathFunction.cbrt)
      else if text_eq func (codes "log")
      then some (F.math MathFunction.log10)
      else if text_eq func (codes "ln")
      then some (F.math MathFunction.log)
      else if text_eq func (codes "exp")
      then some (F.math MathFunction.exp)
      else if text_eq func (codes "abs")
      then some (F.math MathFunction.abs)
      else if text_eq func (codes "ceil")
      then some (F.math MathFunction.ceil)
      else if text_eq func (codes "floor")
      then some (F.math MathFunction.floor)
      else if text_eq func (codes "round")
      then some (F.math MathFunction.round)
      else if text_eq func (codes "sign")
      then some (sign F)
      else none

unfoldable pub constant_of {ℓ} : {D : Type ℓ} → Floats D → Text → Option D
constant_of F func =
    if text_eq func (codes "pi")
    then some F.pi
    else if text_eq func (codes "e")
    then some F.e
    else if text_eq func (codes "phi")
    then some F.phi
    else if text_eq func (codes "inf")
    then some F.infinity
    else if text_eq func (codes "nan")
    then some F.not_a_number
    else none

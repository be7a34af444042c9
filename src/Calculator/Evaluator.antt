-- ===== src/Calculator/Evaluator.antt =====
-- Calculator::evaluate and is_calculator_query of src/modes/calculator.cpp.
use waylaunch.Prelude.{◌+◌, Bool, true, false, ◌||◌, ◌&&◌, Option, none, some, List, [], ◌∷◌}
use waylaunch.Prelude.Tests.{◌==◌, if◌then◌else◌}
use waylaunch.Prelude.Lists.{length, is_empty}
use waylaunch.Prelude.Text.{Text, codes, to_lower_text}
use waylaunch.Calculator.Floats.{Floats, MathFunction}
use waylaunch.Calculator.Parser.{parse_factor, parse_expression}

pub record Result {ℓ} (D : Type ℓ) : Type ℓ where
  pub valid : Bool
  pub expression : Text
  pub result : Text
  pub numeric_result : D

module _ {ℓ} {D : Type ℓ} (F : Floats D) where
  abbrev pub no_result : Text → Result D
  no_result expression = record {
    valid = false;
    expression = expression;
    result = [];
    numeric_result = F.zero;
  }

  unfoldable pub format_result : D → Text
  format_result value =
      if F.equal value (F.whole value) && F.below (F.math MathFunction.abs value) F.limit
      then F.print_whole value
      else F.print value

  abbrev pub result_of : Text → Option D → Result D
  result_of expression none = no_result expression
  result_of expression (some value) = record {
    valid = true;
    expression = expression;
    result = format_result value;
    numeric_result = value;
  }

  abbrev value_of : Option (D × Text) → Option D
  value_of none = none
  value_of (some (v, s)) = some v

  unfoldable pub evaluate : Bool → Text → Result D
  unfolding format_result
  evaluate degrees [] = no_result []
  evaluate degrees (c ∷ s) =
      result_of (c ∷ s) (
        value_of (parse_expression F degrees (parse_factor F degrees (length (c ∷ s) + 1)) (c ∷ s)))

unfoldable pub has_operator : Text → Bool
has_operator [] = false
has_operator (c ∷ s) =
    if c == b'+'
      || (c == b'-' || (c == b'*' || (c == b'/' || (c == b'^' || (c == b'(' || c == b')')))))
    then true
    else has_operator s

-- `std::string::find`.
unfoldable pub starts_with : Text → Text → Bool
starts_with [] s = true
starts_with (c ∷ w) [] = false
starts_with (c ∷ w) (d ∷ s) = if c == d then starts_with w s else false

unfoldable pub occurs : Text → Text → Bool
occurs w [] = starts_with w []
occurs w (c ∷ s) = if starts_with w (c ∷ s) then true else occurs w s

unfoldable pub any_occurs : List Text → Text → Bool
any_occurs [] s = false
any_occurs (w ∷ ws) s = if occurs w s then true else any_occurs ws s

abbrev pub funcs : List Text
funcs =
    codes "sin"
    ∷ codes "cos"
    ∷ codes "tan"
    ∷ codes "asin"
    ∷ codes "acos"
    ∷ codes "atan"
    ∷ codes "sqrt"
    ∷ codes "cbrt"
    ∷ codes "log"
    ∷ codes "ln"
    ∷ codes "exp"
    ∷ codes "abs"
    ∷ codes "ceil"
    ∷ codes "floor"
    ∷ codes "round"
    ∷ codes "sign"
    ∷ codes "pi"
    ∷ codes "e"
    ∷ []

unfoldable pub is_calculator_query : Text → Bool
is_calculator_query query =
    if is_empty query
    then false
    else if has_operator query
    then true
    else any_occurs funcs (to_lower_text query)

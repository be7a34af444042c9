-- ===== src/Tests/Calculator.antt =====
-- The calculator with whole numbers for the floating-point ones.
use waylaunch.Prelude.{arith, ◌^◌, ◌≡◌, refl, false, ◌++◌}
use waylaunch.Prelude.Tests.{◌>>=◌}
use waylaunch.Prelude.Int.{ℤ, pos, negsuc, ◌+ℤ◌, ◌-ℤ◌, ◌*ℤ◌, ◌/ℤ◌, ltb_ℤ, eq_ℤ}
use waylaunch.Prelude.Text.{codes, text_eq, is_space, to_lower, to_lower_text}
use waylaunch.Prelude.Decimal.{
  strtol, show_ℤ, read_int, signed, unsigned, skip_spaces, read_digits, is_digit,
}
use waylaunch.Calculator.Floats.{Floats, MathFunction, constant_of, function_of, sign}
use waylaunch.Calculator.Parser.{
  is_alpha, is_numeral, span, behind_byte, closed, is_product, is_sum, multiplied, added, number_at,
  call_value, term_loop, parse_term, expression_loop, parse_expression, negated_factor, group, call,
  named, name_at, factor_at, parse_factor,
}
use waylaunch.Calculator.Evaluator.{evaluate, result_of, format_result}
use waylaunch.Calculator.Grammar.{
  AddOp, MulOp, Function, Factor, Term, Products, Sums, print_term, print_sums, value_term,
  value_sums,
}
use waylaunch.Calculator.Meaning.{evaluate-value}
use waylaunch.Calculator.Fuel.{Shorter}
use waylaunch.Calculator.Termination.{parse_expression-enough}

abbrev power : ℤ → ℤ → ℤ
power (pos a) (pos b) = pos (a ^ b)
power a b = pos 0

abbrev whole_numbers : Floats ℤ
whole_numbers = record {
  plus = ◌+ℤ◌;
  minus = ◌-ℤ◌;
  times = ◌*ℤ◌;
  over = λ a b. elim b [ pos n ↦ a /ℤ n | negsuc n ↦ a ];
  pow = power;
  negated = λ a. pos 0 -ℤ a;
  equal = eq_ℤ;
  below = ltb_ℤ;
  zero = pos 0;
  one = pos 1;
  straight = pos 180;
  limit = pos 1_000_000_000_000_000;
  pi = pos 3;
  e = pos 3;
  phi = pos 2;
  infinity = pos 9_000_000_000_000_000;
  not_a_number = pos 0;
  math = λ f a. a;
  stod = strtol;
  whole = λ a. a;
  print_whole = show_ℤ;
  print = show_ℤ;
}

-- 2*3^2-abs(7/0)
abbrev first_term : Term
first_term = Term.term (Factor.number 2) (
    Products.product MulOp.times (Factor.number 3)
      (Products.product MulOp.power (Factor.number 2) Products.no_products))

abbrev less_abs : Sums
less_abs =
    Sums.sum AddOp.minus
      (Term.term
        (Factor.apply (Function.math MathFunction.abs)
          (Term.term (Factor.number 7)
            (Products.product MulOp.over (Factor.number 0) Products.no_products))
          Sums.no_sums)
        Products.no_products)
      Sums.no_sums

evaluate-value_example :
    evaluate whole_numbers false (print_term first_term ++ print_sums less_abs)
    ≡ result_of whole_numbers (print_term first_term ++ print_sums less_abs) (
        value_term whole_numbers false first_term
        >>= (λ v. value_sums whole_numbers false less_abs v))
evaluate-value_example = evaluate-value whole_numbers false first_term less_abs

-- The power is no tighter than the product.
power_rank : (evaluate whole_numbers false (codes "2*3^2")).numeric_result ≡ pos 36
unfolding evaluate format_result strtol show_ℤ read_int signed unsigned skip_spaces read_digits
    is_digit text_eq is_space to_lower to_lower_text constant_of function_of sign is_alpha
    is_numeral span behind_byte closed is_product is_sum multiplied added number_at call_value
    term_loop parse_term expression_loop parse_expression negated_factor group call named name_at
    factor_at parse_factor ◌*ℤ◌
power_rank = refl

parse_expression-enough_example :
    (parse_expression whole_numbers false (parse_factor whole_numbers false 9) (codes "(1+-2")
      ≡ parse_expression whole_numbers false (parse_factor whole_numbers false 6) (codes "(1+-2"))
    × Shorter 5
        (parse_expression whole_numbers false (parse_factor whole_numbers false 9) (codes "(1+-2"))
parse_expression-enough_example =
    parse_expression-enough whole_numbers false (codes "(1+-2") 9 (omega arith)

-- ===== src/Calculator/Grammar.antt =====
-- The grammar of the calculator: how an expression is written and what it is worth.
use waylaunch.Prelude.{ℕ, Bool, Option, none, some, [], ◌∷◌, ◌++◌}
use waylaunch.Prelude.Tests.{if◌then◌else◌, ◌>>=◌}
use waylaunch.Prelude.Text.{Text, codes}
use waylaunch.Prelude.Decimal.{show_ℕ}
use waylaunch.Calculator.Floats.{Floats, MathFunction, sign}

pub data AddOp : Type 0 where
  plus minus : AddOp

-- The power has the rank of a product.
pub data MulOp : Type 0 where
  times over power : MulOp

pub data Function : Type 0 where
  math : MathFunction → Function
  sign_of : Function

pub data Constant : Type 0 where
  pi e phi infinity not_a_number : Constant

mutual
  pub data Factor : Type 0 where
    number : ℕ → Factor
    fraction : ℕ → ℕ → Factor
    negative : Factor → Factor
    positive : Factor → Factor
    group : Term → Sums → Factor
    apply : Function → Term → Sums → Factor
    constant : Constant → Factor

  -- A factor and the products that follow it.
  pub data Term : Type 0 where
    term : Factor → Products → Term

  pub data Products : Type 0 where
    no_products : Products
    product : MulOp → Factor → Products → Products

  pub data Sums : Type 0 where
    no_sums : Sums
    sum : AddOp → Term → Sums → Sums

abbrev pub add_byte : AddOp → ℕ
add_byte AddOp.plus = b'+'
add_byte AddOp.minus = b'-'

abbrev pub mul_byte : MulOp → ℕ
mul_byte MulOp.times = b'*'
mul_byte MulOp.over = b'/'
mul_byte MulOp.power = b'^'

abbrev pub math_name : MathFunction → Text
math_name MathFunction.sin = codes "sin"
math_name MathFunction.cos = codes "cos"
math_name MathFunction.tan = codes "tan"
math_name MathFunction.asin = codes "asin"
math_name MathFunction.acos = codes "acos"
math_name MathFunction.atan = codes "atan"
math_name MathFunction.sqrt = codes "sqrt"
math_name MathFunction.cbrt = codes "cbrt"
math_name MathFunction.log10 = codes "log"
math_name MathFunction.log = codes "ln"
math_name MathFunction.exp = codes "exp"
math_name MathFunction.abs = codes "abs"
math_name MathFunction.ceil = codes "ceil"
math_name MathFunction.floor = codes "floor"
math_name MathFunction.round = codes "round"

abbrev pub function_name : Function → Text
function_name (Function.math f) = math_name f
function_name Function.sign_of = codes "sign"

abbrev pub constant_name : Constant → Text
constant_name Constant.pi = codes "pi"
constant_name Constant.e = codes "e"
constant_name Constant.phi = codes "phi"
constant_name Constant.infinity = codes "inf"
constant_name Constant.not_a_number = codes "nan"

abbrev pub fraction_text : ℕ → ℕ → Text
fraction_text a b = show_ℕ a ++ (b'.' ∷ show_ℕ b)

unfoldable mutual
  pub print_factor : Factor → Text
  print_factor (Factor.number n) = show_ℕ n
  print_factor (Factor.fraction a b) = fraction_text a b
  print_factor (Factor.negative f) = b'-' ∷ print_factor f
  print_factor (Factor.positive f) = b'+' ∷ print_factor f
  print_factor (Factor.group t ts) = b'(' ∷ (print_term t ++ (print_sums ts ++ b')' ∷ []))
  print_factor (Factor.apply g t ts) =
      function_name g ++ (b'(' ∷ (print_term t ++ (print_sums ts ++ b')' ∷ [])))
  print_factor (Factor.constant c) = constant_name c

  pub print_term : Term → Text
  print_term (Term.term f ps) = print_factor f ++ print_products ps

  pub print_products : Products → Text
  print_products Products.no_products = []
  print_products (Products.product op f ps) = mul_byte op ∷ (print_factor f ++ print_products ps)

  pub print_sums : Sums → Text
  print_sums Sums.no_sums = []
  print_sums (Sums.sum op t ts) = add_byte op ∷ (print_term t ++ print_sums ts)

module _ {ℓ} {D : Type ℓ} (F : Floats D) where
  abbrev pub value_of_constant : Constant → D
  value_of_constant Constant.pi = F.pi
  value_of_constant Constant.e = F.e
  value_of_constant Constant.phi = F.phi
  value_of_constant Constant.infinity = F.infinity
  value_of_constant Constant.not_a_number = F.not_a_number

  abbrev pub combine_product : MulOp → D → D → Option D
  combine_product MulOp.times a b = some (F.times a b)
  combine_product MulOp.over a b = if F.equal b F.zero then none else some (F.over a b)
  combine_product MulOp.power a b = some (F.pow a b)

  abbrev pub combine_sum : AddOp → D → D → D
  combine_sum AddOp.plus a b = F.plus a b
  combine_sum AddOp.minus a b = F.minus a b

-- What an expression is worth: products before sums, and both from the left.
module _ {ℓ} {D : Type ℓ} (F : Floats D) (degrees : Bool) where
  abbrev pub in_degrees : MathFunction → D → D
  in_degrees f v = if degrees then F.math f (F.over (F.times v F.pi) F.straight) else F.math f v

  abbrev pub to_degrees : MathFunction → D → D
  to_degrees f v = if degrees then F.over (F.times (F.math f v) F.straight) F.pi else F.math f v

  abbrev pub value_of_math : MathFunction → D → D
  value_of_math MathFunction.sin = in_degrees MathFunction.sin
  value_of_math MathFunction.cos = in_degrees MathFunction.cos
  value_of_math MathFunction.tan = in_degrees MathFunction.tan
  value_of_math MathFunction.asin = to_degrees MathFunction.asin
  value_of_math MathFunction.acos = to_degrees MathFunction.acos
  value_of_math MathFunction.atan = to_degrees MathFunction.atan
  value_of_math f = F.math f

  abbrev pub value_of_function : Function → D → D
  value_of_function (Function.math f) v = value_of_math f v
  value_of_function Function.sign_of v = sign F v

  unfoldable mutual
    pub value_factor : Factor → Option D
    value_factor (Factor.number n) = F.stod (show_ℕ n)
    value_factor (Factor.fraction a b) = F.stod (fraction_text a b)
    value_factor (Factor.negative f) = value_factor f >>= (λ v. some (F.negated v))
    value_factor (Factor.positive f) = value_factor f
    value_factor (Factor.group t ts) = value_term t >>= (λ v. value_sums ts v)
    value_factor (Factor.apply g t ts) =
        (value_term t >>= (λ v. value_sums ts v)) >>= (λ v. some (value_of_function g v))
    value_factor (Factor.constant c) = some (value_of_constant F c)

    pub value_term : Term → Option D
    value_term (Term.term f ps) = value_factor f >>= (λ v. value_products ps v)

    pub value_products : Products → D → Option D
    value_products Products.no_products v = some v
    value_products (Products.product op f ps) v =
        value_factor f >>= (λ w. combine_product F op v w >>= (λ u. value_products ps u))

    pub value_sums : Sums → D → Option D
    value_sums Sums.no_sums v = some v
    value_sums (Sums.sum op t ts) v = value_term t >>= (λ w. value_sums ts (combine_sum F op v w))

-- ===== src/Calculator/Printed.antt =====
-- The texts that the calculator's grammar writes.
use waylaunch.Prelude.{ℕ, ◌≡◌, ◌≢◌, refl, ap, true, [], ◌∷◌, ◌++◌, arith}
use waylaunch.Prelude.Text.{Text}
use waylaunch.Prelude.Decimal.{show_ℕ, show_ℕ-StartsDigit, StartsDigit}
use waylaunch.Calculator.Parser.{is_product, is_sum}
use waylaunch.Calculator.Grammar.{
  AddOp, MulOp, Factor, Term, Products, Sums, print_factor, print_term, print_products, print_sums,
  function_name, fraction_text,
}
use waylaunch.Calculator.Spelling.{
  StartsLetter, function-StartsLetter, constant-StartsLetter, follows_sums, follows_term,
  follows_factor,
}

pub fraction-StartsDigit : (a b : ℕ) → StartsDigit (fraction_text a b)
fraction-StartsDigit a b =
    let (c, ds, e, d) = show_ℕ-StartsDigit a in
    (c, ds ++ (b'.' ∷ show_ℕ b), ap (λ w. w ++ (b'.' ∷ show_ℕ b)) e, d)

pub follows-products :
    (ps : Products) (rest : Text)
    → follows_term rest ≡ true
    → follows_factor (print_products ps ++ rest) ≡ true
unfolding print_products is_product is_sum
follows-products Products.no_products [] h = refl
follows-products Products.no_products (c ∷ s) h = ground arith
follows-products (Products.product MulOp.times f ps) rest h = refl
follows-products (Products.product MulOp.over f ps) rest h = refl
follows-products (Products.product MulOp.power f ps) rest h = refl

pub follows-sums :
    (ts : Sums) (rest : Text)
    → follows_sums rest ≡ true
    → follows_term (print_sums ts ++ rest) ≡ true
unfolding print_sums is_product is_sum
follows-sums Sums.no_sums [] h = refl
follows-sums Sums.no_sums (c ∷ s) h = ground arith
follows-sums (Sums.sum AddOp.plus t ts) rest h = refl
follows-sums (Sums.sum AddOp.minus t ts) rest h = refl

append-nonempty : (v w : Text) → v ≢ [] → v ++ w ≢ []
append-nonempty [] w h e = h refl
append-nonempty (c ∷ v) w h e = grind arith

begun : {w : Text} → StartsDigit w → w ≢ []
begun (c, ds, same, d) e = grind arith

named : {w : Text} → StartsLetter w → w ≢ []
named (c, ds, same, d) e = grind arith

factor-nonempty : (f : Factor) → print_factor f ≢ []
unfolding print_factor
factor-nonempty (Factor.number n) e = begun (show_ℕ-StartsDigit n) e
factor-nonempty (Factor.fraction a b) e = begun (fraction-StartsDigit a b) e
factor-nonempty (Factor.negative f) e = grind arith
factor-nonempty (Factor.positive f) e = grind arith
factor-nonempty (Factor.group t ts) e = grind arith
factor-nonempty (Factor.apply g t ts) e =
    append-nonempty (function_name g) (b'(' ∷ (print_term t ++ (print_sums ts ++ b')' ∷ [])))
      (named (function-StartsLetter g)) e
factor-nonempty (Factor.constant c) e = named (constant-StartsLetter c) e

pub term-nonempty : (t : Term) (w : Text) → print_term t ++ w ≢ []
unfolding print_term
term-nonempty (Term.term f ps) w e =
    append-nonempty (print_factor f ++ print_products ps) w
      (append-nonempty (print_factor f) (print_products ps) (factor-nonempty f)) e

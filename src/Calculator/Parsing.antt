-- ===== src/Calculator/Parsing.antt =====
-- What it means that the calculator's parser reads the parts of its grammar.
use waylaunch.Prelude.{ℕ, zero, suc, ◌+◌, ◌<◌, ◌≤◌, ◌≡◌, refl, Bool, true, [], ◌∷◌, ◌++◌, arith}
use mathlib.Core.List.{append_assoc}
use waylaunch.Prelude.Tests.{◌>>=◌}
use waylaunch.Prelude.Lists.{length, length-append}
use waylaunch.Prelude.Text.{Text}
use waylaunch.Calculator.Floats.{Floats}
use waylaunch.Calculator.Parser.{
  with_rest, term_loop, parse_term, expression_loop, parse_expression, parse_factor,
}
use waylaunch.Calculator.Grammar.{
  Factor, Term, Products, Sums, print_factor, print_term, print_products, print_sums, value_factor,
  value_term, value_products, value_sums,
}
use waylaunch.Calculator.Spelling.{follows_sums, follows_term, follows_factor}
use waylaunch.Calculator.Printed.{follows-sums}
use waylaunch.Calculator.Steps.{expression_step}

-- What holds of the successor of every number from a bound on holds of all numbers above it.
pub climb {ℓ} :
    {low : ℕ} (Goal : ℕ → Type ℓ) → ((m : ℕ) → low ≤ m → Goal (suc m)) → (k : ℕ) → low < k → Goal k
climb Goal rise zero lt = elim lt [ ]
climb Goal rise (suc m) lt = rise m (omega arith)

module _ {ℓ} {D : Type ℓ} (F : Floats D) (degrees : Bool) where
  unfoldable pub ReadsFactor : Factor → Type ℓ
  ReadsFactor f =
      (rest : Text) (fuel : ℕ)
      → length (print_factor f) < fuel
      → follows_factor rest ≡ true
      → parse_factor F degrees fuel (print_factor f ++ rest)
        ≡ with_rest rest (value_factor F degrees f)

  unfoldable pub ReadsTerm : Term → Type ℓ
  ReadsTerm t =
      (rest : Text) (fuel : ℕ)
      → length (print_term t) < fuel
      → follows_term rest ≡ true
      → parse_term F degrees (parse_factor F degrees fuel) (print_term t ++ rest)
        ≡ with_rest rest (value_term F degrees t)

  unfoldable pub ReadsProducts : Products → Type ℓ
  ReadsProducts ps =
      (rest : Text) (fuel : ℕ)
      → length (print_products ps) < fuel
      → follows_term rest ≡ true
      → (v : D) (n : ℕ) → length (print_products ps ++ rest) < n
      → term_loop F degrees (parse_factor F degrees fuel) n v (print_products ps ++ rest)
        ≡ with_rest rest (value_products F degrees ps v)

  unfoldable pub ReadsSums : Sums → Type ℓ
  ReadsSums ts =
      (rest : Text) (fuel : ℕ)
      → length (print_sums ts) < fuel
      → follows_sums rest ≡ true
      → (v : D) (n : ℕ) → length (print_sums ts ++ rest) < n
      → expression_loop F degrees (parse_factor F degrees fuel) n v (print_sums ts ++ rest)
        ≡ with_rest rest (value_sums F degrees ts v)

  -- An expression: a term and the sums behind it.
  pub reads_expression :
      (t : Term) (ts : Sums) (rest : Text) (fuel : ℕ)
      → ReadsTerm t
      → ReadsSums ts
      → length (print_term t ++ print_sums ts) < fuel
      → follows_sums rest ≡ true
      → parse_expression F degrees
          (parse_factor F degrees fuel)
          (print_term t ++ (print_sums ts ++ rest))
        ≡ with_rest rest (value_term F degrees t >>= (λ v. value_sums F degrees ts v))
  unfolding ReadsTerm ReadsSums
  reads_expression t ts rest fuel r rs h e =
      expression_step F degrees (parse_factor F degrees fuel) (value_term F degrees t)
        (value_sums F degrees ts) (print_term t ++ (print_sums ts ++ rest)) (print_sums ts ++ rest)
        rest
        (r (print_sums ts ++ rest) fuel
          (omega (arith, length-append (print_term t) (print_sums ts))) (follows-sums ts rest e))
        (λ v.
          rs rest fuel (omega (arith, length-append (print_term t) (print_sums ts))) e v
            (length (print_sums ts ++ rest) + 1) (omega arith))

  -- What stands in parentheses.
  pub reads_inside :
      (t : Term) (ts : Sums) (rest : Text) (fuel : ℕ)
      → ReadsTerm t
      → ReadsSums ts
      → length (print_term t ++ (print_sums ts ++ b')' ∷ [])) < fuel + 1
      → parse_expression F degrees
          (parse_factor F degrees fuel)
          ((print_term t ++ (print_sums ts ++ b')' ∷ [])) ++ rest)
        ≡ with_rest (b')' ∷ rest) (value_term F degrees t >>= (λ v. value_sums F degrees ts v))
  reads_inside t ts rest fuel r rs h =
      rw
        (
          append_assoc (print_term t) (print_sums ts ++ b')' ∷ []) rest,
          append_assoc (print_sums ts) (b')' ∷ []) rest,
        )
        (reads_expression t ts (b')' ∷ rest) fuel r rs
          (omega (
            arith,
            length-append (print_term t) (print_sums ts),
            length-append (print_sums ts) (b')' ∷ []),
            length-append (print_term t) (print_sums ts ++ b')' ∷ []),
          ))
          refl)

  -- A factor is read, and so is what an expression in parentheses consists of.
  unfoldable pub Reads : Factor → Type ℓ
  Reads (Factor.group t ts) = ReadsFactor (Factor.group t ts) × (ReadsTerm t × ReadsSums ts)
  Reads f = ReadsFactor f

  pub Reads-ReadsFactor : (f : Factor) → Reads f → ReadsFactor f
  unfolding Reads
  Reads-ReadsFactor (Factor.group t ts) (h, r) = h
  Reads-ReadsFactor (Factor.number n) h = h
  Reads-ReadsFactor (Factor.fraction a b) h = h
  Reads-ReadsFactor (Factor.negative f) h = h
  Reads-ReadsFactor (Factor.positive f) h = h
  Reads-ReadsFactor (Factor.apply g t ts) h = h
  Reads-ReadsFactor (Factor.constant c) h = h

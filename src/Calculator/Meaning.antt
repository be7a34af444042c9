-- ===== src/Calculator/Meaning.antt =====
-- The calculator computes what its grammar says.
use waylaunch.Prelude.{◌+◌, ◌≡◌, ◌≢◌, refl, ◌∙◌, Bool, Option, none, some, [], ◌∷◌, ◌++◌, arith}
use mathlib.Core.List.{append_assoc, append-nil}
use waylaunch.Prelude.Tests.{◌>>=◌}
use waylaunch.Prelude.Lists.{length, length-append}
use waylaunch.Prelude.Text.{Text}
use waylaunch.Prelude.Decimal.{show_ℕ, show_ℕ-StartsDigit}
use waylaunch.Calculator.Floats.{Floats}
use waylaunch.Calculator.Parser.{with_rest, parse_expression, parse_factor}
use waylaunch.Calculator.Evaluator.{evaluate, result_of}
use waylaunch.Calculator.Grammar.{
  Factor, Term, Products, Sums, print_factor, print_term, print_products, print_sums, value_factor,
  value_term, value_products, value_sums, function_name, fraction_text,
}
use waylaunch.Calculator.Spelling.{span-show, span-fraction}
use waylaunch.Calculator.Printed.{
  fraction-StartsDigit, follows-products, follows-sums, term-nonempty,
}
use waylaunch.Calculator.Steps.{term_step, product_step, products_end, sum_step, sums_end}
use waylaunch.Calculator.Reading.{
  group_read, negative_read, positive_read, number_read, constant_read, call_read,
}
use waylaunch.Calculator.Parsing.{
  climb, ReadsFactor, ReadsTerm, ReadsProducts, ReadsSums, Reads, Reads-ReadsFactor,
  reads_expression, reads_inside,
}

evaluate-parsed {ℓ} :
    {D : Type ℓ} (F : Floats D) (degrees : Bool) (s : Text) (x : Option D)
    → s ≢ []
    → parse_expression F degrees (parse_factor F degrees (length s + 1)) s ≡ with_rest [] x
    → evaluate F degrees s ≡ result_of F s x
unfolding evaluate
evaluate-parsed F degrees [] x n h = absurd (n refl)
evaluate-parsed F degrees (c ∷ s) none n h = rw (h, evaluate) refl
evaluate-parsed F degrees (c ∷ s) (some v) n h = rw (h, evaluate) refl

module _ {ℓ} {D : Type ℓ} (F : Floats D) (degrees : Bool) where
  factor-Reads : (f : Factor) → Reads F degrees f
  unfolding Reads ReadsFactor ReadsTerm ReadsProducts ReadsSums print_factor value_factor
  factor-Reads f =
      elim f
        as (Reads F degrees) (ReadsTerm F degrees) (ReadsProducts F degrees) (ReadsSums F degrees) [
          | Factor.number n ↦ λ rest. climb _ λ fuel h e.
              number_read F degrees fuel (show_ℕ n) rest (show_ℕ-StartsDigit n) (span-show n rest e)
          | Factor.fraction a b ↦ λ rest. climb _ λ fuel h e.
              number_read F degrees fuel (fraction_text a b) rest (fraction-StartsDigit a b)
                (span-fraction a b rest e)
          | Factor.negative (g → ih) ↦ λ rest. climb _ λ fuel h e.
              negative_read F degrees fuel (value_factor F degrees g) (print_factor g ++ rest) rest
                (Reads-ReadsFactor F degrees g ih rest fuel (omega arith) e)
          | Factor.positive (g → ih) ↦ λ rest. climb _ λ fuel h e.
              positive_read F degrees fuel (print_factor g ++ rest)
              ∙ Reads-ReadsFactor F degrees g ih rest fuel (omega arith) e
          | Factor.group (t → iht) (ts → ihs) ↦ (
            (λ rest. climb _ λ fuel h e.
                group_read F degrees fuel
                  (value_term F degrees t >>= (λ v. value_sums F degrees ts v)) _ rest
                  (reads_inside F degrees t ts rest fuel iht ihs (omega arith))),
            (iht, ihs),
          )
          | Factor.apply g (t → iht) (ts → ihs) ↦ λ rest. climb _ λ fuel h e.
              rw
                (append_assoc (function_name g)
                  (b'(' ∷ (print_term t ++ (print_sums ts ++ b')' ∷ []))) rest)
                (call_read F degrees fuel g
                  (value_term F degrees t >>= (λ v. value_sums F degrees ts v)) _ rest
                  (reads_inside F degrees t ts rest fuel iht ihs (
                    omega (
                      arith,
                      length-append (function_name g)
                          (b'(' ∷ (print_term t ++ (print_sums ts ++ b')' ∷ []))),
                    ))))
          | Factor.constant c ↦ λ rest. climb _ λ fuel h e. constant_read F degrees fuel c rest e
          | Term.term (g → ihg) (ps → ihp) ↦ λ rest fuel h e.
              rw (append_assoc (print_factor g) (print_products ps) rest) (
                term_step F degrees (parse_factor F degrees fuel) (value_factor F degrees g)
                  (value_products F degrees ps) _ (print_products ps ++ rest) rest
                  (Reads-ReadsFactor F degrees g ihg (print_products ps ++ rest) fuel
                    (omega (arith, length-append (print_factor g) (print_products ps)))
                    (follows-products ps rest e))
                  (λ v.
                    ihp rest fuel
                      (omega (arith, length-append (print_factor g) (print_products ps))) e v
                      (length (print_products ps ++ rest) + 1) (omega arith)))
          | Products.no_products ↦ λ rest fuel h e v.
              climb _ λ n l. products_end F degrees (parse_factor F degrees fuel) n v rest e
          | Products.product op (g → ihg) (ps → ihp) ↦ λ rest fuel h e v. climb _ λ n l.
              rw (append_assoc (print_factor g) (print_products ps) rest) (
                product_step F degrees (parse_factor F degrees fuel) op (value_factor F degrees g)
                  (value_products F degrees ps) v n _ (print_products ps ++ rest) rest
                  (Reads-ReadsFactor F degrees g ihg (print_products ps ++ rest) fuel
                    (omega (arith, length-append (print_factor g) (print_products ps)))
                    (follows-products ps rest e))
                  (λ w.
                    ihp rest fuel
                      (omega (arith, length-append (print_factor g) (print_products ps))) e w n
                      (omega (
                        arith,
                        length-append (print_factor g ++ print_products ps) rest,
                        length-append (print_products ps) rest,
                        length-append (print_factor g) (print_products ps),
                      ))))
          | Sums.no_sums ↦ λ rest fuel h e v.
              climb _ λ n l. sums_end F degrees (parse_factor F degrees fuel) n v rest e
          | Sums.sum op (t → iht) (ts → ihs) ↦ λ rest fuel h e v. climb _ λ n l.
              rw (append_assoc (print_term t) (print_sums ts) rest) (
                sum_step F degrees (parse_factor F degrees fuel) op (value_term F degrees t)
                  (value_sums F degrees ts) v n _ (print_sums ts ++ rest) rest
                  (iht (print_sums ts ++ rest) fuel
                    (omega (arith, length-append (print_term t) (print_sums ts)))
                    (follows-sums ts rest e))
                  (λ w.
                    ihs rest fuel (omega (arith, length-append (print_term t) (print_sums ts))) e w
                      n
                      (omega (
                        arith,
                        length-append (print_term t ++ print_sums ts) rest,
                        length-append (print_sums ts) rest,
                        length-append (print_term t) (print_sums ts),
                      ))))
        ]

  -- The calculator reads an expression as the grammar writes it, products before sums and both from
  -- the left, and its result is the value the grammar gives it, or invalid where a division by zero
  -- or a numeral out of range leaves it without one.
  pub evaluate-value :
      (t : Term) (ts : Sums)
      → evaluate F degrees (print_term t ++ print_sums ts)
        ≡ result_of F
            (print_term t ++ print_sums ts)
            (value_term F degrees t >>= (λ v. value_sums F degrees ts v))
  unfolding Reads
  evaluate-value t ts =
      let read = factor-Reads (Factor.group t ts) in
      evaluate-parsed F degrees (print_term t ++ print_sums ts) _ (term-nonempty t (print_sums ts))
        (rw (append-nil (print_sums ts)) at (
          reads_expression F degrees t ts [] (length (print_term t ++ print_sums ts) + 1) read.1.0
            read.1.1 (omega arith) refl))

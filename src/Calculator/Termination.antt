-- ===== src/Calculator/Termination.antt =====
-- More fuel changes nothing for the parser of the calculator.
use waylaunch.Prelude.{ℕ, zero, suc, ◌+◌, ◌<◌, ◌≤◌, ◌≡◌, refl, Bool, ◌∷◌, inl, inr, arith}
use waylaunch.Prelude.Tests.{◌==◌, Bool-cases, Option-cases}
use waylaunch.Prelude.Lists.{length}
use waylaunch.Prelude.Text.{Text}
use waylaunch.Prelude.Decimal.{skip_spaces}
use waylaunch.Calculator.Floats.{Floats}
use waylaunch.Calculator.Parser.{Parser, parse_expression}
use waylaunch.Calculator.Parser.{
  is_alpha, span, behind_byte, negated_factor, group, call, named, name_at, factor_at, parse_factor,
}
use waylaunch.Prelude.Text.{to_lower_text}
use waylaunch.Calculator.Fuel.{
  List-cases, length-skip_spaces, skipped, Shorter, Shorter-le, Shrinks, Agree,
  parse_expression-Shrinks, parse_expression-Agree,
}
use waylaunch.Calculator.EnoughFuel.{length-behind_byte, length-span_first, factor_at-Shrinks}

module _ {ℓ} {D : Type ℓ} (F : Floats D) (degrees : Bool) (n : ℕ) (p q : Parser D) (h : Shrinks p)
    (a : Agree n p q) where
  negated_factor-Agree : Agree n (negated_factor F degrees p) (negated_factor F degrees q)
  unfolding negated_factor Agree
  negated_factor-Agree s l = rw (a s l, negated_factor) refl

  group-Agree : Agree n (group F degrees p) (group F degrees q)
  unfolding group Agree
  group-Agree s l = rw (parse_expression-Agree F degrees n p q h a s l, group) refl

  call-Agree : (func : Text) → Agree n (call F degrees p func) (call F degrees q func)
  unfolding call Agree
  call-Agree func s l = rw (parse_expression-Agree F degrees n p q h a s l, call) refl

  named-Agree : (func : Text) → Agree n (named F degrees p func) (named F degrees q func)
  unfolding named Agree
  named-Agree func s l = elim (Option-cases (behind_byte b'(' s)) [
    | inl e ↦ rw (e, named) refl
    | inr (r, e) ↦
        let shorter = length-behind_byte b'(' s r e in
        rw (e, named) (call-Agree func r (omega arith))
  ]

  factor_at-Agree :
      (c : ℕ) (s : Text)
      → length s ≤ n
      → factor_at F degrees p (c ∷ s) ≡ factor_at F degrees q (c ∷ s)
  unfolding factor_at Agree name_at
  factor_at-Agree c s l = elim (Bool-cases (c == b'-')) [
    | inl e ↦ rw (e, factor_at) (negated_factor-Agree s l)
    | inr e1 ↦ elim (Bool-cases (c == b'+')) [
      | inl e ↦ rw (e1, e, factor_at) (a s l)
      | inr e2 ↦ elim (Bool-cases (c == b'(')) [
        | inl e ↦ rw (e1, e2, e, factor_at) (group-Agree s l)
        | inr e3 ↦ elim (Bool-cases (is_alpha c)) [
          | inl e ↦
              let w = span is_alpha (c ∷ s) in
              rw (e1, e2, e3, e, factor_at)
                (named-Agree (to_lower_text w.0) (skip_spaces w.1)
                  (omega (arith, length-skip_spaces w.1, length-span_first is_alpha c s e)))
          | inr e4 ↦ rw (e1, e2, e3, e4, factor_at) refl
        ]
      ]
    ]
  ]

module _ {ℓ} {D : Type ℓ} (F : Floats D) (degrees : Bool) where
  parse_factor-Shrinks : (fuel : ℕ) → Shrinks (parse_factor F degrees fuel)
  unfolding parse_factor Shrinks Shorter
  parse_factor-Shrinks zero s = tt
  parse_factor-Shrinks (suc fuel) s =
      Shorter-le (length (skip_spaces s)) (length s) _
        (factor_at-Shrinks F degrees (parse_factor F degrees fuel) (parse_factor-Shrinks fuel)
          (skip_spaces s))
        (length-skip_spaces s)

  parse_factor-Agree :
      (n fuel more : ℕ)
      → n < fuel
      → n < more
      → Agree n (parse_factor F degrees fuel) (parse_factor F degrees more)
  unfolding parse_factor Agree factor_at
  parse_factor-Agree n zero more l m s k = absurd (omega arith)
  parse_factor-Agree n (suc fuel) zero l m s k = absurd (omega arith)
  parse_factor-Agree n (suc fuel) (suc more) l m s k = elim (List-cases (skip_spaces s)) [
    | inl e ↦ rw (e, parse_factor, factor_at) refl
    | inr (c, r, e) ↦
        let shorter = skipped s c r e in
        rw (e, parse_factor)
          (factor_at-Agree F degrees (length r) (parse_factor F degrees fuel)
            (parse_factor F degrees more) (parse_factor-Shrinks fuel)
            (parse_factor-Agree (length r) fuel more (omega arith) (omega arith)) c r (omega arith))
  ]

  -- Whatever the text, the fuel that evaluate gives to the parser is enough: with any more fuel it
  -- gives the same result, and where it has a result it took at least a byte off the text.
  pub parse_expression-enough :
      (s : Text) (fuel : ℕ)
      → length s < fuel
      → (parse_expression F degrees (parse_factor F degrees fuel) s
          ≡ parse_expression F degrees (parse_factor F degrees (length s + 1)) s)
        × Shorter (length s) (parse_expression F degrees (parse_factor F degrees fuel) s)
  unfolding Agree Shrinks
  parse_expression-enough s fuel l = (
    parse_expression-Agree F degrees (length s) (parse_factor F degrees fuel)
        (parse_factor F degrees (length s + 1)) (parse_factor-Shrinks fuel)
        (parse_factor-Agree (length s) fuel (length s + 1) l (omega arith)) s (omega arith),
    parse_expression-Shrinks F degrees (parse_factor F degrees fuel) (parse_factor-Shrinks fuel) s,
  )

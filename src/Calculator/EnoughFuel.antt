-- ===== src/Calculator/EnoughFuel.antt =====
-- parse_factor of the calculator has enough fuel with one more than the bytes of the text.
use waylaunch.Prelude.{
  ℕ, ◌+◌, ◌<◌, ◌≤◌, ◌≡◌, Bool, true, Option, none, some, [], ◌∷◌, inl, inr, arith,
}
use waylaunch.Prelude.Tests.{◌==◌, Bool-cases, Option-cases}
use waylaunch.Prelude.Lists.{length}
use waylaunch.Prelude.Text.{Text}
use waylaunch.Prelude.Decimal.{skip_spaces}
use waylaunch.Calculator.Floats.{Floats}
use waylaunch.Calculator.Parser.{Parser, parse_expression}
use waylaunch.Calculator.Parser.{
  is_alpha, is_numeral, span, behind_byte, closed, with_rest, negated_factor, group, call, named,
  name_at, number_at, factor_at,
}
use waylaunch.Prelude.Text.{to_lower_text}
use waylaunch.Calculator.Fuel.{
  length-skip_spaces, Shorter, Shorter-le, Shrinks, parse_expression-Shrinks,
}

pub length-behind_byte : (c : ℕ) (s r : Text) → behind_byte c s ≡ some r → length r < length s
unfolding behind_byte
length-behind_byte c [] r e = absurd (grind arith)
length-behind_byte c (d ∷ s) r e = grind arith

length-closed : (s : Text) → length (closed s) ≤ length s
unfolding closed
length-closed s = elim (Option-cases (behind_byte b')' (skip_spaces s))) [
  | inl e ↦ rw (e, closed) (length-skip_spaces s)
  | inr (r, e) ↦
      let shorter = length-behind_byte b')' (skip_spaces s) r e in
      rw (e, closed) (omega (arith, length-skip_spaces s))
]

length-span : (t : ℕ → Bool) (s : Text) → length (span t s).1 ≤ length s
unfolding span
length-span t [] = omega arith
length-span t (c ∷ s) = elim (Bool-cases (t c)) [
  | inl e ↦ rw (e, span) (omega (arith, length-span t s))
  | inr e ↦ rw (e, span) (omega arith)
]

pub length-span_first :
    (t : ℕ → Bool) (c : ℕ) (s : Text) → t c ≡ true → length (span t (c ∷ s)).1 ≤ length s
unfolding span
length-span_first t c s e = rw (e, span) (length-span t s)

with_rest-Shorter {ℓ} :
    {D : Type ℓ} (n : ℕ) (s : Text) (x : Option D) → length s < n → Shorter n (with_rest s x)
unfolding Shorter
with_rest-Shorter n s none l = tt
with_rest-Shorter n s (some v) l = l

module _ {ℓ} {D : Type ℓ} (F : Floats D) (degrees : Bool) (p : Parser D) (h : Shrinks p) where
  negated_factor-Shrinks : Shrinks (negated_factor F degrees p)
  unfolding negated_factor Shrinks Shorter
  negated_factor-Shrinks s = elim (Option-cases (p s)) [
    | inl y ↦ rw (y, negated_factor, Shorter) tt
    | inr (w, y) ↦ let less = rw y at (h s) in rw (y, negated_factor, Shorter) less
  ]

  group-Shrinks : Shrinks (group F degrees p)
  unfolding group Shrinks Shorter
  group-Shrinks s = elim (Option-cases (parse_expression F degrees p s)) [
    | inl y ↦ rw (y, group, Shorter) tt
    | inr (w, y) ↦
        let less = rw y at (parse_expression-Shrinks F degrees p h s) in
        rw (y, group, Shorter) (omega (arith, length-closed w.1))
  ]

  call-Shrinks : (func : Text) → Shrinks (call F degrees p func)
  unfolding call Shrinks Shorter
  call-Shrinks func s = elim (Option-cases (parse_expression F degrees p s)) [
    | inl y ↦ rw (y, call, Shorter) tt
    | inr (w, y) ↦
        let less = rw y at (parse_expression-Shrinks F degrees p h s) in
        rw (y, call) (with_rest-Shorter _ _ _ (omega (arith, length-closed w.1)))
  ]

  named-Shorter : (func s : Text) → Shorter (length s + 1) (named F degrees p func s)
  unfolding named Shrinks
  named-Shorter func s = elim (Option-cases (behind_byte b'(' s)) [
    | inl e ↦ rw (e, named) (with_rest-Shorter _ _ _ (omega arith))
    | inr (r, e) ↦
        let shorter = length-behind_byte b'(' s r e in
        rw (e, named) (Shorter-le (length r) (length s + 1) _ (call-Shrinks func r) (omega arith))
  ]

  pub factor_at-Shrinks : Shrinks (factor_at F degrees p)
  unfolding factor_at Shrinks Shorter name_at number_at
  factor_at-Shrinks [] = tt
  factor_at-Shrinks (c ∷ s) = elim (Bool-cases (c == b'-')) [
    | inl e ↦ rw (e, factor_at) (Shorter-le (length s) _ _ (negated_factor-Shrinks s) (omega arith))
    | inr e1 ↦ elim (Bool-cases (c == b'+')) [
      | inl e ↦ rw (e1, e, factor_at) (Shorter-le (length s) _ _ (h s) (omega arith))
      | inr e2 ↦ elim (Bool-cases (c == b'(')) [
        | inl e ↦
            rw (e1, e2, e, factor_at) (Shorter-le (length s) _ _ (group-Shrinks s) (omega arith))
        | inr e3 ↦ elim (Bool-cases (is_alpha c)) [
          | inl e ↦
              let w = span is_alpha (c ∷ s) in
              rw (e1, e2, e3, e, factor_at)
                (Shorter-le (length (skip_spaces w.1) + 1) _ _
                  (named-Shorter (to_lower_text w.0) (skip_spaces w.1))
                  (omega (arith, length-skip_spaces w.1, length-span_first is_alpha c s e)))
          | inr e4 ↦ elim (Bool-cases (is_numeral c)) [
            | inl e ↦
                rw (e1, e2, e3, e4, e, factor_at)
                  (with_rest-Shorter _ _ _ (omega (arith, length-span_first is_numeral c s e)))
            | inr e ↦ rw (e1, e2, e3, e4, e, factor_at, Shorter) tt
          ]
        ]
      ]
    ]
  ]

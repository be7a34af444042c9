-- ===== src/Calculator/Fuel.antt =====
-- The parser of the calculator has enough fuel, whatever the text.
use waylaunch.Prelude.{
  ℕ, zero, suc, ◌+◌, ◌<◌, ◌≤◌, ◌≡◌, ◌⊎◌, refl, ◌∙◌, sym, Bool, Option, none, some, List, [], ◌∷◌,
  inl, inr, arith,
}
use waylaunch.Prelude.Tests.{Bool-cases, Option-cases}
use waylaunch.Prelude.Lists.{length}
use waylaunch.Prelude.Text.{Text}
use waylaunch.Prelude.Decimal.{skip_spaces}
use waylaunch.Calculator.Floats.{Floats}
use waylaunch.Calculator.Parser.{
  Parser, is_product, is_sum, multiplied, added, term_loop, parse_term, expression_loop,
  parse_expression,
}

pub List-cases {ℓ} : {A : Type ℓ} (s : List A) → (s ≡ []) ⊎ ((c : A) × (r : List A) × (s ≡ c ∷ r))
List-cases [] = inl refl
List-cases (c ∷ r) = inr (c, r, refl)

pub length-skip_spaces : (s : Text) → length (skip_spaces s) ≤ length s
unfolding skip_spaces
length-skip_spaces [] = omega arith
length-skip_spaces (c ∷ s) = ground (arith, length-skip_spaces s)

pub skipped : (s : Text) (c : ℕ) (r : Text) → skip_spaces s ≡ c ∷ r → length r < length s
skipped s c r e = let shorter = rw e at (length-skip_spaces s) in omega arith

module _ {ℓ} {D : Type ℓ} where
  -- What is left, where a parser has a result, is shorter than a bound.
  unfoldable pub Shorter : ℕ → Option (D × Text) → Type 0
  Shorter n none = Unit
  Shorter n (some x) = length x.1 < n

  pub Shorter-le : (m n : ℕ) (x : Option (D × Text)) → Shorter m x → m ≤ n → Shorter n x
  unfolding Shorter
  Shorter-le m n none h l = tt
  Shorter-le m n (some x) h l = omega arith

  -- A parser takes at least a byte off the text.
  unfoldable pub Shrinks : Parser D → Type 0
  Shrinks p = (s : Text) → Shorter (length s) (p s)

  -- Two parsers agree on the texts up to a length.
  unfoldable pub Agree : ℕ → Parser D → Parser D → Type ℓ
  Agree n p q = (s : Text) → length s ≤ n → p s ≡ q s

module _ {ℓ} {D : Type ℓ} (F : Floats D) (degrees : Bool) (p : Parser D) (h : Shrinks p) where
  term_loop-Shorter :
      (k : ℕ) (left : D) (s : Text) → Shorter (length s + 1) (term_loop F degrees p k left s)
  unfolding term_loop Shrinks Shorter
  term_loop-Shorter zero left s = tt
  term_loop-Shorter (suc k) left s = elim (List-cases (skip_spaces s)) [
    | inl e ↦ rw (e, term_loop, Shorter) (omega arith)
    | inr (op, r, e) ↦
        let shorter = skipped s op r e in
        elim (Bool-cases (is_product op)) [
          | inr x ↦ rw (e, x, term_loop, Shorter) (omega (arith, rw e at (length-skip_spaces s)))
          | inl x ↦ elim (Option-cases (p r)) [
            | inl y ↦ rw (e, x, y, term_loop, Shorter) tt
            | inr (w, y) ↦
                let less = rw y at (h r) in
                elim (Option-cases (multiplied F op left w.0)) [
                  | inl m ↦ rw (e, x, y, m, term_loop, Shorter) tt
                  | inr (v, m) ↦
                      rw (e, x, y, m, term_loop)
                        (Shorter-le (length w.1 + 1) (length s + 1) _ (term_loop-Shorter k v w.1)
                          (omega arith))
                ]
          ]
        ]
  ]

  parse_term-Shrinks : Shrinks (parse_term F degrees p)
  unfolding parse_term Shrinks Shorter
  parse_term-Shrinks s = elim (Option-cases (p s)) [
    | inl y ↦ rw (y, parse_term, Shorter) tt
    | inr (w, y) ↦
        let less = rw y at (h s) in
        rw (y, parse_term)
          (Shorter-le (length w.1 + 1) (length s) _ (term_loop-Shorter (length w.1 + 1) w.0 w.1)
            (omega arith))
  ]

  expression_loop-Shorter :
      (k : ℕ) (left : D) (s : Text) → Shorter (length s + 1) (expression_loop F degrees p k left s)
  unfolding expression_loop Shrinks Shorter
  expression_loop-Shorter zero left s = tt
  expression_loop-Shorter (suc k) left s = elim (List-cases (skip_spaces s)) [
    | inl e ↦ rw (e, expression_loop, Shorter) (omega arith)
    | inr (op, r, e) ↦
        let shorter = skipped s op r e in
        elim (Bool-cases (is_sum op)) [
          | inr x ↦
              rw (e, x, expression_loop, Shorter) (omega (arith, rw e at (length-skip_spaces s)))
          | inl x ↦ elim (Option-cases (parse_term F degrees p r)) [
            | inl y ↦ rw (e, x, y, expression_loop, Shorter) tt
            | inr (w, y) ↦
                let less = rw y at (parse_term-Shrinks r) in
                let v = added F op left w.0 in
                rw (e, x, y, expression_loop)
                  (Shorter-le (length w.1 + 1) (length s + 1) _ (expression_loop-Shorter k v w.1)
                    (omega arith))
          ]
        ]
  ]

  pub parse_expression-Shrinks : Shrinks (parse_expression F degrees p)
  unfolding parse_expression Shrinks Shorter
  parse_expression-Shrinks s = elim (Option-cases (parse_term F degrees p s)) [
    | inl y ↦ rw (y, parse_expression, Shorter) tt
    | inr (w, y) ↦
        let less = rw y at (parse_term-Shrinks s) in
        rw (y, parse_expression)
          (Shorter-le (length w.1 + 1) (length s) _
            (expression_loop-Shorter (length w.1 + 1) w.0 w.1) (omega arith))
  ]

module _ {ℓ} {D : Type ℓ} (F : Floats D) (degrees : Bool) (n : ℕ) (p q : Parser D) (h : Shrinks p)
    (a : Agree n p q) where
  term_loop-Agree :
      (k : ℕ) (left : D) (s : Text)
      → length s ≤ n
      → term_loop F degrees p k left s ≡ term_loop F degrees q k left s
  unfolding term_loop Shrinks Agree Shorter
  term_loop-Agree zero left s l = refl
  term_loop-Agree (suc k) left s l = elim (List-cases (skip_spaces s)) [
    | inl e ↦ rw (e, term_loop) refl
    | inr (op, r, e) ↦ elim (Bool-cases (is_product op)) [
      | inr x ↦ rw (e, x, term_loop) refl
      | inl x ↦
          let shorter = skipped s op r e in
          let same = a r (omega arith) in
          elim (Option-cases (p r)) [
            | inl y ↦ let z : q r ≡ none = sym same ∙ y in rw (e, x, y, z, term_loop) refl
            | inr (w, y) ↦
                let z : q r ≡ some w = sym same ∙ y in
                elim (Option-cases (multiplied F op left w.0)) [
                  | inl m ↦ rw (e, x, y, z, m, term_loop) refl
                  | inr (v, m) ↦
                      let less = rw y at (h r) in
                      rw (e, x, y, z, m, term_loop) (term_loop-Agree k v w.1 (omega arith))
                ]
          ]
    ]
  ]

  parse_term-Agree : Agree n (parse_term F degrees p) (parse_term F degrees q)
  unfolding parse_term Shrinks Agree Shorter
  parse_term-Agree s l =
      let same = a s l in
      elim (Option-cases (p s)) [
        | inl y ↦ let z : q s ≡ none = sym same ∙ y in rw (y, z, parse_term) refl
        | inr (w, y) ↦
            let z : q s ≡ some w = sym same ∙ y in
            let less = rw y at (h s) in
            rw (y, z, parse_term) (term_loop-Agree (length w.1 + 1) w.0 w.1 (omega arith))
      ]

  expression_loop-Agree :
      (k : ℕ) (left : D) (s : Text)
      → length s ≤ n
      → expression_loop F degrees p k left s ≡ expression_loop F degrees q k left s
  unfolding expression_loop Shrinks Agree Shorter
  expression_loop-Agree zero left s l = refl
  expression_loop-Agree (suc k) left s l = elim (List-cases (skip_spaces s)) [
    | inl e ↦ rw (e, expression_loop) refl
    | inr (op, r, e) ↦ elim (Bool-cases (is_sum op)) [
      | inr x ↦ rw (e, x, expression_loop) refl
      | inl x ↦
          let shorter = skipped s op r e in
          let same = parse_term-Agree r (omega arith) in
          elim (Option-cases (parse_term F degrees p r)) [
            | inl y ↦
                let z : parse_term F degrees q r ≡ none = sym same ∙ y in
                rw (e, x, y, z, expression_loop) refl
            | inr (w, y) ↦
                let z : parse_term F degrees q r ≡ some w = sym same ∙ y in
                let less = rw y at (parse_term-Shrinks F degrees p h r) in
                rw (e, x, y, z, expression_loop)
                  (expression_loop-Agree k (added F op left w.0) w.1 (omega arith))
          ]
    ]
  ]

  pub parse_expression-Agree : Agree n (parse_expression F degrees p) (parse_expression F degrees q)
  unfolding parse_expression Shrinks Agree Shorter
  parse_expression-Agree s l =
      let same = parse_term-Agree s l in
      elim (Option-cases (parse_term F degrees p s)) [
        | inl y ↦
            let z : parse_term F degrees q s ≡ none = sym same ∙ y in
            rw (y, z, parse_expression) refl
        | inr (w, y) ↦
            let z : parse_term F degrees q s ≡ some w = sym same ∙ y in
            let less = rw y at (parse_term-Shrinks F degrees p h s) in
            rw (y, z, parse_expression)
              (expression_loop-Agree (length w.1 + 1) w.0 w.1 (omega arith))
      ]

-- ===== src/Calculator/Reading.antt =====
-- What the calculator's parser reads off numerals, names and parentheses.
use waylaunch.Prelude.{
  ℕ, suc, ◌≡◌, refl, ap, ◌∙◌, Bool, true, Option, none, some, [], ◌∷◌, ◌++◌, arith,
}
use waylaunch.Prelude.Tests.{◌>>=◌}
use waylaunch.Prelude.Text.{Text, is_space, to_lower_text}
use waylaunch.Prelude.Decimal.{is_digit, skip_spaces, StartsDigit}
use waylaunch.Calculator.Floats.{Floats}
use waylaunch.Calculator.Parser.{
  Parser, with_rest, is_alpha, is_numeral, span, behind_byte, closed, is_product, is_sum,
  parse_expression, negated_factor, group, call, call_value, named, name_at, number_at, factor_at,
  parse_factor,
}
use waylaunch.Calculator.Grammar.{
  Constant, Function, constant_name, function_name, value_of_constant, value_of_function,
}
use waylaunch.Calculator.Spelling.{
  follows_factor, skip_follow, StartsLetter, span-constant, span-function, constant_of-name,
  function_of-name, constant-StartsLetter, function-StartsLetter,
}

pub closed_lem : (rest : Text) → closed (b')' ∷ rest) ≡ rest
unfolding closed skip_spaces is_space behind_byte
closed_lem rest = refl

module _ {ℓ} {D : Type ℓ} (F : Floats D) (degrees : Bool) (factor : Parser D) where
  -- What parse_factor does with a byte that begins a numeral or a name.
  digit_first :
      (c : ℕ) (s : Text)
      → is_digit c ≡ true
      → (skip_spaces (c ∷ s) ≡ c ∷ s)
        × (factor_at F degrees factor (c ∷ s) ≡ number_at F (span is_numeral (c ∷ s)))
  unfolding factor_at skip_spaces is_space is_digit is_alpha is_numeral
  digit_first c s h = ground arith

  letter_first :
      (c : ℕ) (s : Text)
      → is_alpha c ≡ true
      → (skip_spaces (c ∷ s) ≡ c ∷ s)
        × (factor_at F degrees factor (c ∷ s) ≡ name_at F degrees factor (span is_alpha (c ∷ s)))
  unfolding factor_at skip_spaces is_space is_alpha
  letter_first c s h = ground arith

  pub group_step :
      (x : Option D) (s rest : Text)
      → parse_expression F degrees factor s ≡ with_rest (b')' ∷ rest) x
      → group F degrees factor s ≡ with_rest rest x
  unfolding group
  group_step none s rest h = rw (h, group) refl
  group_step (some v) s rest h = rw (h, group) (rw (closed_lem rest) refl)

  call_step :
      (g : Function) (x : Option D) (s rest : Text)
      → parse_expression F degrees factor s ≡ with_rest (b')' ∷ rest) x
      → named F degrees factor (to_lower_text (function_name g)) (b'(' ∷ s)
        ≡ with_rest rest (x >>= (λ v. some (value_of_function F degrees g v)))
  unfolding named behind_byte call call_value
  call_step g none s rest h = rw (h, call) refl
  call_step g (some v) s rest h =
      rw (h, call) (rw (closed_lem rest, function_of-name F degrees g, call_value) refl)

  no_parenthesis : (rest : Text) → follows_factor rest ≡ true → behind_byte b'(' rest ≡ none
  unfolding behind_byte is_product is_sum
  no_parenthesis [] h = refl
  no_parenthesis (c ∷ s) h = ground arith

  constant_step :
      (c : Constant) (rest : Text)
      → follows_factor rest ≡ true
      → named F degrees factor (to_lower_text (constant_name c)) rest
        ≡ some (value_of_constant F c, rest)
  unfolding named
  constant_step c rest h = rw (no_parenthesis rest h, constant_of-name F c, named) refl

module _ {ℓ} {D : Type ℓ} (F : Floats D) (degrees : Bool) (fuel : ℕ) where
  pub number_read :
      (w rest : Text)
      → StartsDigit w
      → span is_numeral (w ++ rest) ≡ (w, rest)
      → parse_factor F degrees (suc fuel) (w ++ rest) ≡ with_rest rest (F.stod w)
  unfolding parse_factor number_at
  number_read w rest (c, ds, e, d) h =
      let (a, b) = digit_first F degrees (parse_factor F degrees fuel) c (ds ++ rest) d in
      rw e (rw (a, b) (rw (rw e at h) refl))

  name_read :
      (w rest : Text)
      → StartsLetter w
      → span is_alpha (w ++ rest) ≡ (w, rest)
      → parse_factor F degrees (suc fuel) (w ++ rest)
        ≡ named F degrees (parse_factor F degrees fuel) (to_lower_text w) (skip_spaces rest)
  unfolding parse_factor name_at
  name_read w rest (c, ds, e, d) h =
      let (a, b) = letter_first F degrees (parse_factor F degrees fuel) c (ds ++ rest) d in
      rw e (rw (a, b) (rw (rw e at h) refl))

  pub constant_read :
      (c : Constant) (rest : Text)
      → follows_factor rest ≡ true
      → parse_factor F degrees (suc fuel) (constant_name c ++ rest)
        ≡ some (value_of_constant F c, rest)
  constant_read c rest h =
      name_read (constant_name c) rest (constant-StartsLetter c) (span-constant c rest h)
      ∙ ap (named F degrees (parse_factor F degrees fuel) (to_lower_text (constant_name c)))
          (skip_follow rest h)
      ∙ constant_step F degrees (parse_factor F degrees fuel) c rest h

  pub call_read :
      (g : Function) (x : Option D) (s rest : Text)
      → parse_expression F degrees (parse_factor F degrees fuel) s ≡ with_rest (b')' ∷ rest) x
      → parse_factor F degrees (suc fuel) (function_name g ++ (b'(' ∷ s))
        ≡ with_rest rest (x >>= (λ v. some (value_of_function F degrees g v)))
  unfolding skip_spaces is_space
  call_read g x s rest h =
      name_read (function_name g) (b'(' ∷ s) (function-StartsLetter g) (span-function g s)
      ∙ call_step F degrees (parse_factor F degrees fuel) g x s rest h

  pub negative_read :
      (x : Option D) (s rest : Text)
      → parse_factor F degrees fuel s ≡ with_rest rest x
      → parse_factor F degrees (suc fuel) (b'-' ∷ s)
        ≡ with_rest rest (x >>= (λ v. some (F.negated v)))
  unfolding parse_factor factor_at negated_factor skip_spaces is_space
  negative_read none s rest h = rw (h, negated_factor) refl
  negative_read (some v) s rest h = rw (h, negated_factor) refl

  pub positive_read :
      (s : Text) → parse_factor F degrees (suc fuel) (b'+' ∷ s) ≡ parse_factor F degrees fuel s
  unfolding parse_factor factor_at skip_spaces is_space
  positive_read s = refl

  pub group_read :
      (x : Option D) (s rest : Text)
      → parse_expression F degrees (parse_factor F degrees fuel) s ≡ with_rest (b')' ∷ rest) x
      → parse_factor F degrees (suc fuel) (b'(' ∷ s) ≡ with_rest rest x
  unfolding parse_factor factor_at skip_spaces is_space
  group_read x s rest h = group_step F degrees (parse_factor F degrees fuel) x s rest h

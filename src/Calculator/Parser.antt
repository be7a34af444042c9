-- ===== src/Calculator/Parser.antt =====
-- Calculator::Parser of src/modes/calculator.cpp. The position is the text that is left, and what
-- throws gives no result. parse_factor calls itself and parse_expression on fuel.
use waylaunch.Prelude.{ℕ, zero, suc, ◌+◌, Bool, true, false, ◌&&◌, Option, none, some, [], ◌∷◌}
use waylaunch.Prelude.Tests.{leb, ◌==◌, if◌then◌else◌}
use waylaunch.Prelude.Lists.{length}
use waylaunch.Prelude.Text.{Text, to_lower_text}
use waylaunch.Prelude.Decimal.{is_digit, skip_spaces}
use waylaunch.Calculator.Floats.{Floats, function_of, constant_of}

-- `std::isalpha` in the C locale.
unfoldable pub is_alpha : ℕ → Bool
is_alpha c = if leb b'A' c && leb c b'Z' then true else leb b'a' c && leb c b'z'

unfoldable pub is_numeral : ℕ → Bool
is_numeral c = if is_digit c then true else c == b'.'

-- The bytes at the front that pass a test, and the rest.
abbrev put {ℓ} : {A : Type ℓ} → ℕ → Text × A → Text × A
put c (w, s) = (c ∷ w, s)

unfoldable pub span : (ℕ → Bool) → Text → Text × Text
span p [] = ([], [])
span p (c ∷ s) = let more = put c (span p s) in if p c then more else ([], c ∷ s)

-- The text behind the byte, where it is at the front.
unfoldable pub behind_byte : ℕ → Text → Option Text
behind_byte c [] = none
behind_byte c (d ∷ s) = if d == c then some s else none

-- A closing parenthesis that may be missing.
abbrev or_same : Text → Option Text → Text
or_same s none = s
or_same s (some s') = s'

unfoldable pub closed : Text → Text
closed s = or_same (skip_spaces s) (behind_byte b')' (skip_spaces s))

abbrev pub Parser {ℓ} : Type ℓ → Type ℓ
Parser D = Text → Option (D × Text)

abbrev pub with_rest {ℓ} : {D : Type ℓ} → Text → Option D → Option (D × Text)
with_rest s none = none
with_rest s (some v) = some (v, s)

unfoldable pub is_product : ℕ → Bool
is_product c = if c == b'*' then true else if c == b'/' then true else c == b'^'

unfoldable pub is_sum : ℕ → Bool
is_sum c = if c == b'+' then true else c == b'-'

module _ {ℓ} {D : Type ℓ} (F : Floats D) where
  -- A factor behind an operator of a term, applied to what stands before.
  unfoldable pub multiplied : ℕ → D → D → Option D
  multiplied op left right =
      if op == b'*'
      then some (F.times left right)
      else if op == b'/'
      then (if F.equal right F.zero then none else some (F.over left right))
      else some (F.pow left right)

  unfoldable pub added : ℕ → D → D → D
  added op left right = if op == b'+' then F.plus left right else F.minus left right

  unfoldable pub number_at : Text × Text → Option (D × Text)
  number_at (numeral, s) = with_rest s (F.stod numeral)

module _ {ℓ} {D : Type ℓ} (F : Floats D) (degrees : Bool) where
  -- The value of a name that an argument follows.
  unfoldable pub call_value : Text → D → Option D
  call_value func arg = elim (function_of F degrees func) [
    | some f ↦ some (f arg)
    | none ↦ constant_of F func
  ]

  module _ (factor : Parser D) where
    unfoldable pub term_loop : ℕ → D → Text → Option (D × Text)
    term_loop zero left s = none
    term_loop (suc fuel) left s = elim (skip_spaces s) [
      | [] ↦ some (left, [])
      | op ∷ r ↦ elim (is_product op) [
        | false ↦ some (left, op ∷ r)
        | true ↦ elim (factor r) [
          | none ↦ none
          | some (right, r') ↦ elim (multiplied F op left right) [
            | none ↦ none
            | some v ↦ term_loop fuel v r'
          ]
        ]
      ]
    ]

    unfoldable pub parse_term : Parser D
    unfolding term_loop
    parse_term s = elim (factor s) [ none ↦ none | some (v, r) ↦ term_loop (length r + 1) v r ]

    unfoldable pub expression_loop : ℕ → D → Text → Option (D × Text)
    unfolding parse_term
    expression_loop zero left s = none
    expression_loop (suc fuel) left s = elim (skip_spaces s) [
      | [] ↦ some (left, [])
      | op ∷ r ↦ elim (is_sum op) [
        | false ↦ some (left, op ∷ r)
        | true ↦ elim (parse_term r) [
          | none ↦ none
          | some (right, r') ↦ expression_loop fuel (added F op left right) r'
        ]
      ]
    ]

    unfoldable pub parse_expression : Parser D
    unfolding expression_loop parse_term
    parse_expression s = elim (parse_term s) [
      | none ↦ none
      | some (v, r) ↦ expression_loop (length r + 1) v r
    ]

    unfoldable pub negated_factor : Parser D
    negated_factor s = elim (factor s) [ none ↦ none | some (v, r) ↦ some (F.negated v, r) ]

    unfoldable pub group : Parser D
    unfolding parse_expression
    group s = elim (parse_expression s) [ none ↦ none | some (v, r) ↦ some (v, closed r) ]

    unfoldable pub call : Text → Parser D
    unfolding parse_expression call_value
    call func s = elim (parse_expression s) [
      | none ↦ none
      | some (arg, r) ↦ with_rest (closed r) (call_value func arg)
    ]

    -- A name, given the text behind it.
    unfoldable pub named : Text → Parser D
    unfolding call
    named func s = elim (behind_byte b'(' s) [
      | some r ↦ call func r
      | none ↦ with_rest s (constant_of F func)
    ]

    unfoldable pub name_at : Text × Text → Option (D × Text)
    unfolding named
    name_at (name, s) = named (to_lower_text name) (skip_spaces s)

    unfoldable pub factor_at : Parser D
    unfolding name_at number_at group negated_factor
    factor_at [] = none
    factor_at (c ∷ s) =
        if c == b'-'
        then negated_factor s
        else if c == b'+'
        then factor s
        else if c == b'('
        then group s
        else if is_alpha c
        then name_at (span is_alpha (c ∷ s))
        else if is_numeral c
        then number_at F (span is_numeral (c ∷ s))
        else none

  unfoldable pub parse_factor : ℕ → Parser D
  unfolding factor_at
  parse_factor zero s = none
  parse_factor (suc fuel) s = factor_at (parse_factor fuel) (skip_spaces s)

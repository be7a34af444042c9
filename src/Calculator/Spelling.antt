-- ===== src/Calculator/Spelling.antt =====
-- How the parser of the calculator takes numerals and names off a text.
use waylaunch.Prelude.{ℕ, ◌≡◌, refl, Bool, true, false, some, [], ◌∷◌, ◌++◌, inl, inr, arith}
use waylaunch.Prelude.Tests.{◌==◌, if◌then◌else◌, Bool-cases}
use waylaunch.Prelude.Lists.{All}
use waylaunch.Prelude.Text.{Text, to_lower_text, to_lower, is_space, text_eq}
use waylaunch.Prelude.Decimal.{is_digit, skip_spaces, show_ℕ, show_ℕ-IsDigit}
use waylaunch.Calculator.Floats.{Floats, MathFunction, function_of, constant_of}
use waylaunch.Calculator.Parser.{is_alpha, is_numeral, span, is_product, is_sum}
use waylaunch.Calculator.Grammar.{
  Function, Constant, function_name, constant_name, fraction_text, value_of_function,
  value_of_constant,
}

-- What may stand behind an expression in parentheses, a term and a factor.
abbrev pub follows_sums : Text → Bool
follows_sums [] = true
follows_sums (c ∷ s) = c == b')'

abbrev pub follows_term : Text → Bool
follows_term [] = true
follows_term (c ∷ s) = if is_sum c then true else c == b')'

abbrev pub follows_factor : Text → Bool
follows_factor [] = true
follows_factor (c ∷ s) = if is_product c then true else if is_sum c then true else c == b')'

pub skip_follow : (s : Text) → follows_factor s ≡ true → skip_spaces s ≡ s
unfolding skip_spaces is_space is_product is_sum
skip_follow [] h = refl
skip_follow (c ∷ s) h = ground arith

-- The text ends, or goes on with a byte that fails the test.
abbrev fails_first : (ℕ → Bool) → Text → Bool
fails_first p [] = true
fails_first p (c ∷ s) = if p c then false else true

numeral_fails : (s : Text) → follows_factor s ≡ true → fails_first is_numeral s ≡ true
unfolding is_product is_sum is_numeral is_digit
numeral_fails [] h = refl
numeral_fails (c ∷ s) h = ground arith

alpha_fails : (s : Text) → follows_factor s ≡ true → fails_first is_alpha s ≡ true
unfolding is_product is_sum is_alpha
alpha_fails [] h = refl
alpha_fails (c ∷ s) h = ground arith

span-append :
    (p : ℕ → Bool) (w s : Text)
    → All (λ c. p c ≡ true) w
    → fails_first p s ≡ true
    → span p (w ++ s) ≡ (w, s)
unfolding span
span-append p [] [] a h = refl
span-append p [] (c ∷ s) a h = elim (Bool-cases (p c)) [
  | inl e ↦ absurd (grind arith)
  | inr e ↦ rw (e, span) refl
]
span-append p (c ∷ w) s (x, a) h = rw (x, span) (rw (span-append p w s a h) refl)

IsNumeral : Text → Type 0
IsNumeral w = All (λ c. is_numeral c ≡ true) w

digits-IsNumeral : (w : Text) → All (λ c. is_digit c ≡ true) w → IsNumeral w
unfolding is_numeral IsNumeral
digits-IsNumeral [] a = tt
digits-IsNumeral (c ∷ w) (x, a) = (rw x refl, digits-IsNumeral w a)

IsNumeral-append : (v w : Text) → IsNumeral v → IsNumeral w → IsNumeral (v ++ w)
unfolding IsNumeral
IsNumeral-append [] w a b = b
IsNumeral-append (c ∷ v) w (x, a) b = (x, IsNumeral-append v w a b)

show-IsNumeral : (n : ℕ) → IsNumeral (show_ℕ n)
show-IsNumeral n = digits-IsNumeral (show_ℕ n) (show_ℕ-IsDigit n)

fraction-IsNumeral : (a b : ℕ) → IsNumeral (fraction_text a b)
unfolding IsNumeral is_numeral is_digit
fraction-IsNumeral a b =
    IsNumeral-append (show_ℕ a) (b'.' ∷ show_ℕ b) (show-IsNumeral a) (refl, show-IsNumeral b)

pub span-show :
    (n : ℕ) (rest : Text)
    → follows_factor rest ≡ true
    → span is_numeral (show_ℕ n ++ rest) ≡ (show_ℕ n, rest)
unfolding IsNumeral
span-show n rest h =
    span-append is_numeral (show_ℕ n) rest (show-IsNumeral n) (numeral_fails rest h)

pub span-fraction :
    (a b : ℕ) (rest : Text)
    → follows_factor rest ≡ true
    → span is_numeral (fraction_text a b ++ rest) ≡ (fraction_text a b, rest)
unfolding IsNumeral
span-fraction a b rest h =
    span-append is_numeral (fraction_text a b) rest (fraction-IsNumeral a b) (numeral_fails rest h)

abbrev AllLetters : Text → Type 0
AllLetters w = All (λ c. is_alpha c ≡ true) w

constant-AllLetters : (c : Constant) → AllLetters (constant_name c)
unfolding is_alpha
constant-AllLetters Constant.pi = (refl, (refl, tt))
constant-AllLetters Constant.e = (refl, tt)
constant-AllLetters Constant.phi = (refl, (refl, (refl, tt)))
constant-AllLetters Constant.infinity = (refl, (refl, (refl, tt)))
constant-AllLetters Constant.not_a_number = (refl, (refl, (refl, tt)))

pub span-constant :
    (c : Constant) (rest : Text)
    → follows_factor rest ≡ true
    → span is_alpha (constant_name c ++ rest) ≡ (constant_name c, rest)
span-constant c rest h =
    span-append is_alpha (constant_name c) rest (constant-AllLetters c) (alpha_fails rest h)

pub constant_of-name {ℓ} :
    {D : Type ℓ} (F : Floats D) (c : Constant)
    → constant_of F (to_lower_text (constant_name c)) ≡ some (value_of_constant F c)
unfolding constant_of to_lower_text to_lower text_eq
constant_of-name F Constant.pi = refl
constant_of-name F Constant.e = refl
constant_of-name F Constant.phi = refl
constant_of-name F Constant.infinity = refl
constant_of-name F Constant.not_a_number = refl

pub span-function :
    (g : Function) (rest : Text)
    → span is_alpha (function_name g ++ (b'(' ∷ rest)) ≡ (function_name g, b'(' ∷ rest)
unfolding span is_alpha
span-function Function.sign_of rest = refl
span-function (Function.math MathFunction.sin) rest = refl
span-function (Function.math MathFunction.cos) rest = refl
span-function (Function.math MathFunction.tan) rest = refl
span-function (Function.math MathFunction.asin) rest = refl
span-function (Function.math MathFunction.acos) rest = refl
span-function (Function.math MathFunction.atan) rest = refl
span-function (Function.math MathFunction.sqrt) rest = refl
span-function (Function.math MathFunction.cbrt) rest = refl
span-function (Function.math MathFunction.log10) rest = refl
span-function (Function.math MathFunction.log) rest = refl
span-function (Function.math MathFunction.exp) rest = refl
span-function (Function.math MathFunction.abs) rest = refl
span-function (Function.math MathFunction.ceil) rest = refl
span-function (Function.math MathFunction.floor) rest = refl
span-function (Function.math MathFunction.round) rest = refl

pub function_of-name {ℓ} :
    {D : Type ℓ} (F : Floats D) (degrees : Bool) (g : Function)
    → function_of F degrees (to_lower_text (function_name g)) ≡ some (value_of_function F degrees g)
unfolding function_of to_lower_text to_lower text_eq
function_of-name F degrees Function.sign_of = refl
function_of-name F degrees (Function.math MathFunction.sin) = refl
function_of-name F degrees (Function.math MathFunction.cos) = refl
function_of-name F degrees (Function.math MathFunction.tan) = refl
function_of-name F degrees (Function.math MathFunction.asin) = refl
function_of-name F degrees (Function.math MathFunction.acos) = refl
function_of-name F degrees (Function.math MathFunction.atan) = refl
function_of-name F degrees (Function.math MathFunction.sqrt) = refl
function_of-name F degrees (Function.math MathFunction.cbrt) = refl
function_of-name F degrees (Function.math MathFunction.log10) = refl
function_of-name F degrees (Function.math MathFunction.log) = refl
function_of-name F degrees (Function.math MathFunction.exp) = refl
function_of-name F degrees (Function.math MathFunction.abs) = refl
function_of-name F degrees (Function.math MathFunction.ceil) = refl
function_of-name F degrees (Function.math MathFunction.floor) = refl
function_of-name F degrees (Function.math MathFunction.round) = refl

-- A text that begins with a letter.
abbrev pub StartsLetter : Text → Type 0
StartsLetter w = (c : ℕ) × (s : Text) × (w ≡ c ∷ s) × (is_alpha c ≡ true)

letter_first : (c : ℕ) (w : Text) → is_alpha c ≡ true → StartsLetter (c ∷ w)
letter_first c w h = (c, w, refl, h)

pub constant-StartsLetter : (c : Constant) → StartsLetter (constant_name c)
unfolding is_alpha
constant-StartsLetter Constant.pi = letter_first _ _ refl
constant-StartsLetter Constant.e = letter_first _ _ refl
constant-StartsLetter Constant.phi = letter_first _ _ refl
constant-StartsLetter Constant.infinity = letter_first _ _ refl
constant-StartsLetter Constant.not_a_number = letter_first _ _ refl

pub function-StartsLetter : (g : Function) → StartsLetter (function_name g)
unfolding is_alpha
function-StartsLetter Function.sign_of = letter_first _ _ refl
function-StartsLetter (Function.math MathFunction.sin) = letter_first _ _ refl
function-StartsLetter (Function.math MathFunction.cos) = letter_first _ _ refl
function-StartsLetter (Function.math MathFunction.tan) = letter_first _ _ refl
function-StartsLetter (Function.math MathFunction.asin) = letter_first _ _ refl
function-StartsLetter (Function.math MathFunction.acos) = letter_first _ _ refl
function-StartsLetter (Function.math MathFunction.atan) = letter_first _ _ refl
function-StartsLetter (Function.math MathFunction.sqrt) = letter_first _ _ refl
function-StartsLetter (Function.math MathFunction.cbrt) = letter_first _ _ refl
function-StartsLetter (Function.math MathFunction.log10) = letter_first _ _ refl
function-StartsLetter (Function.math MathFunction.log) = letter_first _ _ refl
function-StartsLetter (Function.math MathFunction.exp) = letter_first _ _ refl
function-StartsLetter (Function.math MathFunction.abs) = letter_first _ _ refl
function-StartsLetter (Function.math MathFunction.ceil) = letter_first _ _ refl
function-StartsLetter (Function.math MathFunction.floor) = letter_first _ _ refl
function-StartsLetter (Function.math MathFunction.round) = letter_first _ _ refl

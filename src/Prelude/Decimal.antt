-- ===== src/Prelude/Decimal.antt =====
-- Decimal numbers in text: printing, and the C and C++ conversions that read them back.
use Prim.Native.Nat.{ℕ, zero, suc, ◌+◌, ◌-◌, ◌*◌, ◌/◌, ◌%◌, ◌<◌, ◌≤◌}
use mathlib.Core.Path.{◌≡◌, refl, sym, ap, ◌∙◌}
use mathlib.Core.Bool.{Bool, true, false, ◌&&◌}
use mathlib.Core.List.{[], ◌∷◌, ◌++◌, append_assoc, append-nil}
use mathlib.Core.Logic.{inl, inr}
use mathlib.Core.Option.{Option, none, some}
use native.Mathlib.Omega.{arith}
use waylaunch.Prelude.Tests.{leb, ltb, ◌==◌, if◌then◌else◌, Bool-cases, ltb→lt}
use waylaunch.Prelude.Lists.{All}
use waylaunch.Prelude.Int.{ℤ, pos, negsuc, sub_ℕ, leb_ℤ}
use waylaunch.Prelude.Text.{Text, is_space}

unfoldable pub is_digit : ℕ → Bool
is_digit c = leb 48 c && leb c 57

-- The digits of `n`, which is below `fuel`: `std::to_string` and `operator<<`.
digits : ℕ → ℕ → Text
digits zero n = []
digits (suc fuel) n =
    let before = digits fuel (n / 10) in
    if ltb n 10 then (48 + n) ∷ [] else before ++ (48 + n % 10) ∷ []

unfoldable pub show_ℕ : ℕ → Text
unfolding digits
show_ℕ n = digits (suc n) n

-- `operator<<` of a signed number.
unfoldable pub show_ℤ : ℤ → Text
show_ℤ (pos n) = show_ℕ n
show_ℤ (negsuc n) = b'-' ∷ show_ℕ (n + 1)

-- The digits at the front, added to a number read so far, and what follows them.
unfoldable pub read_digits : ℕ → Text → ℕ × Text
read_digits n [] = (n, [])
read_digits n (c ∷ s) =
    let more = read_digits (n * 10 + (c - 48)) s in if is_digit c then more else (n, c ∷ s)

unfoldable pub skip_spaces : Text → Text
skip_spaces [] = []
skip_spaces (c ∷ s) = if is_space c then skip_spaces s else c ∷ s

abbrev pub starts_digit : Text → Bool
starts_digit [] = false
starts_digit (c ∷ s) = is_digit c

abbrev plus : ℕ × Text → Option (ℤ × Text)
plus (n, s) = some (pos n, s)

abbrev minus : ℕ × Text → Option (ℤ × Text)
minus (n, s) = some (sub_ℕ 0 n, s)

unfoldable pub unsigned : Text → Option (ℤ × Text)
unsigned s = if starts_digit s then plus (read_digits 0 s) else none

unfoldable pub signed : Text → Option (ℤ × Text)
unfolding unsigned
signed [] = none
signed (c ∷ s) =
    if c == b'-'
    then (if starts_digit s then minus (read_digits 0 s) else none)
    else if c == b'+'
    then unsigned s
    else unsigned (c ∷ s)

-- An optional sign and digits behind white space: the value and the text that is not read, or
-- `none` where there is no number.
unfoldable pub read_int : Text → Option (ℤ × Text)
unfolding signed
read_int s = signed (skip_spaces s)

-- `strtol` in base 10, less its cut at LONG_MAX: every caller refuses far smaller numbers.
unfoldable pub strtol : Text → Option ℤ
strtol s = elim (read_int s) [ none ↦ none | some (n, rest) ↦ some n ]

-- `std::stoi`: `none` where it throws, out of the range of an `int` included.
unfoldable pub stoi : Text → Option (ℤ × Text)
stoi s = elim (read_int s) [
  | none ↦ none
  | some (n, rest) ↦
      if leb_ℤ (negsuc 2_147_483_647) n && leb_ℤ n (pos 2_147_483_647) then some (n, rest) else none
]

digit_test : (d : ℕ) → d < 10 → is_digit (48 + d) ≡ true
unfolding is_digit
digit_test d h = ground arith

read_digits-digit :
    (a d : ℕ) (s : Text) → d < 10 → read_digits a ((48 + d) ∷ s) ≡ read_digits (a * 10 + d) s
unfolding read_digits
read_digits-digit a d s h =
    let value : a * 10 + (48 + d - 48) ≡ a * 10 + d = omega arith in rw (digit_test d h) (rw value)

digits-read :
    (fuel n : ℕ) (s : Text) → n < fuel → read_digits 0 (digits fuel n ++ s) ≡ read_digits n s
unfolding digits
digits-read zero n s h = elim h [ ]
digits-read (suc fuel) n s h = elim (Bool-cases (ltb n 10)) [
  | inl e ↦
      let start : 0 * 10 + n ≡ n = omega arith in
      rw (e, digits) (read_digits-digit 0 n s (ltb→lt n 10 e) ∙ ap (λ k. read_digits k s) start)
  | inr e ↦
      let value : n / 10 * 10 + n % 10 ≡ n = omega arith in
      rw (e, digits)
        (rw (append_assoc (digits fuel (n / 10)) ((48 + n % 10) ∷ []) s) (
          digits-read fuel (n / 10) ((48 + n % 10) ∷ s) (ground arith)
          ∙ (read_digits-digit (n / 10) (n % 10) s (omega arith)
              ∙ ap (λ k. read_digits k s) value)))
]

All-append :
    (s : Text) (d : ℕ)
    → All (λ c. is_digit c ≡ true) s
    → is_digit d ≡ true
    → All (λ c. is_digit c ≡ true) (s ++ d ∷ [])
All-append [] d a h = (h, tt)
All-append (c ∷ s) d (x, a) h = (x, All-append s d a h)

digits-IsDigit : (fuel n : ℕ) → All (λ c. is_digit c ≡ true) (digits fuel n)
unfolding digits
digits-IsDigit zero n = tt
digits-IsDigit (suc fuel) n = elim (Bool-cases (ltb n 10)) [
  | inl e ↦ rw (e, All) (digit_test n (ltb→lt n 10 e), tt)
  | inr e ↦
      rw (e, All)
        (All-append (digits fuel (n / 10)) (48 + n % 10) (digits-IsDigit fuel (n / 10))
          (digit_test (n % 10) (omega arith)))
]

-- A printed number has digits alone.
pub show_ℕ-IsDigit : (n : ℕ) → All (λ c. is_digit c ≡ true) (show_ℕ n)
unfolding show_ℕ
show_ℕ-IsDigit n = digits-IsDigit (suc n) n

digits_head : (fuel n : ℕ) (s : Text) → n < fuel → starts_digit (digits fuel n ++ s) ≡ true
unfolding digits
digits_head zero n s h = elim h [ ]
digits_head (suc fuel) n s h = elim (Bool-cases (ltb n 10)) [
  | inl e ↦ rw (e, digits) (digit_test n (ltb→lt n 10 e))
  | inr e ↦
      rw (e, digits)
        (rw (append_assoc (digits fuel (n / 10)) ((48 + n % 10) ∷ []) s)
          (digits_head fuel (n / 10) ((48 + n % 10) ∷ s) (ground arith)))
]

-- A printed number starts with a digit.
abbrev pub StartsDigit : Text → Type 0
StartsDigit s = (c : ℕ) × (rest : Text) × (s ≡ c ∷ rest) × (is_digit c ≡ true)

starts_digit_lem : (s : Text) → starts_digit s ≡ true → StartsDigit s
starts_digit_lem [] h = cc
starts_digit_lem (c ∷ s) h = (c, s, refl, h)

pub show_ℕ-StartsDigit : (n : ℕ) → StartsDigit (show_ℕ n)
unfolding show_ℕ
show_ℕ-StartsDigit n =
    starts_digit_lem (show_ℕ n) (rw append-nil at (digits_head (suc n) n [] (omega arith)))

read_digits_stop : (n : ℕ) (s : Text) → starts_digit s ≡ false → read_digits n s ≡ (n, s)
unfolding read_digits
read_digits_stop n [] h = refl
read_digits_stop n (c ∷ s) h = ground arith

-- A text that starts with a digit has no space and no sign to skip.
read_int_digit : (s : Text) → starts_digit s ≡ true → read_int s ≡ plus (read_digits 0 s)
unfolding read_int skip_spaces is_space is_digit
read_int_digit [] h = cc
read_int_digit (c ∷ s) h = ground arith

-- A printed number is read back, up to a rest that does not go on with a digit.
pub read_int-show_ℕ :
    (n : ℕ) (s : Text) → starts_digit s ≡ false → read_int (show_ℕ n ++ s) ≡ some (pos n, s)
unfolding show_ℕ
read_int-show_ℕ n s h =
    rw (read_int_digit (digits (suc n) n ++ s) (digits_head (suc n) n s (omega arith)))
      (rw (digits-read (suc n) n s (omega arith)) (rw (read_digits_stop n s h)))

pub read_shown : (n : ℕ) → read_int (show_ℕ n) ≡ some (pos n, [])
read_shown n = ap read_int (sym (append-nil (show_ℕ n))) ∙ read_int-show_ℕ n [] refl

pub stoi-show_ℕ :
    (n : ℕ) (s : Text)
    → starts_digit s ≡ false
    → n ≤ 2_147_483_647
    → stoi (show_ℕ n ++ s) ≡ some (pos n, s)
unfolding stoi
stoi-show_ℕ n s h b = rw (read_int-show_ℕ n s h, stoi) (ground arith)

pub strtol-show_ℕ :
    (n : ℕ) (s : Text) → starts_digit s ≡ false → strtol (show_ℕ n ++ s) ≡ some (pos n)
unfolding strtol
strtol-show_ℕ n s h = rw (read_int-show_ℕ n s h, strtol)

-- Leading blanks are skipped.
pub strtol-blank : (s : Text) → strtol (32 ∷ s) ≡ strtol s
unfolding strtol read_int skip_spaces is_space
strtol-blank s = refl

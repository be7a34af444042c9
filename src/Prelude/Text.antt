-- ===== src/Prelude/Text.antt =====
-- Text as the list of its bytes (`std::string`), with the operations that several parts use.
use Prim.Native.Nat.{ℕ, ◌+◌}
use Prim.Native.Char.{code}
use Prim.Native.String.{String}
use mathlib.Core.Path.{◌≡◌, refl}
use mathlib.Core.Logic.{◌↔◌}
use mathlib.Core.Bool.{Bool, true, false, ◌&&◌, ◌||◌}
use mathlib.Core.List.{List, [], ◌∷◌, ◌++◌, map}
use native.Mathlib.Omega.{arith}
use waylaunch.Prelude.Tests.{ltb, leb, ◌==◌, if◌then◌else◌}

abbrev pub Text : Type 0
Text = List ℕ

-- The bytes of an ASCII literal.
abbrev pub codes : String → Text
codes String.[] = []
codes (String.◌∷◌ c s) = code c ∷ codes s

-- `operator==` of `std::string`.
unfoldable pub text_eq : Text → Text → Bool
text_eq [] [] = true
text_eq [] (d ∷ t) = false
text_eq (c ∷ s) [] = false
text_eq (c ∷ s) (d ∷ t) = c == d && text_eq s t

pub text_eq_iff : (s t : Text) → (text_eq s t ≡ true) ↔ (s ≡ t)
unfolding text_eq
text_eq_iff [] [] = ground arith
text_eq_iff [] (d ∷ t) = ground arith
text_eq_iff (c ∷ s) [] = ground arith
text_eq_iff (c ∷ s) (d ∷ t) = ground (arith, text_eq_iff s t)

pub text_eq_refl : (s : Text) → text_eq s s ≡ true
text_eq_refl s = (text_eq_iff s s).1 refl

-- `std::tolower` in the C locale.
unfoldable pub to_lower : ℕ → ℕ
to_lower c = if leb b'A' c && leb c b'Z' then c + 32 else c

pub to_lower_idem : (c : ℕ) → to_lower (to_lower c) ≡ to_lower c
unfolding to_lower
to_lower_idem c = ground arith

-- `std::isspace` in the C locale.
unfoldable pub is_space : ℕ → Bool
is_space c = if c == 32 then true else leb 9 c && leb c 13

-- `operator<` of `std::string`.
unfoldable pub text_ltb : Text → Text → Bool
text_ltb [] [] = false
text_ltb [] (d ∷ t) = true
text_ltb (c ∷ s) [] = false
text_ltb (c ∷ s) (d ∷ t) = if c == d then text_ltb s t else ltb c d

-- The words between white space (`operator>>` of a stream).
abbrev pub word_done : Text → List Text → List Text
word_done [] ws = ws
word_done (c ∷ w) ws = (c ∷ w) ∷ ws

unfoldable pub words_from : Text → Text → List Text
words_from word [] = word_done word []
words_from word (c ∷ s) = elim (is_space c) [
  | true ↦ word_done word (words_from [] s)
  | false ↦ words_from (word ++ c ∷ []) s
]

unfoldable pub words : Text → List Text
words s = words_from [] s

-- The words with a space between two.
abbrev pub join : List Text → Text
join [] = []
join (w ∷ []) = w
join (w ∷ v ∷ ws) = w ++ (32 ∷ join (v ∷ ws))

unfoldable pub to_lower_text : Text → Text
to_lower_text s = map to_lower s

-- Whether the byte stands in the text.
unfoldable pub has_byte : ℕ → Text → Bool
has_byte c [] = false
has_byte c (d ∷ s) = if d == c then true else has_byte c s

-- `std::isxdigit` in the C locale.
unfoldable pub is_xdigit : ℕ → Bool
is_xdigit c = leb 48 c && leb c 57 || (leb 65 c && leb c 70 || leb 97 c && leb c 102)

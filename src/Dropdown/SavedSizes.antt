-- ===== src/Dropdown/SavedSizes.antt =====
-- The rows of the dropdown's saved sizes are read back.
use waylaunch.Prelude.{
  ℕ, ◌<◌, ◌≤◌, ◌≡◌, refl, sym, ap, ◌∙◌, true, false, some, [], ◌∷◌, ◌++◌, inl, inr, arith,
}
use mathlib.Core.List.{append-nil}
use waylaunch.Prelude.Tests.{◌==◌, Bool-cases}
use waylaunch.Prelude.Lists.{All, is_empty}
use waylaunch.Prelude.Int.{pos}
use waylaunch.Prelude.Text.{has_byte, Text}
use waylaunch.Prelude.Decimal.{show_ℕ, show_ℤ, stoi, stoi-show_ℕ, show_ℕ-IsDigit, is_digit}
use waylaunch.Dropdown.State.{
  cut_at, whole_number, positive_size, parse_size, parse_fields, parse_row, print_row,
}

-- A text without the byte is cut right behind it.
cut_at_front :
    (c : ℕ) (s rest : Text) → has_byte c s ≡ false → cut_at c (s ++ (c ∷ rest)) ≡ some (s, rest)
unfolding cut_at has_byte
cut_at_front c [] rest h = grind arith
cut_at_front c (d ∷ s) rest h = elim (Bool-cases (d == c)) [
  | inl e ↦ cc (rw e at h)
  | inr e ↦ rw (e, cut_at) (rw (cut_at_front c s rest (rw e at h)) refl)
]

digits_without_tab : (s : Text) → All (λ c. is_digit c ≡ true) s → has_byte 9 s ≡ false
unfolding has_byte is_digit
digits_without_tab [] a = refl
digits_without_tab (c ∷ s) (x, a) = ground (arith, digits_without_tab s a)

stoi_shown : (n : ℕ) → n ≤ 2_147_483_647 → stoi (show_ℕ n) ≡ some (pos n, [])
stoi_shown n h = ap stoi (sym (append-nil (show_ℕ n))) ∙ stoi-show_ℕ n [] refl h

parse_size_shown :
    (w h : ℕ)
    → 0 < w
    → w ≤ 2_147_483_647
    → 0 < h
    → h ≤ 2_147_483_647
    → parse_size (show_ℕ w) (show_ℕ h) ≡ some (record { w = pos w; h = pos h })
unfolding parse_size whole_number positive_size
parse_size_shown w h a b c d = rw (stoi_shown w b, stoi_shown h d) (grind arith)

-- The row of a slot that save_slot accepts, with a size within the range of an int, is read back
-- as that slot and that size.
pub saved_row :
    (slot : Text) (w h : ℕ)
    → is_empty slot ≡ false
    → has_byte 9 slot ≡ false
    → has_byte 10 slot ≡ false
    → 0 < w
    → w ≤ 2_147_483_647
    → 0 < h
    → h ≤ 2_147_483_647
    → parse_row (print_row slot (record { w = pos w; h = pos h }))
      ≡ some (slot, record { w = pos w; h = pos h })
unfolding parse_row print_row parse_fields show_ℤ
saved_row slot w h s t l a b c d = rw (cut_at_front 9 slot (show_ℕ w ++ (9 ∷ show_ℕ h)) t) (
    rw (cut_at_front 9 (show_ℕ w) (show_ℕ h) (digits_without_tab (show_ℕ w) (show_ℕ-IsDigit w)))
      (rw (s, l, parse_size_shown w h a b c d) refl))

-- ===== src/History/RoundTrip.antt =====
-- The rows of the history file are read back.
use waylaunch.Prelude.{
  ℕ, ◌^◌, ◌<◌, ◌≡◌, refl, sym, ap, ◌∙◌, true, false, some, List, [], ◌∷◌, ◌++◌, inl, inr, arith,
}
use mathlib.Core.List.{append_assoc, append-nil}
use waylaunch.Prelude.Tests.{◌==◌, Bool-cases, ==_iff}
use waylaunch.Prelude.Lists.{All, is_empty}
use waylaunch.Prelude.Int.{pos}
use waylaunch.Prelude.Text.{Text, codes, text_eq}
use waylaunch.Prelude.Decimal.{show_ℤ, show_ℕ-IsDigit, show_ℕ, read_shown, is_digit}
use waylaunch.History.Rows.{
  HistoryEntry, escape_field, unescape, split_from, split_fields, stoll, in_long_range,
  stoul_uint32, as_uint32, print_row, parse_row, from_fields, entry_of, checked_entry,
}

-- Splitting goes over an escaped field and adds the field to what it has read of it.
split_from-escape_field :
    (fields : List Text) (cur s rest : Text)
    → split_from fields cur false (escape_field s ++ rest) ≡ split_from fields (cur ++ s) false rest
unfolding split_from escape_field unescape
split_from-escape_field fields cur [] rest =
    ap (λ t. split_from fields t false rest) (sym (append-nil cur))
split_from-escape_field fields cur (c ∷ s) rest =
    let tail : split_from fields (cur ++ (c ∷ [])) false (escape_field s ++ rest)
        ≡ split_from fields (cur ++ (c ∷ s)) false rest =
      split_from-escape_field fields (cur ++ (c ∷ [])) s rest
      ∙ ap (λ t. split_from fields t false rest) (append_assoc cur (c ∷ []) s) in
    elim (Bool-cases (c == 92)) [
      | inl e ↦ let same = (==_iff c 92).0 e in rw same (rw same at tail)
      | inr a ↦ elim (Bool-cases (c == 9)) [
        | inl e ↦ let same = (==_iff c 9).0 e in rw same (rw same at tail)
        | inr b ↦ elim (Bool-cases (c == 10)) [
          | inl e ↦ let same = (==_iff c 10).0 e in rw same (rw same at tail)
          | inr d ↦ rw (d, b, a, split_from) (rw (b, a) tail)
        ]
      ]
    ]

field_then :
    (fields : List Text) (s rest : Text)
    → split_from fields [] false (escape_field s ++ (9 ∷ rest))
      ≡ split_from (fields ++ (s ∷ [])) [] false rest
unfolding split_from
field_then fields s rest = split_from-escape_field fields [] s (9 ∷ rest)

last_field :
    (fields : List Text) (s : Text)
    → split_from fields [] false (escape_field s) ≡ fields ++ (s ∷ [])
unfolding split_from
last_field fields s =
    ap (λ t. split_from fields [] false t) (sym (append-nil (escape_field s)))
    ∙ split_from-escape_field fields [] s []

escape_digits : (s : Text) → All (λ c. is_digit c ≡ true) s → escape_field s ≡ s
unfolding escape_field is_digit
escape_digits [] a = refl
escape_digits (c ∷ s) (x, a) = ground (arith, escape_digits s a)

number_then :
    (fields : List Text) (n : ℕ) (rest : Text)
    → split_from fields [] false (show_ℕ n ++ (9 ∷ rest))
      ≡ split_from (fields ++ (show_ℕ n ∷ [])) [] false rest
number_then fields n rest =
    ap (λ t. split_from fields [] false (t ++ (9 ∷ rest)))
      (sym (escape_digits (show_ℕ n) (show_ℕ-IsDigit n)))
    ∙ field_then fields (show_ℕ n) rest

split_fields-row :
    (t u : ℕ) (query key : Text)
    → split_fields (
        codes "1"
        ++ (9
            ∷ (show_ℕ t
                ++ (9 ∷ (show_ℕ u ++ (9 ∷ (escape_field query ++ (9 ∷ escape_field key))))))))
      ≡ codes "1" ∷ show_ℕ t ∷ show_ℕ u ∷ query ∷ key ∷ []
unfolding split_fields split_from
split_fields-row t u query key =
    number_then (codes "1" ∷ []) t
      (show_ℕ u ++ (9 ∷ (escape_field query ++ (9 ∷ escape_field key))))
    ∙ number_then (codes "1" ∷ show_ℕ t ∷ []) u (escape_field query ++ (9 ∷ escape_field key))
    ∙ field_then (codes "1" ∷ show_ℕ t ∷ show_ℕ u ∷ []) query (escape_field key)
    ∙ last_field (codes "1" ∷ show_ℕ t ∷ show_ℕ u ∷ query ∷ []) key

stoll-show : (n : ℕ) → n < 2 ^ 63 → stoll (show_ℕ n) ≡ some (pos n)
unfolding stoll in_long_range
stoll-show n h = rw (read_shown n, stoll) (ground arith)

stoul-show : (n : ℕ) → n < 2 ^ 32 → stoul_uint32 (show_ℕ n) ≡ some n
unfolding stoul_uint32 as_uint32
stoul-show n h = rw (read_shown n, stoul_uint32) (ground arith)

fields_read :
    (query key : Text) (t uses : ℕ)
    → t < 2 ^ 63
    → 0 < uses
    → uses < 2 ^ 32
    → is_empty query ≡ false
    → is_empty key ≡ false
    → from_fields (codes "1" ∷ show_ℕ t ∷ show_ℕ uses ∷ query ∷ key ∷ [])
      ≡ some (record { query = query; key = key; label = key; last_used = pos t; uses = uses })
unfolding from_fields entry_of checked_entry text_eq
fields_read query key t uses h u v q k = rw (stoll-show t h, stoul-show uses v, q, k) (grind arith)

-- The row of an entry with a query, a key and a use, whose time is not before 1970 and fits
-- 64 bits, is read back as that entry, with the key for a label.
pub parse_row-print_row :
    (e : HistoryEntry) (t : ℕ)
    → e.last_used ≡ pos t
    → t < 2 ^ 63
    → 0 < e.uses
    → e.uses < 2 ^ 32
    → is_empty e.query ≡ false
    → is_empty e.key ≡ false
    → parse_row (print_row e) ≡ some (record e { label = e.key })
unfolding parse_row print_row show_ℤ
parse_row-print_row e t s h u v q k = rw s (
    ap from_fields (split_fields-row t e.uses e.query e.key)
    ∙ fields_read e.query e.key t e.uses h u v q k)

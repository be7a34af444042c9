-- ===== src/Dropdown/JsonRoundTrip.antt =====
-- The strings of the compositor's JSON are read back.
use waylaunch.Prelude.{
  ℕ, zero, suc, ◌+◌, ◌/◌, ◌%◌, ◌≤◌, ◌<◌, ◌≡◌, refl, ap, ◌∙◌, true, false, some, [], ◌∷◌, ◌++◌, ◌⊎◌,
  inl, inr, arith,
}
use mathlib.Core.List.{append_assoc, append-nil}
use waylaunch.Prelude.Tests.{ltb, ltb→lt, ◌==◌, ==_iff, if◌then◌else◌, Bool-cases}
use waylaunch.Prelude.Lists.{length, length-append}
use waylaunch.Prelude.Text.{Text, is_xdigit, to_lower}
use waylaunch.Dropdown.JsonString.{
  skip_ws, is_ws, consume, at_front, hex_digit, parse_hex4, append_utf8, code_point, unicode,
  escaped, string_from, parse_string,
}

-- The hexadecimal digit of a number below 16, and four of them.
unfoldable pub hex_byte : ℕ → ℕ
hex_byte n = if ltb n 10 then 48 + n else 87 + n

abbrev pub hex4 : ℕ → Text
hex4 n =
    hex_byte (n / 4096 % 16)
    ∷ hex_byte (n / 256 % 16)
    ∷ hex_byte (n / 16 % 16)
    ∷ hex_byte (n % 16)
    ∷ []

hex_byte_lem : (n : ℕ) → n < 16 → (is_xdigit (hex_byte n) ≡ true) × (hex_digit (hex_byte n) ≡ n)
unfolding hex_byte is_xdigit hex_digit to_lower
hex_byte_lem n h = ground arith

pub parse_hex4_lem :
    (n : ℕ) (rest : Text) → n < 65536 → parse_hex4 (hex4 n ++ rest) ≡ some (n, rest)
unfolding parse_hex4
parse_hex4_lem n rest h =
    let (a, a') = hex_byte_lem (n / 4096 % 16) (omega arith) in
    let (b, b') = hex_byte_lem (n / 256 % 16) (omega arith) in
    let (c, c') = hex_byte_lem (n / 16 % 16) (omega arith) in
    let (d, d') = hex_byte_lem (n % 16) (omega arith) in
    rw (a, a', b, b', c, c', d, d') (ap (λ k. some (k, rest)) (omega arith))

-- A byte as Hyprland escapes it in a string.
unfoldable pub encode_byte : ℕ → Text
encode_byte c =
    if c == 34
    then 92 ∷ 34 ∷ []
    else if c == 92
    then 92 ∷ 92 ∷ []
    else if c == 8
    then 92 ∷ b'b' ∷ []
    else if c == 12
    then 92 ∷ b'f' ∷ []
    else if c == 10
    then 92 ∷ b'n' ∷ []
    else if c == 13
    then 92 ∷ b'r' ∷ []
    else if c == 9
    then 92 ∷ b't' ∷ []
    else if ltb c 32
    then 92 ∷ b'u' ∷ hex4 c
    else c ∷ []

unfoldable pub encode : Text → Text
encode [] = []
encode (c ∷ s) = encode_byte c ++ encode s

control_escaped :
    (c : ℕ) (rest : Text) → c < 32 → escaped (b'u' ∷ (hex4 c ++ rest)) ≡ some (c ∷ [], rest)
unfolding escaped unicode code_point append_utf8
control_escaped c rest h = rw (parse_hex4_lem c rest (omega arith)) (ground arith)

-- A byte is escaped, or it stands as it is and is no quote and no backslash.
Encoded : ℕ → Text → Text → Type 0
Encoded c rest s =
    ((e : Text) × (s ≡ 92 ∷ e) × (escaped e ≡ some (c ∷ [], rest)))
    ⊎ ((s ≡ c ∷ rest) × ((c == 34) ≡ false) × ((c == 92) ≡ false))

encode_byte-Encoded : (c : ℕ) (rest : Text) → Encoded c rest (encode_byte c ++ rest)
unfolding encode_byte escaped Encoded
encode_byte-Encoded c rest = elim (Bool-cases (c == 34)) [
  | inl e ↦ let same = (==_iff c 34).0 e in rw same (inl (34 ∷ rest, refl, refl))
  | inr n0 ↦ elim (Bool-cases (c == 92)) [
    | inl e ↦ let same = (==_iff c 92).0 e in rw same (inl (92 ∷ rest, refl, refl))
    | inr n1 ↦ elim (Bool-cases (c == 8)) [
      | inl e ↦ let same = (==_iff c 8).0 e in rw same (inl (b'b' ∷ rest, refl, refl))
      | inr n2 ↦ elim (Bool-cases (c == 12)) [
        | inl e ↦ let same = (==_iff c 12).0 e in rw same (inl (b'f' ∷ rest, refl, refl))
        | inr n3 ↦ elim (Bool-cases (c == 10)) [
          | inl e ↦ let same = (==_iff c 10).0 e in rw same (inl (b'n' ∷ rest, refl, refl))
          | inr n4 ↦ elim (Bool-cases (c == 13)) [
            | inl e ↦ let same = (==_iff c 13).0 e in rw same (inl (b'r' ∷ rest, refl, refl))
            | inr n5 ↦ elim (Bool-cases (c == 9)) [
              | inl e ↦ let same = (==_iff c 9).0 e in rw same (inl (b't' ∷ rest, refl, refl))
              | inr n6 ↦ elim (Bool-cases (ltb c 32)) [
                | inl e ↦
                    rw (e, n6, n5, n4, n3, n2, n1, n0, encode_byte)
                      (inl (b'u' ∷ (hex4 c ++ rest), refl, control_escaped c rest (ltb→lt c 32 e)))
                | inr e ↦ rw (e, n6, n5, n4, n3, n2, n1, n0, encode_byte) (inr (refl, refl, refl))
              ]
            ]
          ]
        ]
      ]
    ]
  ]
]

string_from-Encoded :
    (fuel : ℕ) (out : Text) (c : ℕ) (rest s : Text)
    → Encoded c rest s
    → string_from (suc fuel) out s ≡ string_from fuel (out ++ (c ∷ [])) rest
unfolding string_from Encoded
string_from-Encoded fuel out c rest s (inl (e, same, h)) = rw same (rw (h, string_from) refl)
string_from-Encoded fuel out c rest s (inr (same, a, b)) = rw same (rw (a, b, string_from) refl)

string_from-encode :
    (s out rest : Text) (fuel : ℕ)
    → length s < fuel
    → string_from fuel out (encode s ++ (34 ∷ rest)) ≡ some (out ++ s, rest)
unfolding string_from encode
string_from-encode s out rest zero h = absurd (omega arith)
string_from-encode [] out rest (suc fuel) h = rw (append-nil out) refl
string_from-encode (c ∷ s) out rest (suc fuel) h =
    rw (append_assoc (encode_byte c) (encode s) (34 ∷ rest)) (
      string_from-Encoded fuel out c (encode s ++ (34 ∷ rest)) _
        (encode_byte-Encoded c (encode s ++ (34 ∷ rest)))
      ∙ string_from-encode s (out ++ (c ∷ [])) rest fuel (omega arith)
      ∙ ap (λ u. some (u, rest)) (append_assoc out (c ∷ []) s))

length-encode_byte : (c : ℕ) → 1 ≤ length (encode_byte c)
unfolding encode_byte
length-encode_byte c = ground arith

length-encode : (s : Text) → length s ≤ length (encode s)
unfolding encode
length-encode [] = omega arith
length-encode (c ∷ s) =
    omega (arith, length-append (encode_byte c) (encode s), length-encode_byte c, length-encode s)

-- A string as Hyprland writes it, whatever its bytes, is read back, and the text behind it
-- is left.
pub parse_string-encode :
    (s rest : Text) → parse_string (34 ∷ (encode s ++ (34 ∷ rest))) ≡ some (s, rest)
unfolding parse_string consume skip_ws is_ws at_front
parse_string-encode s rest =
    string_from-encode s [] rest (length (encode s ++ (34 ∷ rest)))
      (omega (arith, length-append (encode s) (34 ∷ rest), length-encode s))

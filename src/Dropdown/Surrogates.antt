-- ===== src/Dropdown/Surrogates.antt =====
-- The code points beyond the first plane, which JSON writes as a pair of escapes.
use waylaunch.Prelude.{
  ℕ, ◌+◌, ◌-◌, ◌*◌, ◌/◌, ◌%◌, ◌≤◌, ◌<◌, ◌≡◌, ◌⊎◌, inl, inr, refl, true, false, ◌&&◌, Option, none,
  some, [], ◌∷◌, ◌++◌, arith,
}
use waylaunch.Prelude.Tests.{ltb, ltb→lt, leb, if◌then◌else◌, Bool-cases}
use waylaunch.Prelude.Text.{Text}
use waylaunch.Dropdown.JsonString.{
  escaped, unicode, code_point, paired, low_surrogate, low_of, append_utf8,
}
use waylaunch.Dropdown.JsonRoundTrip.{hex4, parse_hex4_lem}

-- The halves of a pair.
abbrev pub high_half : ℕ → ℕ
high_half cp = 55296 + (cp - 65536) / 1024

abbrev pub low_half : ℕ → ℕ
low_half cp = 56320 + (cp - 65536) % 1024

abbrev pub IsScalar : ℕ → Type 0
IsScalar cp = (cp < 55296) ⊎ ((57344 ≤ cp) × (cp < 1114112))

-- A code point between two others, both included, and none otherwise.
abbrev pub between : ℕ → ℕ → ℕ → Option ℕ
between low high cp = if leb low cp && leb cp high then some cp else none

-- The code point of a form of three bytes, which is no surrogate.
abbrev pub three_byte : ℕ → Option ℕ
three_byte cp = if leb 55296 cp && leb cp 57343 then none else between 2048 65535 cp

-- UTF-8 as RFC 3629 reads it: the bits of a leading byte and of the bytes that continue it, where a
-- form that is longer than the code point needs, a surrogate and what is beyond the last plane are
-- no code point.
abbrev pub decode_utf8 : Text → Option ℕ
decode_utf8 (a ∷ []) = if ltb a 128 then some a else none
decode_utf8 (a ∷ b ∷ []) =
    if leb 192 a && (ltb a 224 && (leb 128 b && ltb b 192))
    then between 128 2047 ((a - 192) * 64 + (b - 128))
    else none
decode_utf8 (a ∷ b ∷ c ∷ []) =
    if leb 224 a && (ltb a 240 && (leb 128 b && (ltb b 192 && (leb 128 c && ltb c 192))))
    then three_byte (((a - 224) * 64 + (b - 128)) * 64 + (c - 128))
    else none
decode_utf8 (a ∷ b ∷ c ∷ d ∷ []) =
    if leb 240 a
      && (ltb a 248
          && (leb 128 b && (ltb b 192 && (leb 128 c && (ltb c 192 && (leb 128 d && ltb d 192))))))
    then between 65536 1114111 ((((a - 240) * 64 + (b - 128)) * 64 + (c - 128)) * 64 + (d - 128))
    else none
decode_utf8 _ = none

-- A code point that is no surrogate is put out as UTF-8 that is read back as it.
pub decode_utf8-append_utf8 : (cp : ℕ) → IsScalar cp → decode_utf8 (append_utf8 cp) ≡ some cp
unfolding append_utf8
decode_utf8-append_utf8 cp h = ground arith

-- A code point as JSON escapes it, from the byte behind the backslash on.
abbrev pub escape_point : ℕ → Text
escape_point cp =
    if ltb cp 65536
    then b'u' ∷ hex4 cp
    else b'u' ∷ (hex4 (high_half cp) ++ (92 ∷ b'u' ∷ hex4 (low_half cp)))

escaped-single :
    (cp : ℕ) (rest : Text)
    → cp < 65536
    → IsScalar cp
    → escaped (escape_point cp ++ rest) ≡ some (append_utf8 cp, rest)
unfolding escaped unicode code_point
escaped-single cp rest h s =
    let plain : ltb cp 65536 ≡ true = ground arith in
    let not_high : (leb 55296 cp && leb cp 56319) ≡ false = ground arith in
    let not_low : (leb 56320 cp && leb cp 57343) ≡ false = ground arith in
    rw plain (rw (parse_hex4_lem cp rest h) (rw (not_high, not_low) refl))

low_surrogate_lem :
    (cp : ℕ) (rest : Text)
    → low_surrogate (92 ∷ b'u' ∷ (hex4 (low_half cp) ++ rest)) ≡ some (low_half cp, rest)
unfolding low_surrogate low_of
low_surrogate_lem cp rest =
    let is_low : (leb 56320 (low_half cp) && leb (low_half cp) 57343) ≡ true = ground arith in
    rw (parse_hex4_lem (low_half cp) rest (omega arith)) (rw is_low refl)

escaped-pair :
    (cp : ℕ) (rest : Text)
    → 65536 ≤ cp
    → cp < 1114112
    → escaped (escape_point cp ++ rest) ≡ some (append_utf8 cp, rest)
unfolding escaped unicode code_point paired
escaped-pair cp rest h l =
    let large : ltb cp 65536 ≡ false = ground arith in
    let is_high : (leb 55296 (high_half cp) && leb (high_half cp) 56319) ≡ true = ground arith in
    let same : 65536 + (high_half cp - 55296) * 1024 + (low_half cp - 56320) ≡ cp = omega arith in
    rw large (
      rw (parse_hex4_lem (high_half cp) (92 ∷ b'u' ∷ (hex4 (low_half cp) ++ rest)) (omega arith))
        (rw is_high (rw (low_surrogate_lem cp rest) (rw same refl))))

escaped_point :
    (cp : ℕ) (rest : Text)
    → IsScalar cp
    → escaped (escape_point cp ++ rest) ≡ some (append_utf8 cp, rest)
escaped_point cp rest s = elim (Bool-cases (ltb cp 65536)) [
  | inl h ↦ escaped-single cp rest (ltb→lt cp 65536 h) s
  | inr h ↦ escaped-pair cp rest (ground arith) (ground arith)
]

-- The escape of a code point that is no surrogate, a pair of escapes beyond the first plane, is read as
-- bytes that are its UTF-8, and the text behind it is left.
pub escaped-decode_utf8 :
    (cp : ℕ) (rest : Text)
    → IsScalar cp
    → (bytes : Text) × (escaped (escape_point cp ++ rest) ≡ some (bytes, rest))
      × (decode_utf8 bytes ≡ some cp)
escaped-decode_utf8 cp rest s =
    (append_utf8 cp, escaped_point cp rest s, decode_utf8-append_utf8 cp s)

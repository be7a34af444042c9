-- ===== src/Dropdown/JsonString.antt =====
-- The cursor, the literals and the strings of src/dropdown/hyprland_json.cpp. A cursor is the text
-- that is left. The loop of parse_string runs on fuel, a round for each byte or escape.
use waylaunch.Prelude.{
  ℕ, zero, suc, ◌+◌, ◌-◌, ◌*◌, ◌/◌, ◌%◌, Bool, true, false, ◌&&◌, Option, none, some, [], ◌∷◌, ◌++◌,
}
use waylaunch.Prelude.Tests.{ltb, leb, ◌==◌, if◌then◌else◌}
use waylaunch.Prelude.Lists.{length}
use waylaunch.Prelude.Text.{Text, is_xdigit, to_lower}

unfoldable pub is_ws : ℕ → Bool
is_ws c = if c == 32 then true else if c == 9 then true else if c == 10 then true else c == 13

unfoldable pub skip_ws : Text → Text
skip_ws [] = []
skip_ws (c ∷ s) = if is_ws c then skip_ws s else c ∷ s

-- The byte at the front, where it is the one asked for; the cursor moves over white space anyway.
unfoldable pub at_front : ℕ → Text → Bool × Text
at_front c [] = (false, [])
at_front c (d ∷ s) = if d == c then (true, s) else (false, d ∷ s)

unfoldable pub consume : ℕ → Text → Bool × Text
consume c s = at_front c (skip_ws s)

-- A literal that breaks off has moved the cursor to where it does.
unfoldable pub literal_at : Text → Text → Bool × Text
literal_at [] s = (true, s)
literal_at (c ∷ word) [] = (false, [])
literal_at (c ∷ word) (d ∷ s) =
    let more = literal_at word s in if d == c then more else (false, d ∷ s)

unfoldable pub consume_literal : Text → Text → Bool × Text
consume_literal word s = literal_at word (skip_ws s)

unfoldable pub hex_digit : ℕ → ℕ
hex_digit c = if leb c b'9' then c - b'0' else to_lower c - b'a' + 10

unfoldable pub parse_hex4 : Text → Option (ℕ × Text)
parse_hex4 (a ∷ b ∷ c ∷ d ∷ s) =
    if is_xdigit a && (is_xdigit b && (is_xdigit c && is_xdigit d))
    then some (((hex_digit a * 16 + hex_digit b) * 16 + hex_digit c) * 16 + hex_digit d, s)
    else none
parse_hex4 _ = none

unfoldable pub append_utf8 : ℕ → Text
append_utf8 cp =
    if ltb cp 128
    then cp ∷ []
    else if ltb cp 2048
    then (192 + cp / 64) ∷ (128 + cp % 64) ∷ []
    else if ltb cp 65536
    then (224 + cp / 4096) ∷ (128 + cp / 64 % 64) ∷ (128 + cp % 64) ∷ []
    else (240 + cp / 262144) ∷ (128 + cp / 4096 % 64) ∷ (128 + cp / 64 % 64) ∷ (128 + cp % 64) ∷ []

-- The second half of a surrogate pair, where it follows.
unfoldable pub low_of : Option (ℕ × Text) → Option (ℕ × Text)
low_of none = none
low_of (some (low, s)) = if leb 56320 low && leb low 57343 then some (low, s) else none

unfoldable pub low_surrogate : Text → Option (ℕ × Text)
low_surrogate (c ∷ d ∷ s) = if c == 92 && d == b'u' then low_of (parse_hex4 s) else none
low_surrogate _ = none

unfoldable pub paired : ℕ → Text → Option (ℕ × Text) → ℕ × Text
paired cp s none = (65533, s)
paired cp s (some (low, s')) = (65536 + (cp - 55296) * 1024 + (low - 56320), s')

unfoldable pub code_point : ℕ → Text → ℕ × Text
code_point cp s =
    if leb 55296 cp && leb cp 56319
    then paired cp s (low_surrogate s)
    else if leb 56320 cp && leb cp 57343
    then (65533, s)
    else (cp, s)

abbrev pub utf8_and : ℕ × Text → Text × Text
utf8_and (cp, s) = (append_utf8 cp, s)

unfoldable pub unicode : Option (ℕ × Text) → Option (Text × Text)
unicode none = none
unicode (some (unit, s)) = some (utf8_and (code_point unit s))

-- What an escape stands for and the text behind it, from the byte behind the backslash on.
unfoldable pub escaped : Text → Option (Text × Text)
escaped [] = none
escaped (c ∷ s) =
    if c == 34
    then some (34 ∷ [], s)
    else if c == 92
    then some (92 ∷ [], s)
    else if c == b'/'
    then some (b'/' ∷ [], s)
    else if c == b'b'
    then some (8 ∷ [], s)
    else if c == b'f'
    then some (12 ∷ [], s)
    else if c == b'n'
    then some (10 ∷ [], s)
    else if c == b'r'
    then some (13 ∷ [], s)
    else if c == b't'
    then some (9 ∷ [], s)
    else if c == b'u'
    then unicode (parse_hex4 s)
    else none

unfoldable pub string_from : ℕ → Text → Text → Option (Text × Text)
string_from zero out s = none
string_from (suc fuel) out [] = none
string_from (suc fuel) out (c ∷ s) = elim (c == 34) [
  | true ↦ some (out, s)
  | false ↦ elim (c == 92) [
    | false ↦ string_from fuel (out ++ c ∷ []) s
    | true ↦ elim (escaped s) [
      | none ↦ none
      | some (bytes, s') ↦ string_from fuel (out ++ bytes) s'
    ]
  ]
]

abbrev pub opened : Bool × Text → Option (Text × Text)
opened (true, s) = string_from (length s) [] s
opened (false, s) = none

unfoldable pub parse_string : Text → Option (Text × Text)
parse_string s = opened (consume 34 s)

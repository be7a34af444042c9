-- ===== src/Launcher/Editor.antt =====
-- The search field of src/ui/launcher_ui.cpp: what on_key does to the query, a text of UTF-8, and
-- to the cursor, an index of a byte.
use waylaunch.Prelude.{ℕ, zero, suc, ◌+◌, ◌/◌, ◌%◌, Bool, ◌&&◌, [], ◌∷◌, ◌++◌}
use waylaunch.Prelude.Tests.{ltb, leb, if◌then◌else◌}
use waylaunch.Prelude.Lists.{length, first, after}
use waylaunch.Prelude.Text.{Text}

pub record Field : Type 0 where
  pub query : Text
  pub cursor_pos : ℕ

-- `(c & 0xC0) == 0x80`.
unfoldable pub is_continuation : ℕ → Bool
is_continuation c = leb 128 c && ltb c 192

-- `query_[i]`: a 0 stands behind the last byte.
abbrev pub byte_at : Text → ℕ → ℕ
byte_at [] i = 0
byte_at (c ∷ s) zero = c
byte_at (c ∷ s) (suc i) = byte_at s i

unfoldable pub utf8 : ℕ → Text
utf8 c =
    if ltb c 128
    then c ∷ []
    else if ltb c 2048
    then (192 + c / 64) ∷ (128 + c % 64) ∷ []
    else if ltb c 65536
    then (224 + c / 4096) ∷ (128 + c / 64 % 64) ∷ (128 + c % 64) ∷ []
    else (240 + c / 262144) ∷ (128 + c / 4096 % 64) ∷ (128 + c / 64 % 64) ∷ (128 + c % 64) ∷ []

-- `std::string::erase` from one index to another.
abbrev pub erase : ℕ → ℕ → Text → Text
erase from to s = first from s ++ after to s

unfoldable pub insert_text : Text → Field → Field
insert_text text f = record {
  query = first f.cursor_pos f.query ++ (text ++ after f.cursor_pos f.query);
  cursor_pos = f.cursor_pos + length text;
}

unfoldable pub type_char : ℕ → Field → Field
unfolding insert_text
type_char c f = insert_text (utf8 c) f

-- The start of the character before an index: the loops of Backspace and Left.
unfoldable pub char_start : Text → ℕ → ℕ
char_start q zero = 0
char_start q (suc i) =
    let before = char_start q i in if is_continuation (byte_at q i) then before else i

-- How many continuation bytes a text begins with: the loops of Delete and Right.
unfoldable pub continuations : Text → ℕ
continuations [] = 0
continuations (c ∷ s) = if is_continuation c then suc (continuations s) else 0

unfoldable pub backspace : Field → Field
backspace f =
    if ltb 0 f.cursor_pos
    then record {
      query = erase (char_start f.query f.cursor_pos) f.cursor_pos f.query;
      cursor_pos = char_start f.query f.cursor_pos;
    }
    else f

-- The end of the character at the cursor.
unfoldable pub char_end : Field → ℕ
char_end f = f.cursor_pos + 1 + continuations (after (f.cursor_pos + 1) f.query)

unfoldable pub delete_char : Field → Field
unfolding char_end
delete_char f =
    if ltb f.cursor_pos (length f.query)
    then record f { query = erase f.cursor_pos (char_end f) f.query }
    else f

unfoldable pub move_left : Field → Field
move_left f = record f { cursor_pos = char_start f.query f.cursor_pos }

unfoldable pub move_right : Field → Field
move_right f = record f { cursor_pos = f.cursor_pos + continuations (after f.cursor_pos f.query) }

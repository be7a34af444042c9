-- ===== src/Launcher/Typing.antt =====
-- The search field edits characters, whatever their length in bytes.
use waylaunch.Prelude.{
  ℕ, suc, ◌+◌, ◌<◌, ◌≡◌, refl, ap, ◌∙◌, sym, true, false, List, [], ◌∷◌, ◌++◌, arith,
}
use mathlib.Core.List.{append_assoc, append-nil}
use waylaunch.Prelude.Tests.{ltb}
use waylaunch.Prelude.Lists.{length, length-append, All}
use waylaunch.Prelude.Text.{Text}
use waylaunch.Launcher.Utf8.{
  first_byte, first-append, after-append, continuations-append, char_start-last, length-utf8,
  after-more,
}
use waylaunch.Launcher.Editor.{
  Field, is_continuation, utf8, insert_text, type_char, char_start, continuations, backspace,
  char_end, delete_char, move_left, move_right,
}

-- The characters before the cursor, the nearest first, and those behind it.
pub record Line : Type 0 where
  pub before : List ℕ
  pub behind : List ℕ

pub data Edit : Type 0 where
  insert : List ℕ → Edit
  type_one : ℕ → Edit
  erase_before erase_behind go_left go_right : Edit

-- The characters put before the cursor one after the other.
abbrev pub put_all : List ℕ → List ℕ → List ℕ
put_all [] before = before
put_all (c ∷ cs) before = put_all cs (c ∷ before)

abbrev pub edit_line : Edit → Line → Line
edit_line (Edit.insert cs) l = record l { before = put_all cs l.before }
edit_line (Edit.type_one c) l = record l { before = c ∷ l.before }
edit_line Edit.erase_before l = elim l.before [ [] ↦ l | c ∷ cs ↦ record l { before = cs } ]
edit_line Edit.erase_behind l = elim l.behind [ [] ↦ l | c ∷ cs ↦ record l { behind = cs } ]
edit_line Edit.go_left l = elim l.before [
  | [] ↦ l
  | c ∷ cs ↦ record { before = cs; behind = c ∷ l.behind }
]
edit_line Edit.go_right l = l

abbrev pub encode : List ℕ → Text
encode [] = []
encode (c ∷ cs) = utf8 c ++ encode cs

abbrev pub encode_before : List ℕ → Text
encode_before [] = []
encode_before (c ∷ cs) = encode_before cs ++ utf8 c

-- What on_key does to the field for each edit.
unfoldable pub edit_field : Edit → Field → Field
edit_field (Edit.insert cs) f = insert_text (encode cs) f
edit_field (Edit.type_one c) f = type_char c f
edit_field Edit.erase_before f = backspace f
edit_field Edit.erase_behind f = delete_char f
edit_field Edit.go_left f = move_left f
edit_field Edit.go_right f = move_right f

abbrev pub AreScalars : List ℕ → Type 0
AreScalars cs = All (λ c. c < 1114112) cs

-- The bytes of the characters, with the cursor between the two parts.
abbrev at : Text → Text → Field
at u v = record { query = u ++ v; cursor_pos = length u }

abbrev pub field_of : Line → Field
field_of l = at (encode_before l.before) (encode l.behind)

abbrev pub IsScalarLine : Line → Type 0
IsScalarLine l = AreScalars l.before × AreScalars l.behind

abbrev pub IsScalarEdit : Edit → Type 0
IsScalarEdit (Edit.insert cs) = AreScalars cs
IsScalarEdit (Edit.type_one c) = c < 1114112
IsScalarEdit _ = Unit

continuations-encode : (cs : List ℕ) → AreScalars cs → continuations (encode cs) ≡ 0
unfolding continuations
continuations-encode [] a = refl
continuations-encode (c ∷ cs) (h, a) =
    let (b, bs, e, x, r) = first_byte c h in rw e (rw (x, continuations) refl)

insert_at : (w u v : Text) → insert_text w (at u v) ≡ at (u ++ w) v
unfolding insert_text
insert_at w u v =
    rw (first-append u v, after-append u v, length-append u w, append_assoc u w v) refl

encode-put_all :
    (cs before : List ℕ) → encode_before (put_all cs before) ≡ encode_before before ++ encode cs
encode-put_all [] before = sym (append-nil (encode_before before))
encode-put_all (c ∷ cs) before =
    encode-put_all cs (c ∷ before) ∙ append_assoc (encode_before before) (utf8 c) (encode cs)

AreScalars-put_all :
    (cs before : List ℕ) → AreScalars cs → AreScalars before → AreScalars (put_all cs before)
AreScalars-put_all [] before a b = b
AreScalars-put_all (c ∷ cs) before (x, a) b = AreScalars-put_all cs (c ∷ before) a (x, b)

backspace-at : (u : Text) (c : ℕ) (v : Text) → c < 1114112 → backspace (at (u ++ utf8 c) v) ≡ at u v
unfolding backspace
backspace-at u c v h =
    let some_bytes : ltb 0 (length (u ++ utf8 c)) ≡ true =
      ground (arith, length-append u (utf8 c), length-utf8 c) in
    rw (some_bytes, char_start-last u c v h)
      (rw (after-append (u ++ utf8 c) v, append_assoc u (utf8 c) v, first-append u (utf8 c ++ v))
        refl)

move_left-at :
    (u : Text) (c : ℕ) (v : Text)
    → c < 1114112
    → move_left (at (u ++ utf8 c) v) ≡ at u (utf8 c ++ v)
unfolding move_left
move_left-at u c v h = rw (char_start-last u c v h, append_assoc u (utf8 c) v) refl

erase_char :
    (u : Text) (b : ℕ) (bs v : Text)
    → All (λ d. is_continuation d ≡ true) bs
    → continuations v ≡ 0
    → delete_char (at u ((b ∷ bs) ++ v)) ≡ at u v
unfolding delete_char char_end
erase_char u b bs v a h =
    let inside : ltb (length u) (length (u ++ ((b ∷ bs) ++ v))) ≡ true =
      ground (arith, length-append u ((b ∷ bs) ++ v)) in
    let ends : length u + 1 + length bs ≡ length u + suc (length bs) = omega arith in
    rw (inside, after-more u ((b ∷ bs) ++ v) 1, continuations-append bs v a h)
      (rw ends (
        rw
          (
            after-more u ((b ∷ bs) ++ v) (suc (length bs)),
            after-append bs v,
            first-append u ((b ∷ bs) ++ v),
          )
          refl))

delete_at :
    (u : Text) (c : ℕ) (cs : List ℕ)
    → c < 1114112
    → AreScalars cs
    → delete_char (at u (utf8 c ++ encode cs)) ≡ at u (encode cs)
delete_at u c cs h a =
    let (b, bs, e, x, r) = first_byte c h in
    rw e (erase_char u b bs (encode cs) r (continuations-encode cs a))

move_right-at :
    (u : Text) (cs : List ℕ) → AreScalars cs → move_right (at u (encode cs)) ≡ at u (encode cs)
unfolding move_right
move_right-at u cs a =
    let same : length u + 0 ≡ length u = omega arith in
    rw (after-append u (encode cs), continuations-encode cs a) (rw same refl)

abbrev line : List ℕ → List ℕ → Line
line before behind = record { before = before; behind = behind }

erase_before_at :
    (before behind : List ℕ)
    → AreScalars before
    → backspace (field_of (line before behind))
      ≡ field_of (edit_line Edit.erase_before (line before behind))
unfolding backspace
erase_before_at [] behind a = refl
erase_before_at (c ∷ cs) behind (h, a) = backspace-at (encode_before cs) c (encode behind) h

go_left_at :
    (before behind : List ℕ)
    → AreScalars before
    → move_left (field_of (line before behind))
      ≡ field_of (edit_line Edit.go_left (line before behind))
unfolding move_left char_start
go_left_at [] behind a = refl
go_left_at (c ∷ cs) behind (h, a) = move_left-at (encode_before cs) c (encode behind) h

nothing_behind : (u : Text) → delete_char (at u []) ≡ at u []
unfolding delete_char
nothing_behind u =
    let outside : ltb (length u) (length (u ++ [])) ≡ false = rw (append-nil u) (ground arith) in
    rw outside refl

erase_behind_at :
    (before behind : List ℕ)
    → AreScalars behind
    → delete_char (field_of (line before behind))
      ≡ field_of (edit_line Edit.erase_behind (line before behind))
erase_behind_at before [] a = nothing_behind (encode_before before)
erase_behind_at before (c ∷ cs) (h, a) = delete_at (encode_before before) c cs h a

edit_field-field_of :
    (e : Edit) (l : Line)
    → IsScalarEdit e
    → IsScalarLine l
    → edit_field e (field_of l) ≡ field_of (edit_line e l)
unfolding edit_field type_char
edit_field-field_of (Edit.insert cs) l h a =
    insert_at (encode cs) (encode_before l.before) (encode l.behind)
    ∙ ap (λ u. at u (encode l.behind)) (sym (encode-put_all cs l.before))
edit_field-field_of (Edit.type_one c) l h a =
    insert_at (utf8 c) (encode_before l.before) (encode l.behind)
edit_field-field_of Edit.go_right l h (a, b) = move_right-at (encode_before l.before) l.behind b
edit_field-field_of Edit.erase_before l h (a, b) = erase_before_at l.before l.behind a
edit_field-field_of Edit.erase_behind l h (a, b) = erase_behind_at l.before l.behind b
edit_field-field_of Edit.go_left l h (a, b) = go_left_at l.before l.behind a

edited_scalars :
    (e : Edit) (before behind : List ℕ)
    → IsScalarEdit e
    → AreScalars before
    → AreScalars behind
    → IsScalarLine (edit_line e (line before behind))
edited_scalars (Edit.insert cs) before behind h a b = (AreScalars-put_all cs before h a, b)
edited_scalars (Edit.type_one c) before behind h a b = ((h, a), b)
edited_scalars Edit.erase_before [] behind h a b = (a, b)
edited_scalars Edit.erase_before (c ∷ cs) behind h (x, a) b = (a, b)
edited_scalars Edit.erase_behind before [] h a b = (a, b)
edited_scalars Edit.erase_behind before (c ∷ cs) h a (x, b) = (a, b)
edited_scalars Edit.go_left [] behind h a b = (a, b)
edited_scalars Edit.go_left (c ∷ cs) behind h (x, a) b = (a, (x, b))
edited_scalars Edit.go_right before behind h a b = (a, b)

-- A sequence of edits.
abbrev pub edit_fields : List Edit → Field → Field
edit_fields [] f = f
edit_fields (e ∷ es) f = edit_fields es (edit_field e f)

abbrev pub edit_lines : List Edit → Line → Line
edit_lines [] l = l
edit_lines (e ∷ es) l = edit_lines es (edit_line e l)

-- Whatever is typed, pasted, erased and passed over, in a query that is characters in UTF-8 with the
-- cursor between two of them, the query and the cursor are those of the same edits of a list of
-- characters, one character at a time, but that the right arrow does not move the cursor.
pub edit_fields-field_of :
    (es : List Edit) (l : Line)
    → All IsScalarEdit es
    → IsScalarLine l
    → edit_fields es (field_of l) ≡ field_of (edit_lines es l)
edit_fields-field_of [] l h a = refl
edit_fields-field_of (e ∷ es) l (h, hs) a =
    ap (edit_fields es) (edit_field-field_of e l h a)
    ∙ edit_fields-field_of es (edit_line e l) hs (edited_scalars e l.before l.behind h a.0 a.1)

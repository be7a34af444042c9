-- ===== src/Dropdown/Json.antt =====
-- The values of src/dropdown/hyprland_json.cpp: what is skipped, objects and arrays. A
-- floating-point number is of a type `D`; `strtod` reads one from the front of a text, where there
-- is one. Loops run on fuel, which the text's length
-- covers, since each round takes a byte or more.
use waylaunch.Prelude.{
  ℕ, zero, suc, ◌+◌, ◌-◌, Bool, true, false, ◌||◌, Option, none, some, List, [], ◌∷◌, ◌++◌,
}
use waylaunch.Prelude.Tests.{◌==◌, if◌then◌else◌, ◌>>=◌}
use waylaunch.Prelude.Lists.{length}
use waylaunch.Prelude.Text.{Text, codes}
use waylaunch.Dropdown.JsonString.{skip_ws, consume, consume_literal, parse_string}

-- The text behind a byte that is consumed.
abbrev pub taken : Bool × Text → Option Text
taken (true, s) = some s
taken (false, s) = none

unfoldable pub expect : ℕ → Text → Option Text
expect c s = taken (consume c s)

-- What follows the first literal that fails.
abbrev pub or_false : Bool × Text → Option (Bool × Text)
or_false (true, s) = some (true, s)
or_false (false, s) = elim (taken (consume_literal (codes "false") s)) [
  | some s' ↦ some (false, s')
  | none ↦ none
]

unfoldable pub parse_bool : Text → Option (Bool × Text)
parse_bool s = or_false (consume_literal (codes "true") s)

abbrev pub or_literal : Text → Bool × Text → Bool × Text
or_literal word (true, s) = (true, s)
or_literal word (false, s) = consume_literal word s

unfoldable pub skip_literal : Text → Option Text
skip_literal s =
    taken
      (or_literal (codes "null") (or_literal (codes "false") (consume_literal (codes "true") s)))

abbrev pub behind {ℓ} : {A : Type ℓ} → Option (A × Text) → Option Text
behind none = none
behind (some (a, s)) = some s

-- The depth after a byte of an object or array that `open` and `close` bound.
unfoldable pub depth_after : ℕ → ℕ → ℕ → ℕ → ℕ
depth_after opening closing c depth =
    let deeper = if c == opening then depth + 1 else depth in
    if c == closing then deeper - 1 else deeper

unfoldable pub skip_nested : ℕ → ℕ → ℕ → ℕ → Text → Option Text
skip_nested zero opening closing depth s = none
skip_nested (suc fuel) opening closing zero s = some s
skip_nested (suc fuel) opening closing (suc depth) [] = none
skip_nested (suc fuel) opening closing (suc depth) (c ∷ s) = elim (c == 34) [
  | true ↦ elim (behind (parse_string (c ∷ s))) [
    | none ↦ none
    | some s' ↦ skip_nested fuel opening closing (suc depth) s'
  ]
  | false ↦ skip_nested fuel opening closing (depth_after opening closing c (suc depth)) s
]

module _ {ℓ} {D : Type ℓ} (strtod : Text → Option (D × Text)) where
  unfoldable pub parse_number : Text → Option (D × Text)
  parse_number s = elim (skip_ws s) [ [] ↦ none | c ∷ s' ↦ strtod (c ∷ s') ]

  unfoldable pub skip_at : Text → Option Text
  unfolding parse_number
  skip_at [] = none
  skip_at (c ∷ s) =
      if c == 34
      then behind (parse_string (c ∷ s))
      else if c == b'{'
      then skip_nested (length s + 1) b'{' b'}' 1 s
      else if c == b'['
      then skip_nested (length s + 1) b'[' b']' 1 s
      else if c == b't' || (c == b'f' || c == b'n')
      then skip_literal (c ∷ s)
      else behind (parse_number (c ∷ s))

  unfoldable pub skip_value : Text → Option Text
  unfolding skip_at
  skip_value s = skip_at (skip_ws s)

-- A member of an object: what its value does to the object, and the text behind the value.
abbrev pub Member {ℓ} : Type ℓ → Type ℓ
Member A = Text → A → Text → Option (A × Text)

-- The loop over the members of an object, behind its brace. The three loops of the source have it.
module _ {ℓ} {A : Type ℓ} (member : Member A) where
  -- One member: its key, the colon and its value.
  unfoldable pub member_at : A → Text → Option (A × Text)
  member_at a s = do key ← parse_string s; s' ← expect b':' key.1; member key.0 a s'

  abbrev pub ended : A → Option Text → Option (A × Text)
  ended a none = none
  ended a (some s) = some (a, s)

  unfoldable pub members : ℕ → A → Text → Option (A × Text)
  unfolding member_at
  members zero a s = none
  members (suc fuel) a s =
      let (closed, s') = consume b'}' (skip_ws s) in
      elim closed [
        | true ↦ some (a, s')
        | false ↦ elim (member_at a s') [
          | none ↦ none
          | some (a', r) ↦
              let (more, r') = consume b',' (skip_ws r) in
              elim more [ true ↦ members fuel a' r' | false ↦ ended a' (expect b'}' r') ]
        ]
      ]

  -- The loop over the objects of an array, from those read so far: what ends it ends the array.
  unfoldable pub objects : ℕ → A → List A → Text → List A
  objects zero empty done s = done
  objects (suc fuel) empty done s = elim (expect b'{' s) [
    | none ↦ done
    | some s' ↦ elim (members (length s') empty s') [
      | none ↦ done
      | some (a, r) ↦ elim (expect b',' (skip_ws r)) [
        | some r' ↦ objects fuel empty (done ++ a ∷ []) r'
        | none ↦ done ++ a ∷ []
      ]
    ]
  ]

  unfoldable pub array : A → Text → List A
  array empty json = elim (expect b'[' json) [
    | none ↦ []
    | some s ↦
        let (closed, s') = consume b']' (skip_ws s) in
        elim closed [ true ↦ [] | false ↦ objects (length s' + 1) empty [] s' ]
  ]

-- ===== src/Dropdown/State.antt =====
-- DropdownStateStore: src/dropdown/dropdown_state.cpp and its header. The file is the text that the
-- store's path has, as its lines; save_all writes it whole under another name and renames it.
use waylaunch.Prelude.{ℕ, Option, none, some, List, [], ◌∷◌, ◌++◌}
use waylaunch.Prelude.Tests.{◌==◌, if◌then◌else◌, ◌>>=◌}
use waylaunch.Prelude.Lists.{is_empty}
use waylaunch.Prelude.Int.{ℤ, pos, leb_ℤ}
use waylaunch.Prelude.Text.{Text, text_eq, text_ltb, has_byte}
use waylaunch.Prelude.Decimal.{show_ℤ, stoi}

pub record DropdownSlotState : Type 0 where
  pub w : ℤ
  pub h : ℤ

-- `find` of a byte, with the text on its two sides.
abbrev after_byte : ℕ → Option (Text × Text) → Option (Text × Text)
after_byte d none = none
after_byte d (some (s, t)) = some (d ∷ s, t)

unfoldable pub cut_at : ℕ → Text → Option (Text × Text)
cut_at c [] = none
cut_at c (d ∷ s) = if d == c then some ([], s) else after_byte d (cut_at c s)

-- The height must be the whole of its field.
unfoldable pub whole_number : ℤ × Text → Option ℤ
whole_number (n, rest) = if is_empty rest then some n else none

unfoldable pub positive_size : ℤ → ℤ → Option DropdownSlotState
positive_size w h =
    if leb_ℤ w (pos 0)
    then none
    else if leb_ℤ h (pos 0)
    then none
    else some (record { w = w; h = h })

unfoldable pub parse_size : Text → Text → Option DropdownSlotState
parse_size width height = do
  w ← stoi width
  read ← stoi height
  h ← whole_number read
  positive_size w.0 h

abbrev named : Text → Option DropdownSlotState → Option (Text × DropdownSlotState)
named slot none = none
named slot (some state) = some (slot, state)

unfoldable pub parse_fields : Text → Text × Text → Option (Text × DropdownSlotState)
parse_fields slot (width, height) =
    if is_empty slot
    then none
    else if has_byte 10 slot
    then none
    else named slot (parse_size width height)

unfoldable pub parse_row : Text → Option (Text × DropdownSlotState)
parse_row line = do first ← cut_at 9 line; second ← cut_at 9 first.1; parse_fields first.0 second

-- The `std::map` of the slots in the order of its keys.
abbrev pub Slots : Type 0
Slots = List (Text × DropdownSlotState)

unfoldable pub put : Text → DropdownSlotState → Slots → Slots
put slot state [] = (slot, state) ∷ []
put slot state ((k, v) ∷ rest) =
    if text_eq slot k
    then (k, state) ∷ rest
    else if text_ltb slot k
    then (slot, state) ∷ (k, v) ∷ rest
    else (k, v) ∷ put slot state rest

unfoldable pub lookup : Text → Slots → Option DropdownSlotState
lookup slot [] = none
lookup slot ((k, v) ∷ rest) = if text_eq slot k then some v else lookup slot rest

abbrev put_row : Option (Text × DropdownSlotState) → Slots → Slots
put_row none states = states
put_row (some (slot, state)) states = put slot state states

-- The loop of load, from the slots read so far.
unfoldable pub load_from : Slots → List Text → Slots
load_from states [] = states
load_from states (line ∷ lines) = load_from (put_row (parse_row line) states) lines

-- A file that does not open has no lines.
unfoldable pub load : List Text → Slots
load lines = load_from [] lines

unfoldable pub print_row : Text → DropdownSlotState → Text
print_row slot state = slot ++ (9 ∷ (show_ℤ state.w ++ (9 ∷ show_ℤ state.h)))

unfoldable pub print_rows : Slots → List Text
print_rows [] = []
print_rows ((slot, state) ∷ rest) = print_row slot state ∷ print_rows rest

-- The lines that save_slot writes, or `none` where it writes nothing.
unfoldable pub save_slot : List Text → Text → DropdownSlotState → Option (List Text)
save_slot lines slot state =
    if is_empty slot
    then none
    else if has_byte 9 slot
    then none
    else if has_byte 10 slot
    then none
    else if leb_ℤ state.w (pos 0)
    then none
    else if leb_ℤ state.h (pos 0)
    then none
    else some (print_rows (put slot state (load lines)))

-- ===== src/Launcher/Input.antt =====
-- The keyboard, the mouse and the wheel in the search of src/ui/launcher_ui.cpp: the part of on_key
-- and on_mouse behind the power overlay and the switcher, which take their events before it.
use waylaunch.Prelude.{ℕ, Bool, ◌&&◌, ◌||◌, Option, none, some, List, [], ◌∷◌}
use waylaunch.Prelude.Tests.{ltb, leb, if◌then◌else◌}
use waylaunch.Prelude.Lists.{length, is_empty}
use waylaunch.Prelude.Int.{ℤ, pos, negsuc, ◌+ℤ◌, ◌-ℤ◌, eq_ℤ, ltb_ℤ}
use waylaunch.Prelude.Text.{Text}
use waylaunch.Keys.{Keysym}
use waylaunch.Launcher.Items.{Coordinate, past, panel_x, hit_test}
use waylaunch.Launcher.Editor.{
  Field, insert_text, type_char, backspace, delete_char, move_left, move_right,
}
use waylaunch.Launcher.Providers.{reveal_target}
use waylaunch.Launcher.Search.{
  Setup, Launcher, update_search, apply_file_results, select_item, item?, autocomplete, quit,
  launch_selected,
}

-- A mouse button: the two that are named, and any other one.
pub data Button : Type 0 where
  left right other : Button

-- The value of a wheel event on the vertical axis, by its sign.
pub data Wheel : Type 0 where
  up still down : Wheel

module _ {ℓ} {S : Type ℓ} (c : Setup S) where
  abbrev move_by : ℤ → Launcher S → Launcher S
  move_by n u = select_item c (u.selected_index +ℤ n) u

  -- The query has changed.
  unfoldable pub retype : Field → Launcher S → Launcher S
  retype f u = update_search c (record u { field = f })

  abbrev with_field : Field → Launcher S → Launcher S
  with_field f u = record u { field = f }

  -- The keys that mean something with Ctrl.
  unfoldable pub ctrl_key : Text → Keysym → Launcher S → Option (Launcher S)
  unfolding retype
  ctrl_key pasted Keysym.key_j u = some (move_by (pos 1) u)
  ctrl_key pasted Keysym.down u = some (move_by (pos 1) u)
  ctrl_key pasted Keysym.key_k u = some (move_by (negsuc 0) u)
  ctrl_key pasted Keysym.up u = some (move_by (negsuc 0) u)
  ctrl_key pasted Keysym.key_n u = some (move_by (pos 1) u)
  ctrl_key pasted Keysym.key_p u = some (move_by (negsuc 0) u)
  ctrl_key pasted Keysym.key_v u =
      some (if is_empty pasted then u else retype (insert_text pasted u.field) u)
  ctrl_key pasted _ u = none

  -- The keys that go before a character.
  unfoldable pub command_key : ℤ → Keysym → Launcher S → Option (Launcher S)
  command_key now Keysym.return u = some (launch_selected c now u)
  command_key now Keysym.escape u = some (quit c u)
  command_key now Keysym.up u = some (move_by (negsuc 0) u)
  command_key now Keysym.down u = some (move_by (pos 1) u)
  command_key now Keysym.tab u = some (autocomplete c u)
  command_key now Keysym.page_up u =
      some (select_item c (u.selected_index -ℤ c.layout.max_per_group) u)
  command_key now Keysym.page_down u =
      some (select_item c (u.selected_index +ℤ c.layout.max_per_group) u)
  command_key now Keysym.home u = some (select_item c (pos 0) u)
  command_key now Keysym.end_ u = some (select_item c (pos (length u.items) -ℤ pos 1) u)
  command_key now _ u = none

  -- The keys that edit the field, where there is no character.
  unfoldable pub edit_key : Keysym → Launcher S → Launcher S
  edit_key Keysym.backspace u = if ltb 0 u.field.cursor_pos then retype (backspace u.field) u else u
  edit_key Keysym.delete u =
      if ltb u.field.cursor_pos (length u.field.query) then retype (delete_char u.field) u else u
  edit_key Keysym.left u = if ltb 0 u.field.cursor_pos then with_field (move_left u.field) u else u
  edit_key Keysym.right u =
      if ltb u.field.cursor_pos (length u.field.query) then with_field (move_right u.field) u else u
  edit_key _ u = u

  unfoldable pub typed : Keysym → ℕ → Launcher S → Launcher S
  unfolding edit_key
  typed key utf32 u =
      if leb 32 utf32 && ltb utf32 1_114_112
      then retype (type_char utf32 u.field) u
      else edit_key key u

  -- on_key, for a key that is pressed.
  unfoldable pub on_key : ℤ → Bool → Text → Keysym → ℕ → Launcher S → Launcher S
  unfolding ctrl_key command_key typed
  on_key now ctrl pasted key utf32 u = elim (if ctrl then ctrl_key pasted key u else none) [
    | some v ↦ v
    | none ↦ elim (command_key now key u) [ some v ↦ v | none ↦ typed key utf32 u ]
  ]

  -- Whether a point is outside of the panel.
  unfoldable pub outside : ℤ → Coordinate → Coordinate → Launcher S → Bool
  outside width x y u =
      ltb_ℤ x.floor (panel_x c.layout width)
      || past x (panel_x c.layout width +ℤ c.layout.win_w)
      || ltb_ℤ y.floor c.layout.margin_top
      || past y (c.layout.margin_top +ℤ u.slots.bottom)

  -- Both ways of showing a target that is there end the launcher.
  unfoldable pub open_file_location : (Text → Bool) → ℤ → Launcher S → Launcher S
  open_file_location there index u = elim (item? c index u) [
    | none ↦ u
    | some it ↦
        if is_empty (reveal_target it) then u else if there (reveal_target it) then quit c u else u
  ]

  unfoldable pub press : (Text → Bool) → ℤ → Button → ℕ → Launcher S → Launcher S
  press there now Button.right i u = open_file_location there (pos i) (select_item c (pos i) u)
  press there now Button.left i u =
      if eq_ℤ (pos i) u.selected_index then launch_selected c now u else select_item c (pos i) u
  press there now Button.other i u = u

  unfoldable pub press_item :
      (Text → Bool) → ℤ → ℤ → Coordinate → Coordinate → Button → Launcher S → Launcher S
  unfolding open_file_location press
  press_item there now width x y b u = elim (hit_test c.layout width x y u.slots) [
    | none ↦ u
    | some i ↦ if ltb i (length u.items) then press there now b i u else u
  ]

  -- on_mouse, for a button that is pressed on a surface of a width. `there` says of a path whether
  -- the file system has it.
  unfoldable pub on_mouse :
      (Text → Bool) → ℤ → ℤ → Coordinate → Coordinate → Button → Launcher S → Launcher S
  unfolding press_item outside
  on_mouse there now width x y Button.left u =
      if outside width x y u then quit c u else press_item there now width x y Button.left u
  on_mouse there now width x y b u = press_item there now width x y b u

  unfoldable pub on_axis : Wheel → Launcher S → Launcher S
  on_axis Wheel.up u = move_by (negsuc 2) u
  on_axis Wheel.still u = u
  on_axis Wheel.down u = move_by (pos 3) u

-- What the main loop hands to the search.
pub data Event : Type 0 where
  key : Bool → Text → Keysym → ℕ → Event
  mouse : ℤ → Coordinate → Coordinate → Button → Event
  axis : Wheel → Event
  results : Event

module _ {ℓ} {S : Type ℓ} (c : Setup S) (there : Text → Bool) where
  unfoldable pub handle : ℤ → Event → Launcher S → Launcher S
  unfolding on_key on_mouse on_axis
  handle now (Event.key ctrl pasted sym utf32) u = on_key c now ctrl pasted sym utf32 u
  handle now (Event.mouse width x y b) u = on_mouse c there now width x y b u
  handle now (Event.axis w) u = on_axis c w u
  handle now Event.results u = apply_file_results c u

  -- The events of a session, each with the time it comes at.
  unfoldable pub handle_all : List (ℤ × Event) → Launcher S → Launcher S
  unfolding handle
  handle_all [] u = u
  handle_all (e ∷ es) u = handle_all es (handle e.0 e.1 u)

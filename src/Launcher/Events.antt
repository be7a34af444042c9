-- ===== src/Launcher/Events.antt =====
-- Every event of the launcher's search keeps the selection on an item, and the items and the rows
-- those of the results and the query.
use waylaunch.Prelude.{ℕ, ◌&&◌, inl, inr, Bool, true, false, Option, none, some, List, [], ◌∷◌}
use waylaunch.Prelude.Tests.{if◌then◌else◌, Option-cases, ltb, leb}
use waylaunch.Prelude.Lists.{length, is_empty}
use waylaunch.Prelude.Int.{ℤ, pos, negsuc, ◌+ℤ◌, ◌-ℤ◌, eq_ℤ}
use waylaunch.Prelude.Text.{Text}
use waylaunch.Keys.{Keysym}
use waylaunch.Launcher.Items.{hit_test, Coordinate}
use waylaunch.Launcher.Editor.{
  Field, insert_text, type_char, backspace, delete_char, move_left, move_right,
}
use waylaunch.Launcher.Providers.{reveal_target}
use waylaunch.Launcher.Search.{
  Setup, Launcher, update_search, select_item, item?, quit, launch_selected,
}
use waylaunch.Launcher.Input.{
  Button, Wheel, Event, retype, ctrl_key, command_key, edit_key, typed, on_key, press, press_item,
  on_mouse, on_axis, open_file_location, outside, handle, handle_all,
}
use waylaunch.Launcher.Invariant.{
  IsCurrent, update_search-IsCurrent, apply_file_results-IsCurrent, select_item-IsCurrent, either,
  autocomplete-IsCurrent, launch_selected-IsCurrent,
}

module _ {ℓ} {S : Type ℓ} (c : Setup S) where
  -- A step that keeps the invariant, where it takes place.
  Keeps : Option (Launcher S) → Type ℓ
  Keeps none = Unit
  Keeps (some u) = IsCurrent c u

  retype-IsCurrent : (f : Field) (u : Launcher S) → IsCurrent c (retype c f u)
  unfolding retype
  retype-IsCurrent f u = update_search-IsCurrent c (record u { field = f })

  ctrl_key-Keeps :
      (pasted : Text) (key : Keysym) (u : Launcher S)
      → IsCurrent c u
      → Keeps (ctrl_key c pasted key u)
  unfolding ctrl_key Keeps retype
  ctrl_key-Keeps pasted Keysym.key_j u h = select_item-IsCurrent c (u.selected_index +ℤ pos 1) u h
  ctrl_key-Keeps pasted Keysym.down u h = select_item-IsCurrent c (u.selected_index +ℤ pos 1) u h
  ctrl_key-Keeps pasted Keysym.key_n u h = select_item-IsCurrent c (u.selected_index +ℤ pos 1) u h
  ctrl_key-Keeps pasted Keysym.key_k u h =
      select_item-IsCurrent c (u.selected_index +ℤ negsuc 0) u h
  ctrl_key-Keeps pasted Keysym.up u h = select_item-IsCurrent c (u.selected_index +ℤ negsuc 0) u h
  ctrl_key-Keeps pasted Keysym.key_p u h =
      select_item-IsCurrent c (u.selected_index +ℤ negsuc 0) u h
  ctrl_key-Keeps pasted Keysym.key_v u h =
      either c (is_empty pasted) u (retype c (insert_text pasted u.field) u) h
        (retype-IsCurrent (insert_text pasted u.field) u)
  ctrl_key-Keeps pasted _ u h = tt

  command_key-Keeps :
      (now : ℤ) (key : Keysym) (u : Launcher S) → IsCurrent c u → Keeps (command_key c now key u)
  unfolding command_key Keeps quit IsCurrent
  command_key-Keeps now Keysym.return u h = launch_selected-IsCurrent c now u h
  command_key-Keeps now Keysym.escape u h = h
  command_key-Keeps now Keysym.up u h = select_item-IsCurrent c (u.selected_index +ℤ negsuc 0) u h
  command_key-Keeps now Keysym.down u h = select_item-IsCurrent c (u.selected_index +ℤ pos 1) u h
  command_key-Keeps now Keysym.tab u h = autocomplete-IsCurrent c u h
  command_key-Keeps now Keysym.page_up u h =
      select_item-IsCurrent c (u.selected_index -ℤ c.layout.max_per_group) u h
  command_key-Keeps now Keysym.page_down u h =
      select_item-IsCurrent c (u.selected_index +ℤ c.layout.max_per_group) u h
  command_key-Keeps now Keysym.home u h = select_item-IsCurrent c (pos 0) u h
  command_key-Keeps now Keysym.end_ u h =
      select_item-IsCurrent c (pos (length u.items) -ℤ pos 1) u h
  command_key-Keeps now _ u h = tt

  edit_key-IsCurrent :
      (key : Keysym) (u : Launcher S) → IsCurrent c u → IsCurrent c (edit_key c key u)
  unfolding edit_key move_left move_right IsCurrent
  edit_key-IsCurrent Keysym.backspace u h =
      either c (ltb 0 u.field.cursor_pos) (retype c (backspace u.field) u) u
        (retype-IsCurrent (backspace u.field) u) h
  edit_key-IsCurrent Keysym.delete u h =
      either c (ltb u.field.cursor_pos (length u.field.query)) (retype c (delete_char u.field) u) u
        (retype-IsCurrent (delete_char u.field) u) h
  edit_key-IsCurrent Keysym.left u h =
      either c (ltb 0 u.field.cursor_pos) (record u { field = move_left u.field }) u h h
  edit_key-IsCurrent Keysym.right u h =
      either c (ltb u.field.cursor_pos (length u.field.query))
        (record u { field = move_right u.field }) u h h
  edit_key-IsCurrent _ u h = h

  typed-IsCurrent :
      (key : Keysym) (utf32 : ℕ) (u : Launcher S)
      → IsCurrent c u
      → IsCurrent c (typed c key utf32 u)
  unfolding typed
  typed-IsCurrent key utf32 u h =
      either c (leb 32 utf32 && ltb utf32 1_114_112) (retype c (type_char utf32 u.field) u)
        (edit_key c key u) (retype-IsCurrent (type_char utf32 u.field) u)
        (edit_key-IsCurrent key u h)

  kept :
      (o : Option (Launcher S)) (u : Launcher S)
      → Keeps o
      → IsCurrent c u
      → IsCurrent c (elim o [ some v ↦ v | none ↦ u ])
  unfolding Keeps
  kept none u k h = h
  kept (some v) u k h = k

  Keeps-if : (b : Bool) (o : Option (Launcher S)) → Keeps o → Keeps (if b then o else none)
  unfolding Keeps
  Keeps-if true o h = h
  Keeps-if false o h = tt

  on_key-IsCurrent :
      (now : ℤ) (ctrl : Bool) (pasted : Text) (key : Keysym) (utf32 : ℕ) (u : Launcher S)
      → IsCurrent c u
      → IsCurrent c (on_key c now ctrl pasted key utf32 u)
  unfolding on_key
  on_key-IsCurrent now ctrl pasted key utf32 u h =
      kept (if ctrl then ctrl_key c pasted key u else none)
        (elim (command_key c now key u) [ some v ↦ v | none ↦ typed c key utf32 u ])
        (Keeps-if ctrl (ctrl_key c pasted key u) (ctrl_key-Keeps pasted key u h))
        (kept (command_key c now key u) (typed c key utf32 u) (command_key-Keeps now key u h)
          (typed-IsCurrent key utf32 u h))

  open_file_location-IsCurrent :
      (there : Text → Bool) (i : ℤ) (u : Launcher S)
      → IsCurrent c u
      → IsCurrent c (open_file_location c there i u)
  unfolding open_file_location quit IsCurrent
  open_file_location-IsCurrent there i u h = elim (Option-cases (item? c i u)) [
    | inl n ↦ rw (n, open_file_location) h
    | inr (it, n) ↦
        rw (n, open_file_location)
          (either c (is_empty (reveal_target it)) u
            (if there (reveal_target it) then quit c u else u) h
            (either c (there (reveal_target it)) (quit c u) u h h))
  ]

  press-IsCurrent :
      (there : Text → Bool) (now : ℤ) (b : Button) (i : ℕ) (u : Launcher S)
      → IsCurrent c u
      → IsCurrent c (press c there now b i u)
  unfolding press
  press-IsCurrent there now Button.right i u h =
      open_file_location-IsCurrent there (pos i) (select_item c (pos i) u)
        (select_item-IsCurrent c (pos i) u h)
  press-IsCurrent there now Button.left i u h =
      either c (eq_ℤ (pos i) u.selected_index) (launch_selected c now u) (select_item c (pos i) u)
        (launch_selected-IsCurrent c now u h) (select_item-IsCurrent c (pos i) u h)
  press-IsCurrent there now Button.other i u h = h

  press_item-IsCurrent :
      (there : Text → Bool) (now width : ℤ) (x y : Coordinate) (b : Button) (u : Launcher S)
      → IsCurrent c u
      → IsCurrent c (press_item c there now width x y b u)
  unfolding press_item
  press_item-IsCurrent there now width x y b u h =
      elim (Option-cases (hit_test c.layout width x y u.slots)) [
        | inl n ↦ rw (n, press_item) h
        | inr (i, n) ↦
            rw (n, press_item)
              (either c (ltb i (length u.items)) (press c there now b i u) u
                (press-IsCurrent there now b i u h) h)
      ]

  on_mouse-IsCurrent :
      (there : Text → Bool) (now width : ℤ) (x y : Coordinate) (b : Button) (u : Launcher S)
      → IsCurrent c u
      → IsCurrent c (on_mouse c there now width x y b u)
  unfolding on_mouse quit IsCurrent
  on_mouse-IsCurrent there now width x y Button.left u h =
      either c (outside c width x y u) (quit c u) (press_item c there now width x y Button.left u) h
        (press_item-IsCurrent there now width x y Button.left u h)
  on_mouse-IsCurrent there now width x y b u h = press_item-IsCurrent there now width x y b u h

  -- Whatever the event, the selection stays on an item, the items stay those of the candidates and
  -- the rows those of the items.
  handle-IsCurrent :
      (there : Text → Bool) (now : ℤ) (e : Event) (u : Launcher S)
      → IsCurrent c u
      → IsCurrent c (handle c there now e u)
  unfolding handle on_axis
  handle-IsCurrent there now (Event.key ctrl pasted key utf32) u h =
      on_key-IsCurrent now ctrl pasted key utf32 u h
  handle-IsCurrent there now (Event.mouse width x y b) u h =
      on_mouse-IsCurrent there now width x y b u h
  handle-IsCurrent there now (Event.axis Wheel.up) u h =
      select_item-IsCurrent c (u.selected_index +ℤ negsuc 2) u h
  handle-IsCurrent there now (Event.axis Wheel.still) u h = h
  handle-IsCurrent there now (Event.axis Wheel.down) u h =
      select_item-IsCurrent c (u.selected_index +ℤ pos 3) u h
  handle-IsCurrent there now Event.results u h = apply_file_results-IsCurrent c u h

  handle_all-IsCurrent :
      (there : Text → Bool) (es : List (ℤ × Event)) (u : Launcher S)
      → IsCurrent c u
      → IsCurrent c (handle_all c there es u)
  unfolding handle_all
  handle_all-IsCurrent there [] u h = h
  handle_all-IsCurrent there (e ∷ es) u h =
      handle_all-IsCurrent there es (handle c there e.0 e.1 u) (handle-IsCurrent there e.0 e.1 u h)

  -- After the first search and any events behind it, the selection is on an item that is there, or
  -- at 0 where there is none, the items are those of the candidates, and the rows those of the
  -- items and the query.
  pub session-IsCurrent :
      (there : Text → Bool) (es : List (ℤ × Event)) (u : Launcher S)
      → IsCurrent c (handle_all c there es (update_search c u))
  session-IsCurrent there es u =
      handle_all-IsCurrent there es (update_search c u) (update_search-IsCurrent c u)

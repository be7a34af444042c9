-- ===== src/Dropdown/Manager.antt =====
-- DropdownManager: src/dropdown/dropdown_manager.cpp and its header.
use waylaunch.Prelude.{Bool, true, false, List, [], ◌∷◌}

pub data DropdownState : Type 0 where
  absent spawning hidden visible : DropdownState

pub data DropdownEvent : Type 0 where
  toggle window_shown window_hidden window_closed child_exited : DropdownEvent

unfoldable pub process_event : DropdownState → DropdownEvent → DropdownState
process_event DropdownState.absent DropdownEvent.toggle = DropdownState.spawning
process_event DropdownState.absent _ = DropdownState.absent
process_event DropdownState.spawning DropdownEvent.toggle = DropdownState.spawning
process_event DropdownState.spawning DropdownEvent.window_shown = DropdownState.visible
process_event DropdownState.spawning DropdownEvent.window_hidden = DropdownState.hidden
process_event DropdownState.spawning DropdownEvent.window_closed = DropdownState.absent
process_event DropdownState.spawning DropdownEvent.child_exited = DropdownState.absent
process_event DropdownState.hidden DropdownEvent.toggle = DropdownState.visible
process_event DropdownState.hidden DropdownEvent.window_shown = DropdownState.visible
process_event DropdownState.hidden DropdownEvent.window_closed = DropdownState.absent
process_event DropdownState.hidden DropdownEvent.child_exited = DropdownState.absent
process_event DropdownState.hidden DropdownEvent.window_hidden = DropdownState.hidden
process_event DropdownState.visible DropdownEvent.toggle = DropdownState.hidden
process_event DropdownState.visible DropdownEvent.window_hidden = DropdownState.hidden
process_event DropdownState.visible DropdownEvent.window_closed = DropdownState.absent
process_event DropdownState.visible DropdownEvent.child_exited = DropdownState.absent
process_event DropdownState.visible DropdownEvent.window_shown = DropdownState.visible

unfoldable pub is_visible : DropdownState → Bool
is_visible DropdownState.visible = true
is_visible _ = false

-- The events of a session, one after the other.
unfoldable pub run : DropdownState → List DropdownEvent → DropdownState
run s [] = s
run s (e ∷ es) = run (process_event s e) es

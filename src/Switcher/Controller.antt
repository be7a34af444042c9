-- ===== src/Switcher/Controller.antt =====
-- SwitcherInputController: src/switcher/switcher_input_controller.cpp and its header, over a
-- manager that is there. The dispatch table is a function to the rows' actions.
use waylaunch.Prelude.{ℕ, ◌/◌, ◌%◌, Bool, true, false, not, ◌&&◌, ◌||◌, Option, none, some, List}
use waylaunch.Prelude.Tests.{◌==◌, if◌then◌else◌}
use waylaunch.Prelude.Text.{Text}
use waylaunch.Keys.{Keysym}
use waylaunch.Switcher.StateMachine.{SwitcherState, SwitcherEvent, process_event, is_active}
use waylaunch.Switcher.Groups.{ToplevelWindow}
use waylaunch.Switcher.Manager
use waylaunch.Switcher.Manager.{SwitcherManager}

pub record SwitcherController : Type 0 where
  pub manager : SwitcherManager
  pub state : SwitcherState
  pub active_modifier_mask : ℕ
  pub mod_was_held : Bool

pub data SwitcherKey : Type 0 where
  next prev quit minimize cancel_overlay confirm_selected : SwitcherKey
  jump : ℕ → SwitcherKey

unfoldable pub key_dispatch_table : Keysym → Option SwitcherKey
key_dispatch_table Keysym.tab = some SwitcherKey.next
key_dispatch_table Keysym.iso_left_tab = some SwitcherKey.prev
key_dispatch_table Keysym.grave = some SwitcherKey.prev
key_dispatch_table Keysym.left = some SwitcherKey.prev
key_dispatch_table Keysym.right = some SwitcherKey.next
key_dispatch_table Keysym.q = some SwitcherKey.quit
key_dispatch_table Keysym.q_upper = some SwitcherKey.quit
key_dispatch_table Keysym.h = some SwitcherKey.minimize
key_dispatch_table Keysym.h_upper = some SwitcherKey.minimize
key_dispatch_table Keysym.key_1 = some (SwitcherKey.jump 0)
key_dispatch_table Keysym.key_2 = some (SwitcherKey.jump 1)
key_dispatch_table Keysym.key_3 = some (SwitcherKey.jump 2)
key_dispatch_table Keysym.key_4 = some (SwitcherKey.jump 3)
key_dispatch_table Keysym.key_5 = some (SwitcherKey.jump 4)
key_dispatch_table Keysym.key_6 = some (SwitcherKey.jump 5)
key_dispatch_table Keysym.key_7 = some (SwitcherKey.jump 6)
key_dispatch_table Keysym.key_8 = some (SwitcherKey.jump 7)
key_dispatch_table Keysym.key_9 = some (SwitcherKey.jump 8)
key_dispatch_table Keysym.escape = some SwitcherKey.cancel_overlay
key_dispatch_table Keysym.return = some SwitcherKey.confirm_selected
key_dispatch_table Keysym.kp_enter = some SwitcherKey.confirm_selected
key_dispatch_table Keysym.space = some SwitcherKey.confirm_selected
key_dispatch_table _ = none

unfoldable pub trigger :
    (Text → Text) → List ToplevelWindow → SwitcherController → SwitcherController
trigger resolve ws c = record c {
  manager = Manager.show resolve ws c.manager;
  state = process_event c.state SwitcherEvent.trigger;
  mod_was_held = false;
}

unfoldable pub cancel : SwitcherController → SwitcherController
cancel c = record c {
  manager = Manager.cancel c.manager;
  state = process_event c.state SwitcherEvent.cancel;
}

unfoldable pub confirm : SwitcherController → SwitcherController
confirm c = record c {
  manager = Manager.confirm_selection c.manager;
  state = process_event c.state SwitcherEvent.confirm;
}

abbrev perform : SwitcherController → SwitcherKey → SwitcherController
perform c SwitcherKey.next = record c { manager = Manager.navigate_next c.manager }
perform c SwitcherKey.prev = record c { manager = Manager.navigate_prev c.manager }
perform c SwitcherKey.quit = record c { manager = Manager.quit_selected c.manager }
perform c SwitcherKey.minimize = record c { manager = Manager.toggle_minimize_selected c.manager }
perform c (SwitcherKey.jump i) = record c { manager = Manager.jump_to c.manager i }
perform c SwitcherKey.cancel_overlay = cancel c
perform c SwitcherKey.confirm_selected = confirm c

-- The state after a key, and whether the key is consumed.
unfoldable pub handle_key : SwitcherController → Keysym → Bool → SwitcherController × Bool
handle_key c keysym pressed =
    if not (is_active c.state)
    then (c, false)
    else if not pressed
    then (c, true)
    else elim (key_dispatch_table keysym) [ some a ↦ (perform c a, true) | none ↦ (c, true) ]

-- The bits MOD_ALT and MOD_SUPER of a mask.
unfoldable pub holding_mod : ℕ → Bool
holding_mod mods = mods / 64 % 2 == 1 || mods / 8 % 2 == 1

unfoldable pub handle_modifiers : SwitcherController → ℕ → SwitcherController × Bool
handle_modifiers c mods =
    let seen = record c {
      active_modifier_mask = mods;
      mod_was_held = if holding_mod mods then true else c.mod_was_held;
    } in
    if is_active c.state && (not (holding_mod mods) && seen.mod_was_held)
    then (confirm seen, true)
    else (seen, is_active c.state)

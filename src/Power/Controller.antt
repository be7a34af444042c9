-- ===== src/Power/Controller.antt =====
-- PowerInputController: src/power/power_input_controller.cpp and its header, over a manager that
-- is there (the constructor's only use passes one). The dispatch table is a function to the rows'
-- actions. `now` is the reading of the clock that opening the dialog takes.
use waylaunch.Prelude.{ℕ, suc, ◌-◌, Bool, true, false, not, Option, none, some, List, [], ◌∷◌}
use waylaunch.Prelude.Tests.{if◌then◌else◌}
use waylaunch.Prelude.Lists.{length, is_empty}
use waylaunch.Prelude.Int.{ℤ}
use waylaunch.Keys.{Keysym}
use waylaunch.Power.Dialog.{Button, expired}
use waylaunch.Power.StateMachine.{PowerState, PowerEvent, process_event, is_active, is_confirm_open}
use waylaunch.Power.Manager
use waylaunch.Power.Manager.{PowerManager}
use waylaunch.Power.Layout.{Rect, contains, hud, dialog}

pub record Controller : Type 0 where
  pub manager : PowerManager
  pub state : PowerState

pub data KeyAction : Type 0 where
  prev next jump_last activate_card cancel_overlay : KeyAction
  jump : ℕ → KeyAction

unfoldable pub key_dispatch_table : Keysym → Option KeyAction
key_dispatch_table Keysym.left = some KeyAction.prev
key_dispatch_table Keysym.up = some KeyAction.prev
key_dispatch_table Keysym.iso_left_tab = some KeyAction.prev
key_dispatch_table Keysym.right = some KeyAction.next
key_dispatch_table Keysym.down = some KeyAction.next
key_dispatch_table Keysym.tab = some KeyAction.next
key_dispatch_table Keysym.home = some (KeyAction.jump 0)
key_dispatch_table Keysym.end_ = some KeyAction.jump_last
key_dispatch_table Keysym.key_1 = some (KeyAction.jump 0)
key_dispatch_table Keysym.key_2 = some (KeyAction.jump 1)
key_dispatch_table Keysym.key_3 = some (KeyAction.jump 2)
key_dispatch_table Keysym.key_4 = some (KeyAction.jump 3)
key_dispatch_table Keysym.key_5 = some (KeyAction.jump 4)
key_dispatch_table Keysym.key_6 = some (KeyAction.jump 5)
key_dispatch_table Keysym.return = some KeyAction.activate_card
key_dispatch_table Keysym.kp_enter = some KeyAction.activate_card
key_dispatch_table Keysym.space = some KeyAction.activate_card
key_dispatch_table Keysym.escape = some KeyAction.cancel_overlay
key_dispatch_table _ = none

unfoldable pub trigger : Controller → Controller
trigger c = record {
  manager = Manager.show c.manager;
  state = process_event c.state PowerEvent.trigger;
}

unfoldable pub activate : Controller → ℤ → Controller
activate c now =
    let m = Manager.activate_selected c.manager now in
    record {
      manager = m;
      state =
          process_event c.state
            (if m.dialog.is_open then PowerEvent.open_confirm else PowerEvent.execute);
    }

unfoldable pub confirm : Controller → Controller
confirm c = record {
  manager = Manager.confirm c.manager;
  state = process_event c.state PowerEvent.execute;
}

unfoldable pub cancel : Controller → Controller
cancel c = record {
  manager = Manager.cancel c.manager;
  state = process_event c.state PowerEvent.cancel;
}

unfoldable pub tick : Controller → ℤ → Controller
tick c now =
    if not (is_confirm_open c.state)
    then c
    else if expired c.manager.dialog now
    then confirm c
    else c

abbrev with_manager : Controller → PowerManager → Controller
with_manager c m = record c { manager = m }

unfoldable pub perform : KeyAction → Controller → ℤ → Controller
perform KeyAction.prev c now = with_manager c (Manager.navigate_prev c.manager)
perform KeyAction.next c now = with_manager c (Manager.navigate_next c.manager)
perform (KeyAction.jump i) c now = with_manager c (Manager.jump_to c.manager i)
perform KeyAction.jump_last c now =
    if is_empty c.manager.actions
    then c
    else with_manager c (Manager.jump_to c.manager (length c.manager.actions - 1))
perform KeyAction.activate_card c now = activate c now
perform KeyAction.cancel_overlay c now = cancel c

press_focused : Button → Controller → Controller
press_focused Button.cancel c = cancel c
press_focused Button.confirm c = confirm c

-- The switch of the modal dialog; its default swallows the key.
unfoldable pub dialog_key : Keysym → Controller → Controller
unfolding press_focused
dialog_key Keysym.return c = press_focused c.manager.dialog.focus c
dialog_key Keysym.kp_enter c = press_focused c.manager.dialog.focus c
dialog_key Keysym.space c = press_focused c.manager.dialog.focus c
dialog_key Keysym.escape c = cancel c
dialog_key Keysym.left c = with_manager c (Manager.toggle_dialog_focus c.manager)
dialog_key Keysym.right c = with_manager c (Manager.toggle_dialog_focus c.manager)
dialog_key Keysym.tab c = with_manager c (Manager.toggle_dialog_focus c.manager)
dialog_key Keysym.iso_left_tab c = with_manager c (Manager.toggle_dialog_focus c.manager)
dialog_key _ c = c

unfoldable pub grid_key : Keysym → Controller → ℤ → Controller
grid_key key c now = elim (key_dispatch_table key) [ none ↦ c | some a ↦ perform a c now ]

-- The new state, and whether the event was consumed.
unfoldable pub handle_key : Controller → ℤ → Keysym → Bool → Controller × Bool
handle_key c now key pressed =
    if not (is_active c.state)
    then (c, false)
    else if not pressed
    then (c, true)
    else if is_confirm_open c.state
    then (dialog_key key c, true)
    else (grid_key key c now, true)

-- The loops over the cards: the index of the first one under the pointer.
unfoldable pub card_at : List Rect → ℕ → ℤ → ℤ → Option ℕ
card_at [] i x y = none
card_at (r ∷ rs) i x y = if contains r x y then some i else card_at rs (suc i) x y

unfoldable pub dialog_motion : Controller → ℤ → ℤ → ℤ → ℤ → Controller
dialog_motion c x y screen_w screen_h =
    if contains (dialog screen_w screen_h).confirm x y
    then with_manager c (Manager.set_dialog_focus c.manager Button.confirm)
    else if contains (dialog screen_w screen_h).cancel x y
    then with_manager c (Manager.set_dialog_focus c.manager Button.cancel)
    else c

unfoldable pub grid_motion : Controller → ℤ → ℤ → ℤ → ℤ → Controller
grid_motion c x y screen_w screen_h =
    elim (card_at (hud screen_w screen_h (length c.manager.actions)).cards 0 x y) [
      | none ↦ c
      | some i ↦ with_manager c (Manager.jump_to c.manager i)
    ]

unfoldable pub handle_pointer_motion : Controller → ℤ → ℤ → ℤ → ℤ → Controller
handle_pointer_motion c x y screen_w screen_h =
    if not (is_active c.state)
    then c
    else if is_confirm_open c.state
    then dialog_motion c x y screen_w screen_h
    else grid_motion c x y screen_w screen_h

unfoldable pub dialog_click : Controller → ℤ → ℤ → ℤ → ℤ → Controller
dialog_click c x y screen_w screen_h =
    let d = dialog screen_w screen_h in
    if contains d.confirm x y
    then confirm c
    else if contains d.cancel x y
    then cancel c
    else if not (contains d.card x y)
    then cancel c
    else c

unfoldable pub grid_click : Controller → ℤ → ℤ → ℤ → ℤ → ℤ → Controller
grid_click c now x y screen_w screen_h =
    let h = hud screen_w screen_h (length c.manager.actions) in
    elim (card_at h.cards 0 x y) [
      | none ↦ if not (contains h.panel x y) then cancel c else c
      | some i ↦ activate (with_manager c (Manager.jump_to c.manager i)) now
    ]

unfoldable pub handle_pointer_click : Controller → ℤ → ℤ → ℤ → ℤ → ℤ → Controller
handle_pointer_click c now x y screen_w screen_h =
    if not (is_active c.state)
    then c
    else if is_confirm_open c.state
    then dialog_click c x y screen_w screen_h
    else grid_click c now x y screen_w screen_h

-- One event of the overlay's loop, at a reading of the clock.
pub data Input : Type 0 where
  key : Keysym → Bool → Input
  motion : ℤ → ℤ → Input
  click : ℤ → ℤ → Input
  clock : Input

unfoldable pub handle : Controller → ℤ → ℤ → ℤ × Input → Controller
handle c sw sh (now, Input.key k p) = (handle_key c now k p).0
handle c sw sh (now, Input.motion x y) = handle_pointer_motion c x y sw sh
handle c sw sh (now, Input.click x y) = handle_pointer_click c now x y sw sh
handle c sw sh (now, Input.clock) = tick c now

unfoldable pub run : Controller → ℤ → ℤ → List (ℤ × Input) → Controller
run c sw sh [] = c
run c sw sh (e ∷ es) = run (handle c sw sh e) sw sh es

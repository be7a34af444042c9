-- ===== src/Power/Invariant.antt =====
-- The state machine and the manager of the power overlay stay in step under every input.
use waylaunch.Prelude.{ℕ, ◌-◌, ◌<◌, ◌≡◌, inl, inr, Bool, true, false, List, [], ◌∷◌, arith}
use waylaunch.Prelude.Tests.{Option-cases}
use waylaunch.Prelude.Lists.{length, get_elem?_of_lt}
use waylaunch.Prelude.Int.{ℤ}
use waylaunch.Keys.{Keysym}
use waylaunch.Power.Dialog.{close_dialog, toggle_focus, set_focus, open_dialog}
use waylaunch.Power.StateMachine.{PowerState, process_event, is_active, is_confirm_open}
use waylaunch.Power.Manager
use waylaunch.Power.Manager.{PowerManager, selected_action}
use waylaunch.Power.Layout.{hud}
use waylaunch.Power.Controller.{
  Controller, KeyAction, key_dispatch_table, trigger, activate, confirm, cancel, tick, perform,
  dialog_key, grid_key, handle_key, card_at, dialog_motion, grid_motion, handle_pointer_motion,
  dialog_click, grid_click, handle_pointer_click, Input, handle, run,
}

-- The picker is on screen in `active`, the dialog over it in `confirm_open`, and else nothing.
abbrev pub Agrees : PowerState → PowerManager → Type 0
Agrees PowerState.active m = (m.visible ≡ true) × (m.dialog.is_open ≡ false)
Agrees PowerState.confirm_open m = (m.visible ≡ true) × (m.dialog.is_open ≡ true)
Agrees PowerState.hidden m = (m.visible ≡ false) × (m.dialog.is_open ≡ false)
Agrees PowerState.dismissing m = (m.visible ≡ false) × (m.dialog.is_open ≡ false)

pub record Inv (c : Controller) : Type 0 where
  pub selected : c.manager.selected_index < length c.manager.actions
  pub agrees : Agrees c.state c.manager

pub cancel-Inv : (c : Controller) → Inv c → is_active c.state ≡ true → Inv (cancel c)
unfolding cancel Manager.cancel close_dialog process_event is_active
cancel-Inv c v h = ground arith

pub confirm-Inv : (c : Controller) → Inv c → is_confirm_open c.state ≡ true → Inv (confirm c)
unfolding confirm Manager.confirm close_dialog process_event is_confirm_open
confirm-Inv c v h = ground arith

pub activate-Inv :
    (c : Controller) (now : ℤ) → Inv c → c.state ≡ PowerState.active → Inv (activate c now)
unfolding activate Manager.activate_selected close_dialog process_event open_dialog
activate-Inv c now v h =
    ground (arith, get_elem?_of_lt c.manager.actions c.manager.selected_index v.selected)

pub tick-Inv : (c : Controller) (now : ℤ) → Inv c → Inv (tick c now)
unfolding tick
tick-Inv c now v = ground (arith, confirm-Inv c v)

-- A manager with the same visibility and dialog, and a selection in range, may be put in.
manager-Inv :
    (c : Controller) (m : PowerManager)
    → Inv c
    → m.actions ≡ c.manager.actions
    → m.selected_index < length c.manager.actions
    → m.visible ≡ c.manager.visible
    → m.dialog.is_open ≡ c.manager.dialog.is_open
    → Inv (record c { manager = m })
manager-Inv c m v a s vis d = ground arith

jump_to-Inv :
    (c : Controller) (i : ℕ) → Inv c → Inv (record c { manager = Manager.jump_to c.manager i })
unfolding Manager.jump_to
jump_to-Inv c i v = ground arith

perform-Inv :
    (a : KeyAction) (c : Controller) (now : ℤ)
    → Inv c
    → c.state ≡ PowerState.active
    → Inv (perform a c now)
unfolding perform Manager.navigate_prev Manager.navigate_next is_active
perform-Inv KeyAction.prev c now v h = grind arith
perform-Inv KeyAction.next c now v h = grind arith
perform-Inv (KeyAction.jump i) c now v h = jump_to-Inv c i v
perform-Inv KeyAction.jump_last c now v h =
    ground (arith, jump_to-Inv c (length c.manager.actions - 1) v)
perform-Inv KeyAction.activate_card c now v h = activate-Inv c now v h
perform-Inv KeyAction.cancel_overlay c now v h = cancel-Inv c v (ground arith)

grid_key-Inv :
    (k : Keysym) (c : Controller) (now : ℤ)
    → Inv c
    → c.state ≡ PowerState.active
    → Inv (grid_key k c now)
unfolding grid_key
grid_key-Inv k c now v h = elim (Option-cases (key_dispatch_table k)) [
  | inl e ↦ rw (e, grid_key) v
  | inr (a, e) ↦ rw (e, grid_key) (perform-Inv a c now v h)
]

dialog_key-Inv :
    (k : Keysym) (c : Controller) → Inv c → c.state ≡ PowerState.confirm_open → Inv (dialog_key k c)
unfolding dialog_key Manager.toggle_dialog_focus toggle_focus is_active is_confirm_open
dialog_key-Inv k c v h = ground (arith, confirm-Inv c v, cancel-Inv c v)

handle_key-Inv :
    (c : Controller) (now : ℤ) (k : Keysym) (p : Bool) → Inv c → Inv (handle_key c now k p).0
unfolding handle_key is_active is_confirm_open
handle_key-Inv c now k p v = ground (arith, grid_key-Inv k c now v, dialog_key-Inv k c v)

motion-Inv : (c : Controller) (x y sw sh : ℤ) → Inv c → Inv (handle_pointer_motion c x y sw sh)
unfolding handle_pointer_motion dialog_motion grid_motion Manager.set_dialog_focus set_focus
motion-Inv c x y sw sh v =
    elim (Option-cases (card_at (hud sw sh (length c.manager.actions)).cards 0 x y)) [
      | inl e ↦ ground arith
      | inr (i, e) ↦ ground (arith, jump_to-Inv c i v)
    ]

dialog_click-Inv :
    (c : Controller) (x y sw sh : ℤ)
    → Inv c
    → c.state ≡ PowerState.confirm_open
    → Inv (dialog_click c x y sw sh)
unfolding dialog_click is_active is_confirm_open
dialog_click-Inv c x y sw sh v h = ground (arith, confirm-Inv c v, cancel-Inv c v)

grid_click-Inv :
    (c : Controller) (now x y sw sh : ℤ)
    → Inv c
    → c.state ≡ PowerState.active
    → Inv (grid_click c now x y sw sh)
unfolding grid_click is_active
grid_click-Inv c now x y sw sh v h =
    elim (Option-cases (card_at (hud sw sh (length c.manager.actions)).cards 0 x y)) [
      | inl e ↦ rw (e, grid_click) (ground (arith, cancel-Inv c v))
      | inr (i, e) ↦ rw (e, grid_click) (activate-Inv _ now (jump_to-Inv c i v) h)
    ]

click-Inv :
    (c : Controller) (now x y sw sh : ℤ) → Inv c → Inv (handle_pointer_click c now x y sw sh)
unfolding handle_pointer_click is_active is_confirm_open
click-Inv c now x y sw sh v =
    ground (arith, dialog_click-Inv c x y sw sh v, grid_click-Inv c now x y sw sh v)

-- Every key, pointer and clock event keeps the selection in range and the state machine in step
-- with what the manager shows.
pub handle-Inv : (c : Controller) (sw sh : ℤ) (e : ℤ × Input) → Inv c → Inv (handle c sw sh e)
unfolding handle
handle-Inv c sw sh (now, Input.key k p) v = handle_key-Inv c now k p v
handle-Inv c sw sh (now, Input.motion x y) v = motion-Inv c x y sw sh v
handle-Inv c sw sh (now, Input.click x y) v = click-Inv c now x y sw sh v
handle-Inv c sw sh (now, Input.clock) v = tick-Inv c now v

pub run-Inv : (c : Controller) (sw sh : ℤ) (es : List (ℤ × Input)) → Inv c → Inv (run c sw sh es)
unfolding run
run-Inv c sw sh [] v = v
run-Inv c sw sh (e ∷ es) v = run-Inv (handle c sw sh e) sw sh es (handle-Inv c sw sh e v)

pub trigger-Inv :
    (c : Controller) → c.state ≡ PowerState.hidden → 0 < length c.manager.actions → Inv (trigger c)
unfolding trigger Manager.show close_dialog process_event
trigger-Inv c h n = ground arith

-- An overlay with at least one action, triggered from the hidden state, keeps its selection in
-- range and its state machine in step with the manager through every sequence of events.
pub run-trigger-Inv :
    (c : Controller) (sw sh : ℤ) (es : List (ℤ × Input))
    → c.state ≡ PowerState.hidden
    → 0 < length c.manager.actions
    → Inv (run (trigger c) sw sh es)
run-trigger-Inv c sw sh es h n = run-Inv (trigger c) sw sh es (trigger-Inv c h n)

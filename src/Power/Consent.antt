-- ===== src/Power/Consent.antt =====
-- Which action the power overlay hands over for execution, and by what gesture.
use waylaunch.Prelude.{◌≡◌, ◌⊎◌, inl, inr, Bool, true, false, none, some, List, ◌∷◌, ◌++◌, arith}
use waylaunch.Prelude.Tests.{Option-cases}
use waylaunch.Prelude.Lists.{length}
use waylaunch.Prelude.Int.{ℤ}
use waylaunch.Keys.{Keysym}
use waylaunch.Power.Dialog.{PowerAction, Button, expired}
use waylaunch.Power.StateMachine.{PowerState, is_active, is_confirm_open}
use waylaunch.Power.Manager
use waylaunch.Power.Manager.{PowerManager, selected_action}
use waylaunch.Power.Layout.{contains, hud, dialog}
use waylaunch.Power.Controller.{
  Controller, KeyAction, key_dispatch_table, activate, confirm, cancel, tick, perform, dialog_key,
  grid_key, handle_key, card_at, dialog_motion, grid_motion, handle_pointer_motion, dialog_click,
  grid_click, handle_pointer_click, Input, handle, run,
}

-- The events that accept the open dialog.
abbrev pub IsAccept : Keysym → Type 0
IsAccept k = (k ≡ Keysym.return) ⊎ ((k ≡ Keysym.kp_enter) ⊎ (k ≡ Keysym.space))

abbrev pub Accepts : Controller → ℤ → ℤ → ℤ × Input → Type 0
Accepts c sw sh (now, Input.key k p) =
    (p ≡ true) × IsAccept k × (c.manager.dialog.focus ≡ Button.confirm)
Accepts c sw sh (now, Input.motion x y) = ⊥
Accepts c sw sh (now, Input.click x y) = contains (dialog sw sh).confirm x y ≡ true
Accepts c sw sh (now, Input.clock) = expired c.manager.dialog now ≡ true

-- A pending action that this event set: not destructive, or accepted in its open dialog.
abbrev Consented : Controller → ℤ → ℤ → ℤ × Input → PowerAction → Type 0
Consented c sw sh e a =
    (c.state ≡ PowerState.confirm_open) × (c.manager.dialog.action ≡ a) × Accepts c sw sh e

activate-pending :
    (c : Controller) (now : ℤ) (a : PowerAction)
    → c.manager.pending ≡ none
    → (activate c now).manager.pending ≡ some a
    → c.manager.confirm_destructive ≡ true
    → a.destructive ≡ false
unfolding activate Manager.activate_selected
activate-pending c now a n h s = ground arith

perform-pending :
    (k : KeyAction) (c : Controller) (now : ℤ) (a : PowerAction)
    → c.manager.pending ≡ none
    → (perform k c now).manager.pending ≡ some a
    → c.manager.confirm_destructive ≡ true
    → a.destructive ≡ false
unfolding perform Manager.navigate_prev Manager.navigate_next Manager.jump_to cancel Manager.cancel
perform-pending k c now a n h s = ground (arith, activate-pending c now a)

grid_key-pending :
    (k : Keysym) (c : Controller) (now : ℤ) (a : PowerAction)
    → c.manager.pending ≡ none
    → (grid_key k c now).manager.pending ≡ some a
    → c.manager.confirm_destructive ≡ true
    → a.destructive ≡ false
unfolding grid_key
grid_key-pending k c now a n h s = elim (Option-cases (key_dispatch_table k)) [
  | inl e ↦ ground arith
  | inr (b, e) ↦ perform-pending b c now a n (rw (e, grid_key) at h) s
]

dialog_key-pending :
    (k : Keysym) (c : Controller) (a : PowerAction)
    → c.manager.pending ≡ none
    → (dialog_key k c).manager.pending ≡ some a
    → (c.manager.dialog.action ≡ a) × IsAccept k × (c.manager.dialog.focus ≡ Button.confirm)
unfolding dialog_key confirm cancel Manager.confirm Manager.cancel Manager.toggle_dialog_focus
dialog_key-pending k c a n h = ground arith

handle_key-pending :
    (c : Controller) (sw sh now : ℤ) (k : Keysym) (p : Bool) (a : PowerAction)
    → c.manager.pending ≡ none
    → (handle_key c now k p).0.manager.pending ≡ some a
    → c.manager.confirm_destructive ≡ true
    → a.destructive ≡ true
    → Consented c sw sh (now, Input.key k p) a
unfolding handle_key is_active is_confirm_open
handle_key-pending c sw sh now k p a n h s d =
    ground (arith, grid_key-pending k c now a, dialog_key-pending k c a)

pub motion-pending :
    (c : Controller) (x y sw sh : ℤ)
    → (handle_pointer_motion c x y sw sh).manager.pending ≡ c.manager.pending
unfolding handle_pointer_motion dialog_motion grid_motion Manager.set_dialog_focus Manager.jump_to
motion-pending c x y sw sh = ground arith

tick-pending :
    (c : Controller) (now : ℤ) (a : PowerAction)
    → c.manager.pending ≡ none
    → (tick c now).manager.pending ≡ some a
    → (c.state ≡ PowerState.confirm_open)
      × (c.manager.dialog.action ≡ a)
      × (expired c.manager.dialog now ≡ true)
unfolding tick confirm Manager.confirm is_confirm_open
tick-pending c now a n h = ground arith

dialog_click-pending :
    (c : Controller) (x y sw sh : ℤ) (a : PowerAction)
    → c.manager.pending ≡ none
    → (dialog_click c x y sw sh).manager.pending ≡ some a
    → (c.manager.dialog.action ≡ a) × (contains (dialog sw sh).confirm x y ≡ true)
unfolding dialog_click confirm Manager.confirm cancel Manager.cancel
dialog_click-pending c x y sw sh a n h = ground arith

grid_click-pending :
    (c : Controller) (now x y sw sh : ℤ) (a : PowerAction)
    → c.manager.pending ≡ none
    → (grid_click c now x y sw sh).manager.pending ≡ some a
    → c.manager.confirm_destructive ≡ true
    → a.destructive ≡ false
unfolding grid_click cancel Manager.cancel Manager.jump_to
grid_click-pending c now x y sw sh a n h s =
    elim (Option-cases (card_at (hud sw sh (length c.manager.actions)).cards 0 x y)) [
      | inl e ↦ ground arith
      | inr (i, e) ↦
          activate-pending (record c { manager = Manager.jump_to c.manager i }) now a (ground arith)
            (rw (e, grid_click) at h) (ground arith)
    ]

click-pending :
    (c : Controller) (sw sh now x y : ℤ) (a : PowerAction)
    → c.manager.pending ≡ none
    → (handle_pointer_click c now x y sw sh).manager.pending ≡ some a
    → c.manager.confirm_destructive ≡ true
    → a.destructive ≡ true
    → Consented c sw sh (now, Input.click x y) a
unfolding handle_pointer_click is_active is_confirm_open
click-pending c sw sh now x y a n h s d =
    ground (arith, grid_click-pending c now x y sw sh a, dialog_click-pending c x y sw sh a)

-- With confirmation switched on, a destructive action becomes pending only by an event that
-- accepts it in its open dialog: an accept key pressed while the confirm button has the focus, a
-- click on that button, or the countdown's end.
pub handle_consented :
    (c : Controller) (sw sh : ℤ) (e : ℤ × Input) (a : PowerAction)
    → c.manager.pending ≡ none
    → (handle c sw sh e).manager.pending ≡ some a
    → c.manager.confirm_destructive ≡ true
    → a.destructive ≡ true
    → (c.state ≡ PowerState.confirm_open) × (c.manager.dialog.action ≡ a) × Accepts c sw sh e
unfolding handle
handle_consented c sw sh (now, Input.key k p) a n h s d =
    handle_key-pending c sw sh now k p a n h s d
handle_consented c sw sh (now, Input.motion x y) a n h s d =
    ground (arith, motion-pending c x y sw sh)
handle_consented c sw sh (now, Input.click x y) a n h s d = click-pending c sw sh now x y a n h s d
handle_consented c sw sh (now, Input.clock) a n h s d = tick-pending c now a n h

perform-gate :
    (k : KeyAction) (c : Controller) (now : ℤ)
    → (perform k c now).manager.confirm_destructive ≡ c.manager.confirm_destructive
unfolding perform Manager.navigate_prev Manager.navigate_next Manager.jump_to cancel Manager.cancel
    activate Manager.activate_selected
perform-gate k c now = ground arith

pub handle-gate :
    (c : Controller) (sw sh : ℤ) (e : ℤ × Input)
    → (handle c sw sh e).manager.confirm_destructive ≡ c.manager.confirm_destructive
unfolding handle handle_key dialog_key grid_key handle_pointer_motion dialog_motion grid_motion
    Manager.set_dialog_focus Manager.jump_to Manager.toggle_dialog_focus handle_pointer_click
    dialog_click grid_click cancel Manager.cancel confirm Manager.confirm tick activate
    Manager.activate_selected
handle-gate c sw sh (now, Input.key k p) = elim (Option-cases (key_dispatch_table k)) [
  | inl e ↦ ground arith
  | inr (b, e) ↦ ground (arith, perform-gate b c now)
]
handle-gate c sw sh (now, Input.motion x y) = ground arith
handle-gate c sw sh (now, Input.click x y) = ground arith
handle-gate c sw sh (now, Input.clock) = ground arith

-- A split of a run at the event that made a pending action so.
abbrev pub ConsentedWithin : Controller → ℤ → ℤ → List (ℤ × Input) → PowerAction → Type 0
ConsentedWithin c sw sh es a =
    (before : List (ℤ × Input)) × (e : ℤ × Input) × (after : List (ℤ × Input)) × (es
      ≡ before ++ e ∷ after)
    × ((run c sw sh before).state ≡ PowerState.confirm_open)
    × ((run c sw sh before).manager.dialog.action ≡ a)
    × Accepts (run c sw sh before) sw sh e

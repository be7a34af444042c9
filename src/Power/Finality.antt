-- ===== src/Power/Finality.antt =====
-- Once an action is pending the power overlay is over: no later event changes it.
use waylaunch.Prelude.{
  ◌≡◌, refl, ap, sym, ◌∙◌, inl, inr, Bool, true, false, none, some, List, [], ◌∷◌, ◌++◌, arith,
}
use waylaunch.Prelude.Tests.{Option-cases}
use waylaunch.Prelude.Lists.{length}
use waylaunch.Prelude.Int.{ℤ, negsuc}
use waylaunch.Keys.{Keysym}
use waylaunch.Power.Dialog.{PowerAction, close_dialog}
use waylaunch.Power.StateMachine.{PowerState, process_event, is_active, is_confirm_open}
use waylaunch.Power.Manager
use waylaunch.Power.Manager.{PowerManager, execute_pending}
use waylaunch.Power.Layout.{hud}
use waylaunch.Power.Controller.{
  Controller, KeyAction, key_dispatch_table, activate, confirm, cancel, tick, perform, dialog_key,
  grid_key, handle_key, card_at, handle_pointer_motion, dialog_click, grid_click,
  handle_pointer_click, Input, handle, run,
}
use waylaunch.Power.Consent.{ConsentedWithin, handle_consented, handle-gate, motion-pending}

handle_inactive :
    (c : Controller) (sw sh : ℤ) (e : ℤ × Input) → is_active c.state ≡ false → handle c sw sh e ≡ c
unfolding handle handle_key handle_pointer_motion handle_pointer_click tick is_active
    is_confirm_open
handle_inactive c sw sh (now, Input.key k p) h = ground arith
handle_inactive c sw sh (now, Input.motion x y) h = ground arith
handle_inactive c sw sh (now, Input.click x y) h = ground arith
handle_inactive c sw sh (now, Input.clock) h = ground arith

-- An overlay whose state machine is not active ignores every sequence of events.
pub run_inactive :
    (c : Controller) (sw sh : ℤ) (es : List (ℤ × Input))
    → is_active c.state ≡ false
    → run c sw sh es ≡ c
unfolding run
run_inactive c sw sh [] h = refl
run_inactive c sw sh (e ∷ es) h = rw (handle_inactive c sw sh e h) (run_inactive c sw sh es h)

activate_ends :
    (c : Controller) (now : ℤ) (a : PowerAction)
    → c.manager.pending ≡ none
    → (activate c now).manager.pending ≡ some a
    → c.state ≡ PowerState.active
    → (activate c now).state ≡ PowerState.dismissing
unfolding activate Manager.activate_selected close_dialog process_event
activate_ends c now a n h s = ground arith

perform_ends :
    (k : KeyAction) (c : Controller) (now : ℤ) (a : PowerAction)
    → c.manager.pending ≡ none
    → (perform k c now).manager.pending ≡ some a
    → c.state ≡ PowerState.active
    → (perform k c now).state ≡ PowerState.dismissing
unfolding perform Manager.navigate_prev Manager.navigate_next Manager.jump_to cancel Manager.cancel
perform_ends k c now a n h s = ground (arith, activate_ends c now a)

grid_key_ends :
    (k : Keysym) (c : Controller) (now : ℤ) (a : PowerAction)
    → c.manager.pending ≡ none
    → (grid_key k c now).manager.pending ≡ some a
    → c.state ≡ PowerState.active
    → (grid_key k c now).state ≡ PowerState.dismissing
unfolding grid_key
grid_key_ends k c now a n h s = elim (Option-cases (key_dispatch_table k)) [
  | inl e ↦ ground arith
  | inr (b, e) ↦ rw (e, grid_key) (perform_ends b c now a n (rw (e, grid_key) at h) s)
]

handle_key_ends :
    (c : Controller) (now : ℤ) (k : Keysym) (p : Bool) (a : PowerAction)
    → c.manager.pending ≡ none
    → (handle_key c now k p).0.manager.pending ≡ some a
    → (handle_key c now k p).0.state ≡ PowerState.dismissing
unfolding handle_key dialog_key confirm cancel Manager.confirm Manager.cancel
    Manager.toggle_dialog_focus process_event is_active is_confirm_open
handle_key_ends c now k p a n h = ground (arith, grid_key_ends k c now a)

grid_click_ends :
    (c : Controller) (now x y sw sh : ℤ) (a : PowerAction)
    → c.manager.pending ≡ none
    → (grid_click c now x y sw sh).manager.pending ≡ some a
    → c.state ≡ PowerState.active
    → (grid_click c now x y sw sh).state ≡ PowerState.dismissing
unfolding grid_click cancel Manager.cancel Manager.jump_to
grid_click_ends c now x y sw sh a n h s =
    elim (Option-cases (card_at (hud sw sh (length c.manager.actions)).cards 0 x y)) [
      | inl e ↦ ground arith
      | inr (i, e) ↦
          rw (e, grid_click)
            (activate_ends (record c { manager = Manager.jump_to c.manager i }) now a (ground arith)
              (rw (e, grid_click) at h) s)
    ]

click_ends :
    (c : Controller) (now x y sw sh : ℤ) (a : PowerAction)
    → c.manager.pending ≡ none
    → (handle_pointer_click c now x y sw sh).manager.pending ≡ some a
    → (handle_pointer_click c now x y sw sh).state ≡ PowerState.dismissing
unfolding handle_pointer_click dialog_click confirm cancel Manager.confirm Manager.cancel
    process_event is_active is_confirm_open
click_ends c now x y sw sh a n h = ground (arith, grid_click_ends c now x y sw sh a)

tick_ends :
    (c : Controller) (now : ℤ) (a : PowerAction)
    → c.manager.pending ≡ none
    → (tick c now).manager.pending ≡ some a
    → (tick c now).state ≡ PowerState.dismissing
unfolding tick confirm Manager.confirm process_event is_confirm_open
tick_ends c now a n h = ground arith

-- The event that makes an action pending dismisses the overlay.
pub handle_ends :
    (c : Controller) (sw sh : ℤ) (e : ℤ × Input) (a : PowerAction)
    → c.manager.pending ≡ none
    → (handle c sw sh e).manager.pending ≡ some a
    → (handle c sw sh e).state ≡ PowerState.dismissing
unfolding handle
handle_ends c sw sh (now, Input.key k p) a n h = handle_key_ends c now k p a n h
handle_ends c sw sh (now, Input.motion x y) a n h = ground (arith, motion-pending c x y sw sh)
handle_ends c sw sh (now, Input.click x y) a n h = click_ends c now x y sw sh a n h
handle_ends c sw sh (now, Input.clock) a n h = tick_ends c now a n h

-- So a run from such an event on stays where it is.
run_after :
    (c : Controller) (sw sh : ℤ) (e : ℤ × Input) (es : List (ℤ × Input)) (a : PowerAction)
    → c.manager.pending ≡ none
    → (handle c sw sh e).manager.pending ≡ some a
    → run (handle c sw sh e) sw sh es ≡ handle c sw sh e
unfolding is_active
run_after c sw sh e es a n h =
    run_inactive (handle c sw sh e) sw sh es (rw (handle_ends c sw sh e a n h) refl)

-- Whatever is chosen first is final: when an action is pending after some events, any further
-- events leave the whole overlay as it is.
pub run_final :
    (c : Controller) (sw sh : ℤ) (es fs : List (ℤ × Input)) (a : PowerAction)
    → c.manager.pending ≡ none
    → (run c sw sh es).manager.pending ≡ some a
    → run c sw sh (es ++ fs) ≡ run c sw sh es
unfolding run
run_final c sw sh [] fs a n h = ground arith
run_final c sw sh (e ∷ es) fs a n h = elim (Option-cases (handle c sw sh e).manager.pending) [
  | inl m ↦ run_final (handle c sw sh e) sw sh es fs a m h
  | inr (b, m) ↦ run_after c sw sh e (es ++ fs) b n m ∙ sym (run_after c sw sh e es b n m)
]

consented_later :
    (c : Controller) (sw sh : ℤ) (e : ℤ × Input) (es : List (ℤ × Input)) (a : PowerAction)
    → ConsentedWithin (handle c sw sh e) sw sh es a
    → ConsentedWithin c sw sh (e ∷ es) a
unfolding run
consented_later c sw sh e es a (before, f, after, split, s, d, accepts) =
    (e ∷ before, f, after, ap (◌∷◌ e) split, s, d, accepts)

-- A destructive action that is pending after a run, with none pending before it and confirmation
-- switched on, was accepted in its own open dialog by one of the run's events.
pub run_consented :
    (c : Controller) (sw sh : ℤ) (es : List (ℤ × Input)) (a : PowerAction)
    → c.manager.pending ≡ none
    → c.manager.confirm_destructive ≡ true
    → (run c sw sh es).manager.pending ≡ some a
    → a.destructive ≡ true
    → ConsentedWithin c sw sh es a
unfolding run
run_consented c sw sh [] a n g h d = cc
run_consented c sw sh (e ∷ es) a n g h d = elim (Option-cases (handle c sw sh e).manager.pending) [
  | inl m ↦
      consented_later c sw sh e es a
        (run_consented (handle c sw sh e) sw sh es a m (handle-gate c sw sh e ∙ g) h d)
  | inr (b, m) ↦
      let same : (handle c sw sh e).manager.pending ≡ some a =
        rw (run_after c sw sh e es b n m) at h in
      let (s, act, acc) = handle_consented c sw sh e a n same g d in ([], e, es, refl, s, act, acc)
]

-- Executing runs the pending action once: it returns that action's exit code, and a second call
-- runs nothing and returns -1.
pub execute_once :
    (exec : PowerAction → ℤ) (m : PowerManager) (a : PowerAction)
    → m.pending ≡ some a
    → let first = execute_pending exec m in
      let second = execute_pending exec first.after in
      (first.code ≡ exec a)
      × (first.ran ≡ some a)
      × (second.code ≡ negsuc 0)
      × (second.ran ≡ none)
      × (second.after ≡ first.after)
unfolding execute_pending
execute_once exec m a h = ground arith

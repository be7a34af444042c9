-- ===== src/Tests/Power.antt =====
-- The power overlay at concrete inputs.
use waylaunch.Prelude.{
  ◌<◌, ◌≡◌, refl, inl, true, false, ◌&&◌, none, some, List, [], ◌∷◌, ◌++◌, arith,
}
use waylaunch.Prelude.Lists.{get_elem?}
use waylaunch.Prelude.Int.{ℤ, pos, ◌+ℤ◌, ◌-ℤ◌, ◌*ℤ◌, ◌/ℤ◌, min_ℤ}
use waylaunch.Prelude.Text.{codes, text_eq}
use waylaunch.Keys.{Keysym}
use waylaunch.Power.Dialog.{
  PowerAction, Button, ConfirmDialog, open_dialog, close_dialog, has_countdown, expired,
}
use waylaunch.Power.StateMachine.{PowerState, process_event, is_active, is_confirm_open}
use waylaunch.Power.Manager
use waylaunch.Power.Manager.{
  PowerManager, init, execute_pending, navigate_next, navigate_prev, jump_to,
}
use waylaunch.Power.Layout
use waylaunch.Power.Layout.{contains, hud, hud_panel, place_cards, dialog}
use waylaunch.Power.Controller.{
  Controller, Input, trigger, activate, confirm, perform, key_dispatch_table, dialog_key, grid_key,
  handle_key, handle, run, handle_pointer_click,
}
use waylaunch.Power.Backend.{
  PowerConfig, Host, split_argv, is_power_verb, exit_fallback, normalize_verb, resolve_argv,
  find_default, defaults,
}
use waylaunch.Power.Invariant.{Inv, run-trigger-Inv}
use waylaunch.Power.Consent.{ConsentedWithin}
use waylaunch.Power.Finality.{run_consented, run_final}
use waylaunch.Power.LayoutBounds.{IsWithin, dialog_buttons, hud_cards, click_card}
use waylaunch.Power.Argv.{command_line, split_argv-command_line}
use waylaunch.Power.Actions.{known_ids}

abbrev lock : PowerAction
lock = record {
  id = codes "lock";
  name = codes "Lock";
  argv = codes "loginctl" ∷ codes "lock-session" ∷ [];
  icon_name = [];
  confirm_text = [];
  subtext = [];
  destructive = false;
}

abbrev reboot : PowerAction
reboot = record {
  id = codes "restart";
  name = codes "Restart";
  argv = codes "loginctl" ∷ codes "reboot" ∷ [];
  icon_name = [];
  confirm_text = codes "Are you sure?";
  subtext = [];
  destructive = true;
}

abbrev hidden : Controller
hidden = record {
  manager = record {
    actions = lock ∷ reboot ∷ [];
    dialog = record {
      action = lock;
      deadline = pos 0;
      countdown_total = pos 0;
      focus = Button.confirm;
      is_open = false;
    };
    pending = none;
    selected_index = 0;
    visible = false;
    confirm_destructive = true;
    countdown_seconds = pos 60;
    redraws = 0;
  };
  state = PowerState.hidden;
}

abbrev press : Keysym → ℤ × Input
press k = (pos 0, Input.key k true)

-- Right, Return, Return: pick the second action and accept its dialog.
abbrev accepted : List (ℤ × Input)
accepted = press Keysym.right ∷ press Keysym.return ∷ press Keysym.return ∷ []

accepted_runs : (run (trigger hidden) (pos 1920) (pos 1080) accepted).manager.pending ≡ some reboot
unfolding run handle handle_key trigger Manager.show close_dialog process_event is_active
    is_confirm_open grid_key key_dispatch_table perform Manager.navigate_next activate
    Manager.activate_selected dialog_key confirm Manager.confirm open_dialog
accepted_runs = refl

run-trigger-Inv_example : Inv (run (trigger hidden) (pos 1920) (pos 1080) accepted)
run-trigger-Inv_example = run-trigger-Inv hidden (pos 1920) (pos 1080) accepted refl (omega arith)

run_consented_example : ConsentedWithin (trigger hidden) (pos 1920) (pos 1080) accepted reboot
unfolding trigger Manager.show close_dialog
run_consented_example =
    run_consented (trigger hidden) (pos 1920) (pos 1080) accepted reboot refl refl accepted_runs
      refl

run_final_example :
    run (trigger hidden) (pos 1920) (pos 1080) (accepted ++ press Keysym.escape ∷ [])
    ≡ run (trigger hidden) (pos 1920) (pos 1080) accepted
unfolding trigger Manager.show close_dialog
run_final_example =
    run_final (trigger hidden) (pos 1920) (pos 1080) accepted (press Keysym.escape ∷ []) reboot refl
      accepted_runs

abbrev chosen : PowerManager
chosen = record (hidden.manager) { pending = some lock }

abbrev showing : Controller
showing = record hidden { state = PowerState.active }

dialog_buttons_example :
    let d = dialog (pos 1920) (pos 1080) in
    IsWithin d.confirm d.card
    × IsWithin d.cancel d.card
    × ((contains d.cancel (pos 800) (pos 650) && contains d.confirm (pos 800) (pos 650)) ≡ false)
dialog_buttons_example = dialog_buttons (pos 1920) (pos 1080) (pos 800) (pos 650)

-- The second card of two on a screen of 1920 by 1080.
abbrev second_card : Layout.Rect
second_card = record { x = pos 960; y = pos 488; w = pos 104; h = pos 104 }

second_card_shown : get_elem? (hud (pos 1920) (pos 1080) 2).cards 1 ≡ some second_card
unfolding hud hud_panel place_cards ◌+ℤ◌ ◌-ℤ◌ ◌*ℤ◌ ◌/ℤ◌ min_ℤ
second_card_shown = refl

hud_cards_example : (1 < 2) × IsWithin second_card (hud (pos 1920) (pos 1080) 2).panel
hud_cards_example = hud_cards (pos 1920) (pos 1080) 2 1 second_card second_card_shown

click_card_example :
    let c' = record showing { manager = jump_to showing.manager 1 } in
    (handle_pointer_click showing (pos 0) (pos 1000) (pos 500) (pos 1920) (pos 1080)
      ≡ activate c' (pos 0))
    × (c'.manager.selected_index ≡ 1)
unfolding contains ◌+ℤ◌
click_card_example =
    click_card showing (pos 0) (pos 1000) (pos 500) (pos 1920) (pos 1080) 1 second_card refl
      second_card_shown refl

split_argv-command_line_example :
    split_argv (command_line 39 (codes "notify-send" ∷ codes "a b" ∷ [] ∷ []))
    ≡ codes "notify-send" ∷ codes "a b" ∷ [] ∷ []
split_argv-command_line_example =
    split_argv-command_line 39 (codes "notify-send" ∷ codes "a b" ∷ [] ∷ []) (inl refl)
      (omega arith)

-- A host with both binaries.
abbrev systemd : Host
systemd = record { command_exists = λ t. true; session_id = none; uid = codes "1000" }

reboot_resolves : resolve_argv systemd reboot ≡ codes "systemctl" ∷ codes "reboot" ∷ []
unfolding resolve_argv exit_fallback normalize_verb is_power_verb text_eq
reboot_resolves = refl

abbrev some_actions : PowerConfig
some_actions = record {
  enabled_actions = codes "shutdown" ∷ codes "dance" ∷ codes "lock" ∷ [];
  commands = λ id. none;
  confirm_text = λ id. some (codes "leave");
}

known_ids_run : known_ids some_actions.enabled_actions ≡ codes "shutdown" ∷ codes "lock" ∷ []
unfolding find_default defaults text_eq
known_ids_run = refl

abbrev asking : ConfirmDialog
asking = record {
  action = reboot;
  deadline = pos 60_000_000_000;
  countdown_total = pos 60;
  focus = Button.confirm;
  is_open = true;
}

expired_run : expired asking (pos 59_999_999_999) ≡ false
unfolding expired has_countdown
expired_run = refl

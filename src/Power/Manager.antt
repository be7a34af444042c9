-- ===== src/Power/Manager.antt =====
-- PowerManager: src/power/power_manager.cpp and its header. `redraws` counts the calls of the
-- change callback; the backend is the function `run` that executes an action, and the manager
-- is built over a backend that is there.
use waylaunch.Prelude.{ℕ, ◌+◌, ◌-◌, ◌%◌, Bool, true, false, not, ◌&&◌, Option, none, some, List}
use waylaunch.Prelude.Tests.{ltb, ◌==◌, if◌then◌else◌}
use waylaunch.Prelude.Lists.{length, get_elem?, is_empty}
use waylaunch.Prelude.Int.{ℤ, pos, negsuc, ltb_ℤ}
use waylaunch.Power.Dialog.{
  PowerAction, Button, ConfirmDialog, open_dialog, close_dialog, toggle_focus, set_focus,
}

pub record PowerManager : Type 0 where
  pub actions : List PowerAction
  pub dialog : ConfirmDialog
  pub pending : Option PowerAction
  pub selected_index : ℕ
  pub visible : Bool
  pub confirm_destructive : Bool
  pub countdown_seconds : ℤ
  pub redraws : ℕ

abbrev no_action : PowerAction
no_action = record {
  id = List.[];
  name = List.[];
  argv = List.[];
  icon_name = List.[];
  confirm_text = List.[];
  subtext = List.[];
  destructive = false;
}

unfoldable pub init : List PowerAction → PowerManager
init acts = record {
  actions = acts;
  dialog = record {
    action = no_action;
    deadline = pos 0;
    countdown_total = pos 0;
    focus = Button.confirm;
    is_open = false;
  };
  pending = none;
  selected_index = 0;
  visible = false;
  confirm_destructive = true;
  countdown_seconds = pos 0;
  redraws = 0;
}

unfoldable pub set_confirm_destructive : PowerManager → Bool → PowerManager
set_confirm_destructive m v = record m { confirm_destructive = v }

unfoldable pub set_countdown_seconds : PowerManager → ℤ → PowerManager
set_countdown_seconds m v = record m { countdown_seconds = if ltb_ℤ (pos 0) v then v else pos 0 }

unfoldable pub notify_change : PowerManager → PowerManager
notify_change m = record m { redraws = m.redraws + 1 }

unfoldable pub show : PowerManager → PowerManager
unfolding notify_change
show m =
    notify_change (record m { visible = true; selected_index = 0; dialog = close_dialog m.dialog })

unfoldable pub hide : PowerManager → PowerManager
unfolding notify_change
hide m = notify_change (record m { visible = false; dialog = close_dialog m.dialog })

unfoldable pub navigate_next : PowerManager → PowerManager
unfolding notify_change
navigate_next m =
    if is_empty m.actions
    then m
    else notify_change (record m { selected_index = (m.selected_index + 1) % length m.actions })

unfoldable pub navigate_prev : PowerManager → PowerManager
unfolding notify_change
navigate_prev m =
    if is_empty m.actions
    then m
    else notify_change
        (record m { selected_index = (m.selected_index + length m.actions - 1) % length m.actions })

unfoldable pub jump_to : PowerManager → ℕ → PowerManager
unfolding notify_change
jump_to m index =
    if ltb index (length m.actions) && not (index == m.selected_index)
    then notify_change (record m { selected_index = index })
    else m

unfoldable pub selected_action : PowerManager → Option PowerAction
selected_action m = get_elem? m.actions m.selected_index

activate_action : PowerManager → ℤ → PowerAction → PowerManager
unfolding notify_change hide
activate_action m now a =
    if a.destructive && m.confirm_destructive
    then notify_change (record m { dialog = open_dialog a m.countdown_seconds now })
    else hide (record m { pending = some a })

-- `now` is the reading of the clock that ConfirmDialog::open takes by default.
unfoldable pub activate_selected : PowerManager → ℤ → PowerManager
unfolding selected_action activate_action
activate_selected m now =
    if not m.visible
    then m
    else elim (selected_action m) [ none ↦ m | some a ↦ activate_action m now a ]

unfoldable pub confirm : PowerManager → PowerManager
unfolding hide
confirm m = if not m.dialog.is_open then m else hide (record m { pending = some m.dialog.action })

unfoldable pub toggle_dialog_focus : PowerManager → PowerManager
unfolding notify_change
toggle_dialog_focus m =
    if not m.dialog.is_open then m else notify_change (record m { dialog = toggle_focus m.dialog })

abbrev same_button : Button → Button → Bool
same_button Button.confirm Button.confirm = true
same_button Button.cancel Button.cancel = true
same_button _ _ = false

unfoldable pub set_dialog_focus : PowerManager → Button → PowerManager
unfolding notify_change
set_dialog_focus m b =
    if not m.dialog.is_open
    then m
    else if same_button m.dialog.focus b
    then m
    else notify_change (record m { dialog = set_focus m.dialog b })

unfoldable pub cancel : PowerManager → PowerManager
unfolding hide
cancel m = hide m

-- What a call of execute_pending returns, leaves behind and runs.
pub record Execution : Type 0 where
  pub code : ℤ
  pub after : PowerManager
  pub ran : Option PowerAction

unfoldable pub execute_pending : (PowerAction → ℤ) → PowerManager → Execution
execute_pending run m = elim m.pending [
  | none ↦ record { code = negsuc 0; after = m; ran = none }
  | some a ↦ record { code = run a; after = record m { pending = none }; ran = some a }
]

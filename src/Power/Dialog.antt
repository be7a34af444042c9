-- ===== src/Power/Dialog.antt =====
-- ConfirmDialog: include/waylaunch/power/confirm_dialog.h. Time points and the deadline are in
-- nanoseconds of the steady clock; `remaining_fraction`, a double that only the ring of the
-- renderer reads, has no counterpart.
use waylaunch.Prelude.{◌+◌, ◌/◌, Bool, true, false, ◌&&◌, List}
use waylaunch.Prelude.Tests.{if◌then◌else◌}
use waylaunch.Prelude.Int.{ℤ, pos, negsuc, ◌+ℤ◌, ◌-ℤ◌, ◌*ℤ◌, ltb_ℤ, leb_ℤ, max_ℤ, sub_ℕ}
use waylaunch.Prelude.Text.{Text}

-- PowerAction of power_action.h.
pub record PowerAction : Type 0 where
  pub id : Text
  pub name : Text
  pub argv : List Text
  pub icon_name : Text
  pub confirm_text : Text
  pub subtext : Text
  pub destructive : Bool

pub data Button : Type 0 where
  confirm cancel : Button

pub record ConfirmDialog : Type 0 where
  pub action : PowerAction
  pub deadline : ℤ
  pub countdown_total : ℤ
  pub focus : Button
  pub is_open : Bool

abbrev pub nanos_per_sec : ℤ
nanos_per_sec = pos 1_000_000_000

unfoldable pub open_dialog : PowerAction → ℤ → ℤ → ConfirmDialog
open_dialog a countdown_seconds now =
    let total = if ltb_ℤ (pos 0) countdown_seconds then countdown_seconds else pos 0 in
    record {
      action = a;
      deadline = now +ℤ total *ℤ nanos_per_sec;
      countdown_total = total;
      focus = Button.confirm;
      is_open = true;
    }

unfoldable pub close_dialog : ConfirmDialog → ConfirmDialog
close_dialog d = record d { is_open = false }

abbrev other_button : Button → Button
other_button Button.confirm = Button.cancel
other_button Button.cancel = Button.confirm

unfoldable pub toggle_focus : ConfirmDialog → ConfirmDialog
toggle_focus d = record d { focus = other_button d.focus }

unfoldable pub set_focus : ConfirmDialog → Button → ConfirmDialog
set_focus d b = record d { focus = b }

unfoldable pub has_countdown : ConfirmDialog → Bool
has_countdown d = ltb_ℤ (pos 0) d.countdown_total

-- `std::chrono::ceil<std::chrono::seconds>`.
unfoldable pub ceil_seconds : ℤ → ℤ
ceil_seconds (pos n) = pos ((n + 999_999_999) / 1_000_000_000)
ceil_seconds (negsuc n) = sub_ℕ 0 ((n + 1) / 1_000_000_000)

unfoldable pub remaining_seconds : ConfirmDialog → ℤ → ℤ
unfolding has_countdown
remaining_seconds d now =
    if has_countdown d then max_ℤ (pos 0) (ceil_seconds (d.deadline -ℤ now)) else pos 0

unfoldable pub expired : ConfirmDialog → ℤ → Bool
unfolding has_countdown
expired d now = d.is_open && (has_countdown d && leb_ℤ d.deadline now)

-- ===== src/Power/Countdown.antt =====
-- The countdown of the confirmation dialog.
use waylaunch.Prelude.{ℕ, ◌≡◌, ◌*◌, ◌<◌, true, false, arith}
use waylaunch.Prelude.Int.{
  ℤ, pos, negsuc, ◌+ℤ◌, ◌-ℤ◌, ◌*ℤ◌, leb_ℤ, eq_ℤ, max_ℤ, +ℤ_parts, -ℤ_parts, int_laws,
}
use waylaunch.Power.Dialog.{
  PowerAction, Button, ConfirmDialog, open_dialog, has_countdown, ceil_seconds, remaining_seconds,
  expired,
}

-- Rounding up to seconds reaches zero exactly when the time is up.
ceil_seconds-pos : (t : ℤ) → eq_ℤ (max_ℤ (pos 0) (ceil_seconds t)) (pos 0) ≡ leb_ℤ t (pos 0)
unfolding ceil_seconds max_ℤ
ceil_seconds-pos (pos n) = ground arith
ceil_seconds-pos (negsuc n) = ground arith

time_left : (d now : ℤ) → leb_ℤ (d -ℤ now) (pos 0) ≡ leb_ℤ d now
time_left d now = ground (arith, -ℤ_parts d now)

-- An open dialog with a countdown confirms by itself at the same moment at which the number of
-- seconds that it shows is zero.
pub expired-remaining :
    (d : ConfirmDialog) (now : ℤ)
    → d.is_open ≡ true
    → has_countdown d ≡ true
    → expired d now ≡ eq_ℤ (remaining_seconds d now) (pos 0)
unfolding expired remaining_seconds
expired-remaining d now o h =
    ground (arith, ceil_seconds-pos (d.deadline -ℤ now), time_left d.deadline now)

nanos : (n : ℕ) → pos n *ℤ pos 1_000_000_000 ≡ pos (n * 1_000_000_000)
unfolding ◌*ℤ◌
nanos n = ground arith

time_back : (n : ℕ) (t : ℤ) → t +ℤ pos n -ℤ t ≡ pos n
time_back n t = omega int_laws

ceil_whole : (n : ℕ) → max_ℤ (pos 0) (ceil_seconds (pos (n * 1_000_000_000))) ≡ pos n
unfolding ceil_seconds max_ℤ
ceil_whole n = ground arith

-- A dialog that opens with a countdown of `n` seconds, `n` not zero, shows `n` at that moment,
-- has the confirm button focused and is not yet expired.
pub open_dialog-remaining :
    (a : PowerAction) (n : ℕ) (now : ℤ)
    → 0 < n
    → (remaining_seconds (open_dialog a (pos n) now) now ≡ pos n)
      × ((open_dialog a (pos n) now).focus ≡ Button.confirm)
      × (expired (open_dialog a (pos n) now) now ≡ false)
unfolding remaining_seconds open_dialog has_countdown expired
open_dialog-remaining a n now h = ground (
  arith,
  nanos n,
  time_back (n * 1_000_000_000) now,
  ceil_whole n,
  +ℤ_parts now (pos (n * 1_000_000_000)),
)

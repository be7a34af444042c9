-- ===== src/Dropdown/Supervisor.antt =====
-- SessionSupervisor: src/dropdown/session_supervisor.cpp and its header. Time points are in
-- nanoseconds, the backoff and the delays in milliseconds; `env` is what $TERMINAL holds.
use waylaunch.Prelude.{
  ℕ, ◌*◌, Bool, true, false, not, ◌||◌, Option, none, some, List, [], ◌∷◌, ◌++◌,
}
use waylaunch.Prelude.Tests.{ltb, ◌==◌, if◌then◌else◌}
use waylaunch.Prelude.Lists.{is_empty}
use waylaunch.Prelude.Int.{ℤ, pos, ◌-ℤ◌, leb_ℤ}
use waylaunch.Prelude.Text.{Text, codes, text_eq, is_space}

abbrev pub min_backoff_ms : ℕ
min_backoff_ms = 250

abbrev pub max_backoff_ms : ℕ
max_backoff_ms = 8000

-- kHealthyLifetimeSec, in nanoseconds.
abbrev pub healthy_lifetime : ℤ
healthy_lifetime = pos 10_000_000_000

pub record SessionSupervisor : Type 0 where
  pub slot : Text
  pub child : Option ℤ
  pub spawned_at : ℤ
  pub backoff_ms : ℕ
  pub respawn_enabled : Bool

unfoldable pub new_supervisor : Text → SessionSupervisor
new_supervisor slot = record {
  slot = slot;
  child = none;
  spawned_at = pos 0;
  backoff_ms = min_backoff_ms;
  respawn_enabled = true;
}

unfoldable pub app_id : SessionSupervisor → Text
app_id s = codes "waylaunch-drop-" ++ s.slot

abbrev is_present : Option ℤ → Bool
is_present none = false
is_present (some p) = true

unfoldable pub has_child : SessionSupervisor → Bool
has_child s = is_present s.child

unfoldable pub take_child : SessionSupervisor → Option ℤ × SessionSupervisor
take_child s = (s.child, record s { child = none })

unfoldable pub set_respawn_enabled : SessionSupervisor → Bool → SessionSupervisor
set_respawn_enabled s b = record s { respawn_enabled = b }

unfoldable pub note_spawned : SessionSupervisor → ℤ → ℤ → SessionSupervisor
note_spawned s pid now = record s { child = some pid; spawned_at = now }

-- `std::min(backoff_ms_ * 2, kMaxBackoffMs)`.
unfoldable pub doubled : ℕ → ℕ
doubled b = if ltb max_backoff_ms (b * 2) then max_backoff_ms else b * 2

-- The delay before the respawn, or none, and the new state.
unfoldable pub note_exited : SessionSupervisor → ℤ → Bool → Option ℕ × SessionSupervisor
note_exited s now respawn =
    let gone = record s { child = none } in
    let b = if leb_ℤ healthy_lifetime (now -ℤ s.spawned_at) then min_backoff_ms else s.backoff_ms in
    if not s.respawn_enabled || not respawn
    then (none, gone)
    else (some b, record gone { backoff_ms = doubled b })

-- The loop of split_words; an empty word is not pushed.
unfoldable pub split_words_from : List Text → Text → Text → List Text
split_words_from words word [] = if is_empty word then words else words ++ word ∷ []
split_words_from words word (c ∷ s) =
    let pushed = split_words_from (words ++ word ∷ []) [] s in
    let skipped = split_words_from words [] s in
    let grown = split_words_from words (word ++ c ∷ []) s in
    if is_space c then (if is_empty word then skipped else pushed) else grown

unfoldable pub split_words : Text → List Text
split_words command = split_words_from [] [] command

-- What stands after the last '/', or the whole text.
unfoldable pub basename_from : Text → Text → Text
basename_from base [] = base
basename_from base (c ∷ s) = if c == b'/' then basename_from s s else basename_from base s

unfoldable pub basename : Text → Text
basename s = basename_from s s

class_flags : Text → Text → Text → List Text
class_flags base exec_term app_id =
    if text_eq base (codes "kitty") || text_eq base (codes "alacritty")
    then exec_term ∷ codes "--class" ∷ app_id ∷ []
    else if text_eq base (codes "foot")
    then exec_term ∷ codes "--app-id" ∷ app_id ∷ []
    else if text_eq base (codes "wezterm")
    then exec_term ∷ codes "--config" ∷ (codes "window_id=" ++ app_id) ∷ codes "start" ∷ []
    else exec_term ∷ []

unfoldable pub with_class_flags : Text → Text → List Text → List Text
unfolding class_flags
with_class_flags exec_term app_id rest = class_flags (basename exec_term) exec_term app_id ++ rest

abbrev env_or : Option Text → Text
env_or none = []
env_or (some t) = t

unfoldable pub build_argv : Option Text → Text → Text → List Text
build_argv env terminal app_id =
    let term = if is_empty terminal then env_or env else terminal in
    with_class_flags (if is_empty term then codes "kitty" else term) app_id []

unfoldable pub build_slot_argv : Option Text → Text → Text → List Text
build_slot_argv env command app_id = elim (split_words command) [
  | [] ↦ build_argv env [] app_id
  | term ∷ words ↦ with_class_flags term app_id words
]

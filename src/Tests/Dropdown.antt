-- ===== src/Tests/Dropdown.antt =====
-- The dropdown's policies at concrete inputs.
use waylaunch.Prelude.{
  ℕ, ◌≤◌, ◌≡◌, ◌≢◌, ◌↔◌, refl, ◌⊎◌, Bool, true, false, Option, none, some, List, [], ◌∷◌, ◌++◌, map,
  arith,
}
use waylaunch.Prelude.Int.{ℤ, pos, negsuc, ◌+ℤ◌, ◌-ℤ◌, ◌*ℤ◌, ◌/ℤ◌, ◌≤ℤ◌, ◌<ℤ◌, max_ℤ, clamp}
use waylaunch.Prelude.Text.{Text, codes, text_eq, to_lower}
use waylaunch.Dropdown.Geometry.{
  Geometry, MonitorInfo, DropdownEdge, DropdownConfig, compute_geometry, usable_w, usable_h,
  usable_y, percent_of,
}
use waylaunch.Dropdown.Placement.{Fits, compute_geometry-Fits}
use waylaunch.Dropdown.Events.{HyprEvent, push, split_lines}
use waylaunch.Dropdown.Framing.{push-append, push-print_stream, print_stream}
use waylaunch.Dropdown.Backoff.{Life}
use waylaunch.Dropdown.Tabs.{Tab}
use waylaunch.Dropdown.Ownership.{HyprClient, select_owned, select_from, classify_ownership}
use waylaunch.Dropdown.Selection.{NoneMatches, FirstBest}
use waylaunch.Dropdown.Slot.{select_owned_best}
use waylaunch.Dropdown.Focus.{
  FocusGuard, configure, set_slot, note_shown, should_retract, normalize_address,
  is_descendant_process, parent_of,
}
use waylaunch.Dropdown.Retract.{retract_session, is_descendant_process_iff, IsAncestor}

abbrev screen : MonitorInfo
screen = record {
  x = pos 0;
  y = pos 0;
  w = pos 1920;
  h = pos 1080;
  reserved_top = pos 30;
  reserved_bottom = pos 0;
}

abbrev at_top : DropdownConfig
at_top = record {
  enabled = true;
  terminal = [];
  edge = DropdownEdge.top;
  width_percent = pos 60;
  height_percent = pos 40;
  size_override = none;
  hide_on_focus_loss = true;
  focus_grace_ms = pos 150;
  respawn = true;
  animation = codes "slide";
  tab_strip = true;
  slots = [];
}

compute_geometry_run :
    compute_geometry screen at_top ≡ record { x = pos 384; y = pos 30; w = pos 1152; h = pos 420 }
unfolding compute_geometry percent_of clamp max_ℤ ◌+ℤ◌ ◌-ℤ◌ ◌*ℤ◌ ◌/ℤ◌
compute_geometry_run = refl

compute_geometry-Fits_example :
    let g = compute_geometry screen at_top in
    Fits screen.x (usable_w screen) g.x g.w × Fits (usable_y screen) (usable_h screen) g.y g.h
compute_geometry-Fits_example = compute_geometry-Fits screen at_top

abbrev resized : Geometry
resized = record { x = pos 384; y = pos 66; w = pos 1000; h = pos 500 }

abbrev learnt : Geometry
learnt = record { x = pos 0; y = pos 0; w = pos 1000; h = pos 536 }

abbrev placed_before : Geometry
placed_before = record { x = pos 384; y = pos 66; w = pos 1152; h = pos 384 }

abbrev half_line : Text
half_line = codes "openwindow>>8"

push-append_example : push [] (half_line ++ (codes "0,term" ++ 10 ∷ [])) ≡ (
  (push [] half_line).0 ++ (push (push [] half_line).1 (codes "0,term" ++ 10 ∷ [])).0,
  (push (push [] half_line).1 (codes "0,term" ++ 10 ∷ [])).1,
)
unfolding split_lines
push-append_example = push-append [] half_line (codes "0,term" ++ 10 ∷ []) (omega arith)

abbrev two_events : List HyprEvent
two_events =
    record { name = codes "workspace"; payload = codes "2" }
    ∷ record { name = codes "focusedmon"; payload = codes "DP-1,2>>x" }
    ∷ []

push-print_stream_example : push [] (print_stream two_events) ≡ (two_events, [])
push-print_stream_example = push-print_stream two_events (omega arith)

-- A life of one second.
abbrev second : Life
second = record { pid = pos 700; start = pos 0; stop = pos 1_000_000_000 }

abbrev tab_a : Tab
tab_a = record { address = codes "0xa"; title = codes "a<b"; is_active = true }

abbrev tab_b : Tab
tab_b = record { address = codes "0xb"; title = []; is_active = false }

-- Process 10 is the owner's child.
abbrev child_of_owner : ℤ → ℤ → Bool
child_of_owner (pos p) (pos q) = true
child_of_owner p q = false

abbrev client : Text → ℤ → HyprClient
client klass pid = record {
  address = [];
  klass = klass;
  title = [];
  pid = pid;
  focus_history_id = negsuc 0;
  at_x = pos 0;
  at_y = pos 0;
  width = pos 0;
  height = pos 0;
  workspace_id = pos 0;
  workspace_name = [];
  monitor = pos 0;
  floating = false;
  mapped = true;
}

abbrev windows : List HyprClient
windows =
    client (codes "term") (pos 0)
    ∷ client (codes "term") (pos 10)
    ∷ client (codes "other") (pos 9)
    ∷ []

selected : select_owned windows (codes "term") (pos 9) child_of_owner ≡ some 1
unfolding select_owned select_from classify_ownership text_eq
selected = refl

select_owned_best_example :
    ((select_owned windows (codes "term") (pos 9) child_of_owner ≡ none)
      × NoneMatches (codes "term") (pos 9) child_of_owner windows)
    ⊎ ((k t : ℕ) × (select_owned windows (codes "term") (pos 9) child_of_owner ≡ some k)
        × FirstBest (codes "term") (pos 9) child_of_owner windows k t)
select_owned_best_example = select_owned_best (codes "term") (pos 9) child_of_owner windows

abbrev fresh_guard : FocusGuard
fresh_guard = record {
  hide_on_focus_loss = true;
  grace_ms = pos 150;
  ancestry = child_of_owner;
  slot_pid = negsuc 0;
  slot_address = [];
  has_shown = false;
  last_shown = pos 0;
}

retract_session_example :
    let s =
      note_shown
        (set_slot
          (configure fresh_guard true (pos 150) child_of_owner)
          (pos 9)
          (b'0' ∷ b'x' ∷ codes "55CE"))
        (pos 0) in
    (should_retract s (pos 200_000_000) (codes "77aa") (negsuc 0) ≡ true) ↔ (
      (true ≡ true)
      × (normalize_address (codes "77aa") ≢ map to_lower (codes "55CE"))
      × (pos 150 *ℤ pos 1_000_000 ≤ℤ pos 200_000_000 -ℤ pos 0)
      × ((negsuc 0 <ℤ pos 0) ⊎ ((pos 9 <ℤ pos 0) ⊎ (child_of_owner (negsuc 0) (pos 9) ≡ false))))
retract_session_example =
    retract_session fresh_guard true 150 child_of_owner (pos 9) (pos 0) (pos 200_000_000) (negsuc 0)
      (codes "55CE") (codes "77aa") (omega arith)

abbrev two_procs : ℤ → Option Text
two_procs (pos p) = some (codes "7 (a) b) S 5 7 7")
two_procs (negsuc p) = none

is_descendant_process_iff_example :
    (is_descendant_process two_procs (pos 7) (pos 5) ≡ true)
    ↔ ((n : ℕ) × (n ≤ 64) × IsAncestor (parent_of two_procs) n (pos 7) (pos 5))
is_descendant_process_iff_example = is_descendant_process_iff two_procs (pos 7) (pos 5)

-- ===== src/Tests/Launcher.antt =====
-- The launcher's search at concrete inputs.
use waylaunch.Prelude.{ℕ, ◌≡◌, refl, Bool, true, false, some, List, [], ◌∷◌, ◌++◌, arith}
use waylaunch.Prelude.Tests.{ltb}
use waylaunch.Prelude.Int.{pos, ◌+ℤ◌, ◌-ℤ◌, ◌/ℤ◌, max_ℤ}
use waylaunch.Prelude.Text.{Text, codes}
use waylaunch.Keys.{Keysym}
use waylaunch.Launcher.Items.{
  ItemKind, ListItem, spotlight, Coordinate, hit_test, relayout, RowSlot, place_section,
  place_sections, category, past, row_hit, in_row,
}
use waylaunch.Launcher.Editor.{Field}
use waylaunch.Launcher.Typing.{Edit, edit_fields, edit_lines, field_of, edit_fields-field_of}
use waylaunch.Launcher.Providers.{ResultProvider}
use waylaunch.Launcher.Search.{Setup, Launcher, combine, update_search}
use waylaunch.Launcher.Input.{Event, Wheel, handle_all}
use waylaunch.Launcher.Clicks.{hit_test-relayout}
use waylaunch.Launcher.Invariant.{IsCurrent}
use waylaunch.Launcher.Events.{session-IsCurrent}
use waylaunch.Launcher.Worker.{Worker, System, Later, Reach, retyped}
use waylaunch.Launcher.Delivery.{AreResults, shown_current}
use waylaunch.Launcher.Liveness.{IsShown, IsIdle, results_arrive, results_lost}
use waylaunch.Launcher.TopHit.{IsAbove, IsSplit, combine_best}

abbrev item : Text → ItemKind → ℕ → ListItem ℕ
item name kind score = record {
  name = name;
  path = name;
  description = [];
  icon_name = [];
  action_command = [];
  reveal_path = [];
  snippet = [];
  kind = kind;
  score = score;
}

abbrev firefox : ListItem ℕ
firefox = item (codes "Firefox") ItemKind.application 993

abbrev notes : ListItem ℕ
notes = item (codes "notes.txt") ItemKind.file 1004

abbrev match_in_file : ListItem ℕ
match_in_file = item (codes "todo.md") ItemKind.content 3

abbrev applications : ResultProvider ℕ
applications = record {
  is_available = true;
  is_async = false;
  query = λ q. firefox ∷ [];
  activate = λ it. true;
}

abbrev files : ResultProvider ℕ
files = record {
  is_available = true;
  is_async = true;
  query = λ q. notes ∷ match_in_file ∷ [];
  activate = λ it. true;
}

abbrev higher : ℕ → ℕ → Bool
higher a b = ltb b a

abbrev setup : Setup ℕ
setup = record {
  layout = spotlight;
  max_recent = 6;
  providers = applications ∷ files ∷ [];
  history_enabled = false;
  async_enabled = true;
  max_file_results = pos 6;
  above = higher;
  recent_score = λ i. i;
}

abbrev fresh : Launcher ℕ
fresh = record {
  field = record { query = codes "fi"; cursor_pos = 2 };
  selected_index = pos 0;
  items = [];
  app_items = [];
  file_items = [];
  content_items = [];
  slots = record { rows = []; headers = []; bottom = pos 64 };
  shared = record {
    file_pending_query = [];
    file_has_pending = false;
    file_gen = 0;
    file_ready = [];
    content_ready = [];
    file_ready_gen = 0;
  };
  history = record { path = []; max_entries = 1; max_age_days = 1; entries = [] };
  activated = [];
  running = true;
}

abbrev at_rest : System ℕ
at_rest = record { ui = fresh; worker = Worker.waiting; signals = 0 }

abbrev field_n : Field
field_n = record { query = codes "n"; cursor_pos = 1 }

abbrev field_no : Field
field_no = record { query = codes "no"; cursor_pos = 2 }

higher-IsAbove : IsAbove higher
higher-IsAbove = record { asym = λ x y h. ground arith; above_not = λ x y z h k. ground arith }

edit_fields-field_of_example :
    edit_fields
      (Edit.type_one 233 ∷ Edit.go_left ∷ Edit.erase_behind ∷ [])
      (field_of (record { before = 98 ∷ 97 ∷ []; behind = [] }))
    ≡ field_of (
        edit_lines
          (Edit.type_one 233 ∷ Edit.go_left ∷ Edit.erase_behind ∷ [])
          (record { before = 98 ∷ 97 ∷ []; behind = [] }))
edit_fields-field_of_example =
    edit_fields-field_of (Edit.type_one 233 ∷ Edit.go_left ∷ Edit.erase_behind ∷ [])
      (record { before = 98 ∷ 97 ∷ []; behind = [] }) (omega arith, (tt, (tt, tt)))
      ((omega arith, (omega arith, tt)), tt)

abbrev two_items : List (ListItem ℕ)
two_items = firefox ∷ notes ∷ []

abbrev point_x : Coordinate
point_x = record { floor = pos 700; whole = true }

abbrev point_y : Coordinate
point_y = record { floor = pos 345; whole = false }

-- The row of the second item.
abbrev second_row : RowSlot
second_row = record { item_index = 1; y = pos 182; hero = false }

hit_test-relayout_example :
    hit_test spotlight (pos 1920) point_x point_y (relayout spotlight [] two_items) ≡ some 1
unfolding ◌+ℤ◌ ◌-ℤ◌ ◌/ℤ◌ max_ℤ relayout place_sections place_section category past in_row
hit_test-relayout_example =
    hit_test-relayout spotlight [] two_items (pos 1920) point_x point_y 1 second_row
      (omega arith, omega arith, omega arith, omega arith) refl (omega arith) refl refl refl

second_hit :
    hit_test spotlight (pos 1920) point_x point_y (relayout spotlight [] two_items) ≡ some 1
unfolding ◌+ℤ◌ ◌-ℤ◌ ◌/ℤ◌ max_ℤ relayout place_sections place_section category past in_row hit_test
    row_hit
second_hit = refl

session-IsCurrent_example : IsCurrent setup (
    handle_all setup
      (λ p. true)
      ((pos 1, Event.key false [] Keysym.down 0)
        ∷ (pos 2, Event.results)
        ∷ (pos 3, Event.axis Wheel.down)
        ∷ [])
      (update_search setup fresh))
session-IsCurrent_example =
    session-IsCurrent setup (λ p. true)
      ((pos 1, Event.key false [] Keysym.down 0)
        ∷ (pos 2, Event.results)
        ∷ (pos 3, Event.axis Wheel.down)
        ∷ [])
      fresh

shown_current_example :
    AreResults setup
      (retyped setup field_n at_rest).ui.field.query
      (retyped setup field_n at_rest).ui.file_items
      (retyped setup field_n at_rest).ui.content_items
shown_current_example =
    shown_current setup 1 (retyped setup field_n at_rest) (omega arith)
      (Reach.typing field_n (Reach.start at_rest (refl, refl, refl, refl, refl, refl, refl, refl)))

results_arrive_example :
    (t : System ℕ) × Later setup (retyped setup field_n at_rest) t
    × IsShown setup field_n.query t
    × IsIdle setup t
results_arrive_example = results_arrive setup field_n at_rest refl

results_lost_example :
    (t u : System ℕ) × Later setup (retyped setup field_n at_rest) t
    × Later setup (retyped setup field_no t) u
    × (u.ui.field.query ≡ field_no.query)
    × (u.ui.file_items ≡ [])
    × (u.ui.content_items ≡ [])
    × (u.signals ≡ 0)
    × IsIdle setup u
results_lost_example = results_lost setup field_n field_no at_rest refl (refl, refl)

combine_best_example :
    (pre post : List (ListItem ℕ)) × (best : ListItem ℕ) × IsSplit higher
      (firefox ∷ notes ∷ [])
      pre
      best
      post
    × (combine higher (firefox ∷ notes ∷ []) (match_in_file ∷ [])
        ≡ best ∷ ((pre ++ post) ++ (match_in_file ∷ [])))
combine_best_example = combine_best higher firefox (notes ∷ []) (match_in_file ∷ []) higher-IsAbove

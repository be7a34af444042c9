-- ===== src/Tests/Switcher.antt =====
-- The application switcher at concrete inputs.
use waylaunch.Prelude.{ℕ, ◌+◌, ◌≤◌, ◌≡◌, refl, Bool, true, false, List, [], ◌∷◌, map, arith}
use waylaunch.Prelude.Text.{Text, codes, text_eq}
use waylaunch.Switcher.StateMachine.{SwitcherState, is_active}
use waylaunch.Switcher.Groups.{
  ToplevelWindow, AppGroup, is_any_active, collect, add_window, push_window, open_group, new_group,
  time_of, key_of, display_name_of, tick, promote_active, promote, has_active, any_active, sort_mru,
  insert_group,
}
use waylaunch.Switcher.Manager
use waylaunch.Switcher.Manager.{
  SwitcherManager, Request, rebuild_groups, show, regroup, clamp_selection, notify_change,
}
use waylaunch.Switcher.Controller.{SwitcherController, holding_mod}
use waylaunch.Switcher.Counting.{count_groups, rebuild_groups-count}
use waylaunch.Switcher.Sorting.{Below, IsMru, ActiveFirst}
use waylaunch.Switcher.FocusTimes.{AllTimed}
use waylaunch.Switcher.Order.{rebuild_groups-IsMru, rebuild_groups_active}
use waylaunch.Switcher.Confirmation.{reports, hold_then_release}

abbrev window : ℕ → Text → Bool → ToplevelWindow
window handle app_id active = record {
  handle_id = handle;
  app_id = app_id;
  title = codes "title";
  icon_name = [];
  is_active = active;
  is_minimized = false;
  is_maximized = false;
  is_fullscreen = false;
}

abbrev desktop : List ToplevelWindow
desktop =
    window 1 (codes "kitty") false
    ∷ window 2 (codes "firefox") true
    ∷ window 3 (codes "kitty") false
    ∷ window 4 [] false
    ∷ []

abbrev idle : SwitcherManager
idle = record {
  groups = [];
  selected_index = 7;
  visible = false;
  group_by_app = true;
  clock_counter = 0;
  redraws = 0;
  requests = [];
}

abbrev no_icon : Text → Text
no_icon app_id = app_id

abbrev opened : SwitcherController
opened = record {
  manager = show no_icon desktop idle;
  state = SwitcherState.active_holding_mod;
  active_modifier_mask = 0;
  mod_was_held = false;
}

-- The active application stands first, and the one before it is selected.
order_of_groups :
    map (λ g. g.app_id) (show no_icon desktop idle).groups
    ≡ codes "firefox" ∷ codes "unknown" ∷ codes "kitty" ∷ []
unfolding show rebuild_groups regroup clamp_selection collect add_window push_window open_group
    new_group time_of key_of display_name_of tick promote_active promote has_active is_any_active
    any_active sort_mru insert_group notify_change text_eq
order_of_groups = refl

rebuild_groups-count_example :
    count_groups (λ w. w.is_active) (rebuild_groups no_icon desktop idle).groups ≡ 1
rebuild_groups-count_example = rebuild_groups-count (λ w. w.is_active) no_icon desktop idle

-- After a rebuild, kitty is active in place of firefox, and a new application is there.
abbrev changed : List ToplevelWindow
changed =
    window 1 (codes "kitty") true
    ∷ window 2 (codes "firefox") false
    ∷ window 5 (codes "gimp") false
    ∷ []

abbrev group_at : Text → ℕ → AppGroup
group_at app_id time = record {
  app_id = app_id;
  display_name = app_id;
  icon_name = app_id;
  windows = [];
  last_focused_time = time;
}

abbrev used : SwitcherManager
used = record idle {
  groups = group_at (codes "firefox") 7 ∷ group_at (codes "kitty") 3 ∷ [];
  clock_counter = 7;
}

-- Firefox keeps its 7, gimp is new and the active kitty is promoted.
times_of_groups :
    map (λ g. g.last_focused_time) (rebuild_groups no_icon changed used).groups ≡ 9 ∷ 8 ∷ 7 ∷ []
unfolding rebuild_groups regroup clamp_selection collect add_window push_window open_group new_group
    time_of key_of display_name_of tick promote_active promote has_active is_any_active any_active
    sort_mru insert_group notify_change text_eq
times_of_groups = refl

rebuild_groups-IsMru_example :
    IsMru (rebuild_groups no_icon changed used).groups
    × Below
        (rebuild_groups no_icon changed used).clock_counter
        (rebuild_groups no_icon changed used).groups
    × ((rebuild_groups no_icon changed used).clock_counter ≤ 7 + 3 + 1)
    × AllTimed used.groups 7
        (rebuild_groups no_icon changed used).clock_counter
        (rebuild_groups no_icon changed used).groups
rebuild_groups-IsMru_example =
    rebuild_groups-IsMru no_icon changed used (omega arith, (omega arith, tt)) (omega arith)

rebuild_groups_active_example :
    ActiveFirst
      (rebuild_groups no_icon desktop idle).clock_counter
      (rebuild_groups no_icon desktop idle).groups
rebuild_groups_active_example =
    rebuild_groups_active no_icon desktop idle tt (omega arith) (omega arith)

hold_then_release_example :
    ((reports opened (0 ∷ 64 ∷ 65 ∷ 1 ∷ [])).manager ≡ Manager.confirm_selection opened.manager)
    × ((reports opened (0 ∷ 64 ∷ 65 ∷ 1 ∷ [])).state ≡ SwitcherState.hidden)
unfolding holding_mod is_active
hold_then_release_example =
    hold_then_release opened (0 ∷ []) 64 (65 ∷ []) 1 refl refl (refl, tt) (refl, (refl, tt)) refl

-- ===== src/Switcher/Manager.antt =====
-- AppSwitcherManager: src/switcher/app_switcher_manager.cpp and its header, over a backend that
-- is there. `windows` is what the backend lists when the operation asks, `requests` what the
-- manager has asked of it, the latest last, and `redraws` counts the calls of the change
-- callback. A backend answers a request by a later call of an observer operation.
use waylaunch.Prelude.{
  ℕ, ◌+◌, ◌-◌, ◌%◌, Bool, true, false, not, ◌&&◌, Option, none, some, List, [], ◌∷◌, ◌++◌,
}
use waylaunch.Prelude.Tests.{ltb, leb, ◌==◌, if◌then◌else◌}
use waylaunch.Prelude.Lists.{length, get_elem?, is_empty}
use waylaunch.Prelude.Text.{Text}
use waylaunch.Switcher.Groups.{
  ToplevelWindow, AppGroup, Building, collect, promote_active, sort_mru, touch, tick,
  primary_handle, is_all_minimized,
}

pub data Request : Type 0 where
  activate close : ℕ → Request
  set_minimized : ℕ → Bool → Request

pub record SwitcherManager : Type 0 where
  pub groups : List AppGroup
  pub selected_index : ℕ
  pub visible : Bool
  pub group_by_app : Bool
  pub clock_counter : ℕ
  pub redraws : ℕ
  pub requests : List Request

unfoldable pub notify_change : SwitcherManager → SwitcherManager
notify_change m = record m { redraws = m.redraws + 1 }

unfoldable pub clamp_selection : SwitcherManager → SwitcherManager
clamp_selection m =
    if leb (length m.groups) m.selected_index && not (is_empty m.groups)
    then record m { selected_index = length m.groups - 1 }
    else m

unfoldable pub selected_group : SwitcherManager → Option AppGroup
selected_group m = get_elem? m.groups m.selected_index

unfoldable pub touch_active_group : Text → SwitcherManager → SwitcherManager
touch_active_group app_id m =
    if is_empty app_id then m else elim (touch app_id (tick m.clock_counter) m.groups) [
      | none ↦ record m { groups = sort_mru m.groups }
      | some gs ↦ record m { groups = sort_mru gs; clock_counter = tick m.clock_counter }
    ]

module _ (resolve : Text → Text) where
  -- The groups of the listed windows, given those that the manager has.
  unfoldable pub regroup : SwitcherManager → List ToplevelWindow → Building
  regroup m ws =
      promote_active (
        collect resolve m.group_by_app m.groups ws
          (record { groups = []; clock = m.clock_counter }))

  unfoldable pub rebuild_groups : List ToplevelWindow → SwitcherManager → SwitcherManager
  unfolding regroup clamp_selection
  rebuild_groups ws m =
      let b = regroup m ws in
      clamp_selection (record m { groups = sort_mru b.groups; clock_counter = b.clock })

  unfoldable pub init : List ToplevelWindow → SwitcherManager
  unfolding rebuild_groups
  init ws = rebuild_groups ws (record {
    groups = [];
    selected_index = 0;
    visible = false;
    group_by_app = true;
    clock_counter = 0;
    redraws = 0;
    requests = [];
  })

  unfoldable pub set_group_by_app : List ToplevelWindow → Bool → SwitcherManager → SwitcherManager
  unfolding rebuild_groups
  set_group_by_app ws v m = rebuild_groups ws (record m { group_by_app = v })

  -- on_window_created and on_window_updated, which have the same body.
  unfoldable pub on_window_updated :
      List ToplevelWindow → ToplevelWindow → SwitcherManager → SwitcherManager
  unfolding rebuild_groups touch_active_group notify_change
  on_window_updated ws w m =
      let rebuilt = rebuild_groups ws m in
      notify_change (if w.is_active then touch_active_group w.app_id rebuilt else rebuilt)

  unfoldable pub on_window_closed : List ToplevelWindow → SwitcherManager → SwitcherManager
  unfolding rebuild_groups notify_change
  on_window_closed ws m = notify_change (rebuild_groups ws m)

  unfoldable pub show : List ToplevelWindow → SwitcherManager → SwitcherManager
  unfolding rebuild_groups notify_change
  show ws m =
      let rebuilt = rebuild_groups ws m in
      notify_change (record rebuilt {
        visible = true;
        selected_index = if ltb 1 (length rebuilt.groups) then 1 else 0;
      })

unfoldable pub hide : SwitcherManager → SwitcherManager
unfolding notify_change
hide m = notify_change (record m { visible = false })

unfoldable pub navigate_next : SwitcherManager → SwitcherManager
unfolding notify_change
navigate_next m =
    if is_empty m.groups
    then m
    else notify_change (record m { selected_index = (m.selected_index + 1) % length m.groups })

unfoldable pub navigate_prev : SwitcherManager → SwitcherManager
unfolding notify_change
navigate_prev m =
    if is_empty m.groups
    then m
    else notify_change
        (record m { selected_index = (m.selected_index + length m.groups - 1) % length m.groups })

unfoldable pub jump_to : SwitcherManager → ℕ → SwitcherManager
unfolding notify_change
jump_to m index =
    if ltb index (length m.groups) then notify_change (record m { selected_index = index }) else m

unfoldable pub close_all : List ToplevelWindow → List Request
close_all [] = []
close_all (w ∷ ws) = Request.close w.handle_id ∷ close_all ws

unfoldable pub minimize_all : Bool → List ToplevelWindow → List Request
minimize_all v [] = []
minimize_all v (w ∷ ws) = Request.set_minimized w.handle_id v ∷ minimize_all v ws

unfoldable pub quit_selected : SwitcherManager → SwitcherManager
unfolding selected_group
quit_selected m = elim (selected_group m) [
  | none ↦ m
  | some g ↦ record m { requests = m.requests ++ close_all g.windows }
]

unfoldable pub toggle_minimize_selected : SwitcherManager → SwitcherManager
unfolding selected_group
toggle_minimize_selected m = elim (selected_group m) [
  | none ↦ m
  | some g ↦ record m { requests = m.requests ++ minimize_all (not (is_all_minimized g)) g.windows }
]

abbrev activate_primary : AppGroup → SwitcherManager → SwitcherManager
activate_primary g m =
    if primary_handle g == 0
    then m
    else record m { requests = m.requests ++ Request.activate (primary_handle g) ∷ [] }

unfoldable pub confirm_selection : SwitcherManager → SwitcherManager
unfolding selected_group hide
confirm_selection m = hide (elim (selected_group m) [ none ↦ m | some g ↦ activate_primary g m ])

unfoldable pub cancel : SwitcherManager → SwitcherManager
unfolding hide
cancel m = hide m

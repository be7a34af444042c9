-- ===== src/Switcher/Groups.antt =====
-- ToplevelWindow (include/waylaunch/switcher/toplevel_backend.h), AppGroup
-- (include/waylaunch/switcher/app_group.h) and the grouping loop of
-- AppSwitcherManager::rebuild_groups. `resolve` is resolve_icon_name, which reads desktop files.
use waylaunch.Prelude.{
  ℕ, ◌+◌, ◌%◌, Bool, true, false, not, ◌&&◌, Option, none, some, List, [], ◌∷◌, ◌++◌,
}
use waylaunch.Prelude.Tests.{leb, if◌then◌else◌}
use waylaunch.Prelude.Lists.{is_empty}
use waylaunch.Prelude.Text.{Text, codes, text_eq}
use waylaunch.Prelude.Decimal.{show_ℕ}

pub record ToplevelWindow : Type 0 where
  pub handle_id : ℕ
  pub app_id : Text
  pub title : Text
  pub icon_name : Text
  pub is_active : Bool
  pub is_minimized : Bool
  pub is_maximized : Bool
  pub is_fullscreen : Bool

pub record AppGroup : Type 0 where
  pub app_id : Text
  pub display_name : Text
  pub icon_name : Text
  pub windows : List ToplevelWindow
  pub last_focused_time : ℕ

-- `std::ranges::all_of` over the windows.
unfoldable pub all_minimized : List ToplevelWindow → Bool
all_minimized [] = true
all_minimized (w ∷ ws) = w.is_minimized && all_minimized ws

unfoldable pub is_all_minimized : AppGroup → Bool
is_all_minimized g = if is_empty g.windows then false else all_minimized g.windows

-- `std::ranges::any_of` over the windows.
unfoldable pub any_active : List ToplevelWindow → Bool
any_active [] = false
any_active (w ∷ ws) = if w.is_active then true else any_active ws

unfoldable pub is_any_active : AppGroup → Bool
is_any_active g = any_active g.windows

-- The first handle that a loop of primary_handle returns, or `otherwise` after the loop.
unfoldable pub first_active : List ToplevelWindow → ℕ → ℕ
first_active [] otherwise = otherwise
first_active (w ∷ ws) otherwise = if w.is_active then w.handle_id else first_active ws otherwise

unfoldable pub first_shown : List ToplevelWindow → ℕ → ℕ
first_shown [] otherwise = otherwise
first_shown (w ∷ ws) otherwise =
    if not w.is_minimized then w.handle_id else first_shown ws otherwise

unfoldable pub primary_handle : AppGroup → ℕ
primary_handle g = elim g.windows [
  | [] ↦ 0
  | w ∷ ws ↦ first_active g.windows (first_shown g.windows w.handle_id)
]

-- `++clock_counter_` on a uint64_t.
unfoldable pub tick : ℕ → ℕ
tick clock = (clock + 1) % 18_446_744_073_709_551_616

unfoldable pub key_of : Bool → ToplevelWindow → Text
key_of group_by_app w =
    if not group_by_app
    then 1 ∷ codes "w:" ++ show_ℕ w.handle_id
    else if not (is_empty w.app_id)
    then w.app_id
    else codes "unknown"

unfoldable pub display_name_of : Bool → Text → ToplevelWindow → Text
display_name_of group_by_app key w =
    if group_by_app
    then key
    else if not (is_empty w.title)
    then w.title
    else if not (is_empty w.app_id)
    then w.app_id
    else codes "window"

-- `std::ranges::find_if` for a key, and the time of what it finds.
unfoldable pub time_of : Text → List AppGroup → Option ℕ
time_of key [] = none
time_of key (g ∷ gs) = if text_eq g.app_id key then some g.last_focused_time else time_of key gs

abbrev pub before : AppGroup → Option (List AppGroup) → Option (List AppGroup)
before g none = none
before g (some gs) = some (g ∷ gs)

-- The window joins the first group with its key, where there is one.
unfoldable pub push_window : Text → ToplevelWindow → List AppGroup → Option (List AppGroup)
push_window key w [] = none
push_window key w (g ∷ gs) =
    if text_eq g.app_id key
    then some (record g { windows = g.windows ++ w ∷ [] } ∷ gs)
    else before g (push_window key w gs)

unfoldable pub new_group : (Text → Text) → Bool → ToplevelWindow → ℕ → AppGroup
new_group resolve group_by_app w time = record {
  app_id = key_of group_by_app w;
  display_name = display_name_of group_by_app (key_of group_by_app w) w;
  icon_name = if is_empty w.icon_name then resolve w.app_id else w.icon_name;
  windows = w ∷ [];
  last_focused_time = time;
}

-- The groups built so far, and the clock.
pub record Building : Type 0 where
  pub groups : List AppGroup
  pub clock : ℕ

-- A group that `groups_` had keeps its time; another one gets the next of the clock.
unfoldable pub open_group :
    (Text → Text) → Bool → List AppGroup → ToplevelWindow → Building → Building
open_group resolve group_by_app old w b = elim (time_of (key_of group_by_app w) old) [
  | some t ↦ record {
    groups = b.groups ++ new_group resolve group_by_app w t ∷ [];
    clock = b.clock;
  }
  | none ↦ record {
    groups = b.groups ++ new_group resolve group_by_app w (tick b.clock) ∷ [];
    clock = tick b.clock;
  }
]

unfoldable pub add_window :
    (Text → Text) → Bool → List AppGroup → ToplevelWindow → Building → Building
add_window resolve group_by_app old w b = elim (push_window (key_of group_by_app w) w b.groups) [
  | some gs ↦ record b { groups = gs }
  | none ↦ open_group resolve group_by_app old w b
]

unfoldable pub collect :
    (Text → Text) → Bool → List AppGroup → List ToplevelWindow → Building → Building
collect resolve group_by_app old [] b = b
collect resolve group_by_app old (w ∷ ws) b =
    collect resolve group_by_app old ws (add_window resolve group_by_app old w b)

-- The first group with an active window gets the time `now`.
unfoldable pub promote : ℕ → List AppGroup → List AppGroup
promote now [] = []
promote now (g ∷ gs) =
    if is_any_active g then record g { last_focused_time = now } ∷ gs else g ∷ promote now gs

unfoldable pub has_active : List AppGroup → Bool
has_active [] = false
has_active (g ∷ gs) = if is_any_active g then true else has_active gs

unfoldable pub promote_active : Building → Building
promote_active b =
    if has_active b.groups
    then record { groups = promote (tick b.clock) b.groups; clock = tick b.clock }
    else b

-- `std::ranges::sort` by time, the highest first; the times that the clock gives are distinct.
unfoldable pub insert_group : AppGroup → List AppGroup → List AppGroup
insert_group g [] = g ∷ []
insert_group g (h ∷ hs) =
    if leb h.last_focused_time g.last_focused_time then g ∷ h ∷ hs else h ∷ insert_group g hs

unfoldable pub sort_mru : List AppGroup → List AppGroup
sort_mru [] = []
sort_mru (g ∷ gs) = insert_group g (sort_mru gs)

-- The loop of touch_active_group over the groups; `none` where no group has that key.
unfoldable pub touch : Text → ℕ → List AppGroup → Option (List AppGroup)
touch key now [] = none
touch key now (g ∷ gs) =
    if text_eq g.app_id key
    then some (record g { last_focused_time = now } ∷ gs)
    else before g (touch key now gs)

-- ===== src/Switcher/Bounds.antt =====
-- The selection of the application switcher and its groups.
use waylaunch.Prelude.{
  ℕ, suc, ◌<◌, ◌≤◌, ◌≡◌, refl, ◌∙◌, ap, ◌⊎◌, true, false, List, [], ◌∷◌, inl, inr, arith,
}
use waylaunch.Prelude.Tests.{ltb, if◌then◌else◌, Bool-cases}
use waylaunch.Prelude.Lists.{length, is_empty}
use waylaunch.Prelude.Text.{Text}
use waylaunch.Prelude.Cyclic.{prev_next, next_prev}
use waylaunch.Switcher.Groups.{AppGroup, Building, ToplevelWindow, insert_group, sort_mru}
use waylaunch.Switcher.Counting.{groups-clamp}
use waylaunch.Switcher.Manager.{
  SwitcherManager, notify_change, rebuild_groups, clamp_selection, regroup, show, navigate_next,
  navigate_prev,
}

-- The selection is an index of the groups, unless there is none.
abbrev pub InRange : SwitcherManager → Type 0
InRange m = (m.selected_index < length m.groups) ⊎ (m.groups ≡ [])

length-insert_group :
    (g : AppGroup) (gs : List AppGroup) → length (insert_group g gs) ≡ suc (length gs)
unfolding insert_group
length-insert_group g [] = refl
length-insert_group g (h ∷ hs) = ground (arith, length-insert_group g hs)

length-sort_mru : (gs : List AppGroup) → length (sort_mru gs) ≡ length gs
unfolding sort_mru
length-sort_mru [] = refl
length-sort_mru (g ∷ gs) = length-insert_group g (sort_mru gs) ∙ ap suc (length-sort_mru gs)

empty_nil : (gs : List AppGroup) → is_empty gs ≡ true → gs ≡ []
empty_nil [] e = refl
empty_nil (g ∷ gs) e = cc

some_group : (gs : List AppGroup) → is_empty gs ≡ false → 0 < length gs
some_group [] e = cc
some_group (g ∷ gs) e = omega arith

clamp_selection-InRange : (m : SwitcherManager) → InRange (clamp_selection m)
unfolding clamp_selection
clamp_selection-InRange m = elim (Bool-cases (is_empty m.groups)) [
  | inl e ↦ inr (groups-clamp m ∙ empty_nil m.groups e)
  | inr e ↦ grind (arith, some_group m.groups e)
]

rebuild_groups-InRange :
    (resolve : Text → Text) (ws : List ToplevelWindow) (m : SwitcherManager)
    → InRange (rebuild_groups resolve ws m)
unfolding rebuild_groups
rebuild_groups-InRange resolve ws m =
    let b : Building = regroup resolve m ws in
    clamp_selection-InRange (record m { groups = sort_mru b.groups; clock_counter = b.clock })

first_groups :
    (gs : List AppGroup) (i : ℕ)
    → i ≡ (if ltb 1 (length gs) then 1 else 0)
    → ((i < length gs) ⊎ (gs ≡ [])) × (((length gs ≤ 1) × (i ≡ 0)) ⊎ ((1 < length gs) × (i ≡ 1)))
first_groups [] i h = grind arith
first_groups (g ∷ gs) i h = grind arith

-- Whatever the selection was, rebuilding and showing leave it an index of the groups, or leave no
-- group; showing selects the second group where there is one, and the first otherwise.
pub show-InRange :
    (resolve : Text → Text) (ws : List ToplevelWindow) (m : SwitcherManager)
    → let shown = show resolve ws m in
      InRange (rebuild_groups resolve ws m)
      × InRange shown
      × (((length shown.groups ≤ 1) × (shown.selected_index ≡ 0))
          ⊎ ((1 < length shown.groups) × (shown.selected_index ≡ 1)))
unfolding show notify_change
show-InRange resolve ws m =
    let r : SwitcherManager = rebuild_groups resolve ws m in
    let (a, b) = first_groups r.groups (if ltb 1 (length r.groups) then 1 else 0) refl in
    (rebuild_groups-InRange resolve ws m, a, b)

-- Moving on and back, or back and on, ends at the selection it started from.
pub switcher_inverse :
    (m : SwitcherManager)
    → m.selected_index < length m.groups
    → ((navigate_prev (navigate_next m)).selected_index ≡ m.selected_index)
      × ((navigate_next (navigate_prev m)).selected_index ≡ m.selected_index)
unfolding navigate_next navigate_prev
switcher_inverse m h = ground (
  arith,
  prev_next m.selected_index (length m.groups) h,
  next_prev m.selected_index (length m.groups) h,
)

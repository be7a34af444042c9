-- ===== src/Switcher/Counting.antt =====
-- How many windows of a kind the groups of the application switcher hold.
use waylaunch.Prelude.{
  ℕ, ◌+◌, ◌≡◌, refl, ap, ◌∙◌, Bool, Option, none, some, List, [], ◌∷◌, ◌++◌, inl, inr, arith,
}
use waylaunch.Prelude.Tests.{if◌then◌else◌, Bool-cases, Option-cases}
use waylaunch.Prelude.Text.{Text}
use waylaunch.Switcher.Groups.{
  ToplevelWindow, AppGroup, Building, push_window, before, tick, open_group, add_window, collect,
  key_of, new_group, time_of, promote, promote_active, has_active, insert_group, sort_mru,
}
use waylaunch.Switcher.Manager.{SwitcherManager, rebuild_groups, regroup, clamp_selection}

pub groups-clamp : (m : SwitcherManager) → (clamp_selection m).groups ≡ m.groups
unfolding clamp_selection
groups-clamp m = grind arith

pub clock-clamp : (m : SwitcherManager) → (clamp_selection m).clock_counter ≡ m.clock_counter
unfolding clamp_selection
clock-clamp m = grind arith

module _ (p : ToplevelWindow → Bool) where
  abbrev pub one : ToplevelWindow → ℕ
  one w = if p w then 1 else 0

  abbrev pub count : List ToplevelWindow → ℕ
  count [] = 0
  count (w ∷ ws) = one w + count ws

  abbrev pub count_groups : List AppGroup → ℕ
  count_groups [] = 0
  count_groups (g ∷ gs) = count g.windows + count_groups gs

  count-append : (xs ys : List ToplevelWindow) → count (xs ++ ys) ≡ count xs + count ys
  count-append [] ys = omega arith
  count-append (x ∷ xs) ys = omega (arith, count-append xs ys)

  count_groups-append :
      (xs ys : List AppGroup) → count_groups (xs ++ ys) ≡ count_groups xs + count_groups ys
  count_groups-append [] ys = omega arith
  count_groups-append (x ∷ xs) ys = omega (arith, count_groups-append xs ys)

  -- The windows of the groups, or a number where there are none.
  abbrev total : Option (List AppGroup) → ℕ → ℕ
  total none d = d
  total (some gs) d = count_groups gs

  total-before :
      (g : AppGroup) (o : Option (List AppGroup)) (d : ℕ)
      → total (before g o) (count g.windows + d) ≡ count g.windows + total o d
  total-before g none d = refl
  total-before g (some gs) d = refl

  total-push_window :
      (key : Text) (w : ToplevelWindow) (gs : List AppGroup)
      → total (push_window key w gs) (count_groups gs + one w) ≡ count_groups gs + one w
  unfolding push_window
  total-push_window key w [] = refl
  total-push_window key w (g ∷ gs) = ground (
    arith,
    count-append g.windows (w ∷ []),
    total-before g (push_window key w gs) (count_groups gs + one w),
    total-push_window key w gs,
  )

  count-open_group :
      (resolve : Text → Text) (by_app : Bool) (old : List AppGroup) (w : ToplevelWindow)
      (b : Building)
      → count_groups (open_group resolve by_app old w b).groups ≡ count_groups b.groups + one w
  unfolding open_group new_group
  count-open_group resolve by_app old w b = elim (Option-cases (time_of (key_of by_app w) old)) [
    | inl e ↦
        rw (e, count_groups)
          (omega
            (arith, count_groups-append b.groups (new_group resolve by_app w (tick b.clock) ∷ [])))
    | inr (t, e) ↦
        rw (e, count_groups)
          (omega (arith, count_groups-append b.groups (new_group resolve by_app w t ∷ [])))
  ]

  count-add_window :
      (resolve : Text → Text) (by_app : Bool) (old : List AppGroup) (w : ToplevelWindow)
      (b : Building)
      → count_groups (add_window resolve by_app old w b).groups ≡ count_groups b.groups + one w
  unfolding add_window
  count-add_window resolve by_app old w b =
      elim (Option-cases (push_window (key_of by_app w) w b.groups)) [
        | inl e ↦ rw (e, count_groups) (count-open_group resolve by_app old w b)
        | inr (hs, e) ↦
            rw (e, count_groups) (rw e at (total-push_window (key_of by_app w) w b.groups))
      ]

  pub count-collect :
      (resolve : Text → Text) (by_app : Bool) (old : List AppGroup) (ws : List ToplevelWindow)
      (b : Building)
      → count_groups (collect resolve by_app old ws b).groups ≡ count_groups b.groups + count ws
  unfolding collect
  count-collect resolve by_app old [] b = omega arith
  count-collect resolve by_app old (w ∷ ws) b = omega (
    arith,
    count-collect resolve by_app old ws (add_window resolve by_app old w b),
    count-add_window resolve by_app old w b,
  )

  count-promote : (now : ℕ) (gs : List AppGroup) → count_groups (promote now gs) ≡ count_groups gs
  unfolding promote
  count-promote now [] = refl
  count-promote now (g ∷ gs) = ground (arith, count-promote now gs)

  count-insert_group :
      (g : AppGroup) (gs : List AppGroup)
      → count_groups (insert_group g gs) ≡ count g.windows + count_groups gs
  unfolding insert_group
  count-insert_group g [] = refl
  count-insert_group g (h ∷ hs) = ground (arith, count-insert_group g hs)

  pub count-sort_mru : (gs : List AppGroup) → count_groups (sort_mru gs) ≡ count_groups gs
  unfolding sort_mru
  count-sort_mru [] = refl
  count-sort_mru (g ∷ gs) = omega (arith, count-insert_group g (sort_mru gs), count-sort_mru gs)

  count-promote_active :
      (b : Building) → count_groups (promote_active b).groups ≡ count_groups b.groups
  unfolding promote_active
  count-promote_active b = elim (Bool-cases (has_active b.groups)) [
    | inl e ↦ rw (e, count_groups) (count-promote (tick b.clock) b.groups)
    | inr e ↦ rw (e, count_groups) refl
  ]

  -- Rebuilding loses no window and doubles none: of every kind of window, the groups hold as many
  -- as the backend lists.
  pub rebuild_groups-count :
      (resolve : Text → Text) (ws : List ToplevelWindow) (m : SwitcherManager)
      → count_groups (rebuild_groups resolve ws m).groups ≡ count ws
  unfolding rebuild_groups regroup
  rebuild_groups-count resolve ws m =
      let start : Building = record { groups = []; clock = m.clock_counter } in
      let b = collect resolve m.group_by_app m.groups ws start in
      omega (
        arith,
        ap count_groups (
              groups-clamp (record m {
                groups = sort_mru (promote_active b).groups;
                clock_counter = (promote_active b).clock;
              }))
            ∙ count-sort_mru (promote_active b).groups
            ∙ count-promote_active b
            ∙ count-collect resolve m.group_by_app m.groups ws start,
      )

-- ===== src/Switcher/Order.antt =====
-- The most-recently-used order of the application switcher.
use waylaunch.Prelude.{ℕ, ◌+◌, ◌≤◌, ◌<◌, ◌≡◌, refl, true, false, List, [], ◌∷◌, inl, inr, arith}
use waylaunch.Prelude.Tests.{Bool-cases}
use waylaunch.Prelude.Lists.{length}
use waylaunch.Prelude.Text.{Text}
use waylaunch.Switcher.Groups.{
  ToplevelWindow, AppGroup, Building, collect, promote, promote_active, has_active, is_any_active,
  any_active, sort_mru,
}
use waylaunch.Switcher.Sorting.{
  Below, IsMru, Below-mono, sort_mru-Below, sort_mru-IsMru, ActiveFirst, sort_promoted,
}
use waylaunch.Switcher.Clock.{no_wrap, tick_next, collect-Advanced}
use waylaunch.Switcher.Counting.{count, count_groups, count-collect, groups-clamp, clock-clamp}
use waylaunch.Switcher.FocusTimes.{
  IsTimed, AllTimed, sort_mru-All, collect-Timed, promote_active-Timed,
}
use waylaunch.Switcher.Manager.{SwitcherManager, rebuild_groups, regroup}

no_active-count :
    (ws : List ToplevelWindow) → any_active ws ≡ false → count (λ w. w.is_active) ws ≡ 0
unfolding any_active
no_active-count [] h = refl
no_active-count (w ∷ ws) h = elim (Bool-cases w.is_active) [
  | inl e ↦ cc (rw e at h)
  | inr e ↦ rw (e, count) (omega (arith, no_active-count ws (rw e at h)))
]

has_active-count :
    (gs : List AppGroup) → 0 < count_groups (λ w. w.is_active) gs → has_active gs ≡ true
unfolding has_active is_any_active
has_active-count [] h = ground arith
has_active-count (g ∷ gs) h = elim (Bool-cases (any_active g.windows)) [
  | inl e ↦ rw (e, has_active) refl
  | inr e ↦ rw (e, has_active) (has_active-count gs (omega (arith, no_active-count g.windows e)))
]

promote-Below : (n now : ℕ) (gs : List AppGroup) → n ≤ now → Below n gs → Below now (promote now gs)
unfolding promote
promote-Below n now [] l b = tt
promote-Below n now (g ∷ gs) l (x, b) = elim (Bool-cases (is_any_active g)) [
  | inl e ↦ rw (e, Below) (omega arith, Below-mono n now gs l b)
  | inr e ↦ rw (e, Below) (omega arith, promote-Below n now gs l b)
]

promote_active-Below :
    (b : Building)
    → Below b.clock b.groups
    → b.clock + 1 < no_wrap
    → Below (promote_active b).clock (promote_active b).groups
      × ((promote_active b).clock ≤ b.clock + 1)
unfolding promote_active
promote_active-Below b g h = elim (Bool-cases (has_active b.groups)) [
  | inl e ↦
      rw (e, tick_next b.clock h, Below)
        (promote-Below b.clock (b.clock + 1) b.groups (omega arith) g, omega arith)
  | inr e ↦ rw (e, Below) (g, omega arith)
]

promoted_first :
    (b : Building)
    → Below b.clock b.groups
    → b.clock + 1 < no_wrap
    → has_active b.groups ≡ true
    → ActiveFirst (promote_active b).clock (sort_mru (promote_active b).groups)
unfolding promote_active
promoted_first b g h a =
    rw (a, tick_next b.clock h, ActiveFirst)
      (sort_promoted b.clock (b.clock + 1) b.groups g (omega arith) a)

module _ (resolve : Text → Text) (ws : List ToplevelWindow) (m : SwitcherManager) where
  abbrev built : Building
  built =
      collect resolve m.group_by_app m.groups ws (record { groups = []; clock = m.clock_counter })

  abbrev unclamped : SwitcherManager
  unclamped = record m {
    groups = sort_mru (promote_active built).groups;
    clock_counter = (promote_active built).clock;
  }

  rebuilt_groups : (rebuild_groups resolve ws m).groups ≡ sort_mru (promote_active built).groups
  unfolding rebuild_groups regroup
  rebuilt_groups = groups-clamp unclamped

  rebuilt_clock : (rebuild_groups resolve ws m).clock_counter ≡ (promote_active built).clock
  unfolding rebuild_groups regroup
  rebuilt_clock = clock-clamp unclamped

  built-Advanced :
      Below m.clock_counter m.groups
      → m.clock_counter + length ws + 1 < no_wrap
      → Below built.clock built.groups × (built.clock ≤ m.clock_counter + length ws)
  built-Advanced o h =
      let (up, near, g, o') =
        collect-Advanced resolve m.group_by_app m.groups ws
          (record { groups = []; clock = m.clock_counter }) o tt (omega arith) in
      (g, omega arith)

  built-Timed :
      m.clock_counter + length ws + 1 < no_wrap
      → AllTimed m.groups m.clock_counter (promote_active built).clock (promote_active built).groups
  built-Timed h = promote_active-Timed m.groups m.clock_counter built (
      collect-Timed m.groups m.clock_counter resolve m.group_by_app ws
        (record { groups = []; clock = m.clock_counter }) (omega arith) (omega arith) tt)

  -- With a clock that no group is ahead of and that does not wrap on the way, the rebuilt groups
  -- stand by the time of their last focus, the newest first, and none is ahead of the new clock.
  -- That time is the one that the first group of the same key had before; where there was none, it
  -- is later than the old clock; only a group with an active window may have the new clock in its
  -- place.
  pub rebuild_groups-IsMru :
      Below m.clock_counter m.groups
      → m.clock_counter + length ws + 1 < no_wrap
      → IsMru (rebuild_groups resolve ws m).groups
        × Below (rebuild_groups resolve ws m).clock_counter (rebuild_groups resolve ws m).groups
        × ((rebuild_groups resolve ws m).clock_counter ≤ m.clock_counter + length ws + 1)
        × AllTimed m.groups m.clock_counter
            (rebuild_groups resolve ws m).clock_counter
            (rebuild_groups resolve ws m).groups
  rebuild_groups-IsMru o h =
      let (g, near) = built-Advanced o h in
      let (b, up) = promote_active-Below built g (omega arith) in
      rw (rebuilt_groups, rebuilt_clock)
        (
          sort_mru-IsMru (promote_active built).groups,
          sort_mru-Below (promote_active built).clock (promote_active built).groups b,
          omega arith,
          sort_mru-All (IsTimed m.groups m.clock_counter (promote_active built).clock)
              (promote_active built).groups (built-Timed h),
        )

  -- With a clock that no group is ahead of and that does not wrap on the way, and a window that is
  -- active, the first of the rebuilt groups has an active window and the time of the new clock.
  pub rebuild_groups_active :
      Below m.clock_counter m.groups
      → m.clock_counter + length ws + 1 < no_wrap
      → 0 < count (λ w. w.is_active) ws
      → ActiveFirst (rebuild_groups resolve ws m).clock_counter (rebuild_groups resolve ws m).groups
  rebuild_groups_active o h a =
      let (g, near) = built-Advanced o h in
      let some_active : has_active built.groups ≡ true = has_active-count built.groups (
        omega (
          arith,
          count-collect (λ w. w.is_active) resolve m.group_by_app m.groups ws
              (record { groups = []; clock = m.clock_counter }),
        )) in
      rw (rebuilt_groups, rebuilt_clock) (promoted_first built g (omega arith) some_active)

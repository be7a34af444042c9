-- ===== src/Switcher/Clock.antt =====
-- The clock of the switcher while AppSwitcherManager::rebuild_groups collects its groups.
use waylaunch.Prelude.{
  ℕ, ◌+◌, ◌≤◌, ◌<◌, ◌≡◌, Bool, Option, none, some, List, [], ◌∷◌, ◌++◌, inl, inr, arith,
}
use waylaunch.Prelude.Tests.{Bool-cases, Option-cases}
use waylaunch.Prelude.Lists.{length}
use waylaunch.Prelude.Text.{Text, text_eq}
use waylaunch.Switcher.Groups.{
  ToplevelWindow, AppGroup, Building, tick, before, push_window, open_group, add_window, collect,
  key_of, new_group, time_of,
}
use waylaunch.Switcher.Sorting.{Below, Below-mono}

pub time_of-Below :
    (n : ℕ) (key : Text) (gs : List AppGroup) (t : ℕ) → Below n gs → time_of key gs ≡ some t → t ≤ n
unfolding time_of
time_of-Below n key [] t b e = cc
time_of-Below n key (g ∷ gs) t (x, b) e = grind (arith, time_of-Below n key gs t b)

new-Below :
    (n : ℕ) (gs : List AppGroup) (g : AppGroup)
    → Below n gs
    → g.last_focused_time ≤ n
    → Below n (gs ++ g ∷ [])
new-Below n [] g b h = (h, tt)
new-Below n (k ∷ gs) g (x, b) h = (x, new-Below n gs g b h)

abbrev BelowAny : ℕ → Option (List AppGroup) → Type 0
BelowAny n none = Unit
BelowAny n (some gs) = Below n gs

before-Below :
    (n : ℕ) (g : AppGroup) (o : Option (List AppGroup))
    → g.last_focused_time ≤ n
    → BelowAny n o
    → BelowAny n (before g o)
before-Below n g none h b = tt
before-Below n g (some gs) h b = (h, b)

push_window-Below :
    (n : ℕ) (key : Text) (w : ToplevelWindow) (gs : List AppGroup)
    → Below n gs
    → BelowAny n (push_window key w gs)
unfolding push_window
push_window-Below n key w [] b = tt
push_window-Below n key w (g ∷ gs) (x, b) = elim (Bool-cases (text_eq g.app_id key)) [
  | inl t ↦ rw (t, BelowAny) (x, b)
  | inr t ↦
      rw (t, BelowAny) (before-Below n g (push_window key w gs) x (push_window-Below n key w gs b))
]

abbrev pub no_wrap : ℕ
no_wrap = 18_446_744_073_709_551_616

pub tick_next : (c : ℕ) → c + 1 < no_wrap → tick c ≡ c + 1
unfolding tick
tick_next c h = omega arith

-- The clock after a window, and that no time is above it.
abbrev pub Advanced : List AppGroup → ℕ → Building → Building → Type 0
Advanced old k b d =
    (b.clock ≤ d.clock) × (d.clock ≤ b.clock + k) × Below d.clock d.groups × Below d.clock old

open_group-Advanced :
    (resolve : Text → Text) (by_app : Bool) (old : List AppGroup) (w : ToplevelWindow)
    (b : Building)
    → Below b.clock old
    → Below b.clock b.groups
    → b.clock + 1 < no_wrap
    → Advanced old 1 b (open_group resolve by_app old w b)
unfolding open_group new_group
open_group-Advanced resolve by_app old w b o g h =
    elim (Option-cases (time_of (key_of by_app w) old)) [
      | inl e ↦
          rw (e, tick_next b.clock h, open_group, Advanced, Below)
            (
              omega arith,
              omega arith,
              new-Below (b.clock + 1) b.groups (new_group resolve by_app w (b.clock + 1))
                  (Below-mono b.clock (b.clock + 1) b.groups (omega arith) g) (omega arith),
              Below-mono b.clock (b.clock + 1) old (omega arith) o,
            )
      | inr (t, e) ↦
          rw (e, open_group, Advanced, Below)
            (
              omega arith,
              omega arith,
              new-Below b.clock b.groups (new_group resolve by_app w t) g
                  (time_of-Below b.clock (key_of by_app w) old t o e),
              o,
            )
    ]

add_window-Advanced :
    (resolve : Text → Text) (by_app : Bool) (old : List AppGroup) (w : ToplevelWindow)
    (b : Building)
    → Below b.clock old
    → Below b.clock b.groups
    → b.clock + 1 < no_wrap
    → Advanced old 1 b (add_window resolve by_app old w b)
unfolding add_window
add_window-Advanced resolve by_app old w b o g h =
    elim (Option-cases (push_window (key_of by_app w) w b.groups)) [
      | inl e ↦ rw (e, add_window) (open_group-Advanced resolve by_app old w b o g h)
      | inr (hs, e) ↦
          rw (e, add_window, Advanced, Below)
            (
              omega arith,
              omega arith,
              rw e at (push_window-Below b.clock (key_of by_app w) w b.groups g),
              o,
            )
    ]

pub collect-Advanced :
    (resolve : Text → Text) (by_app : Bool) (old : List AppGroup) (ws : List ToplevelWindow)
    (b : Building)
    → Below b.clock old
    → Below b.clock b.groups
    → b.clock + length ws < no_wrap
    → Advanced old (length ws) b (collect resolve by_app old ws b)
unfolding collect
collect-Advanced resolve by_app old [] b o g h = (omega arith, omega arith, g, o)
collect-Advanced resolve by_app old (w ∷ ws) b o g h =
    let d : Building = add_window resolve by_app old w b in
    let (up, near, g', o') = add_window-Advanced resolve by_app old w b o g (omega arith) in
    let (up', near', g'', o'') = collect-Advanced resolve by_app old ws d o' g' (omega arith) in
    (omega arith, omega arith, g'', o'')

-- ===== src/Switcher/FocusTimes.antt =====
-- The time of the last focus that a group has after AppSwitcherManager::rebuild_groups.
use waylaunch.Prelude.{
  ℕ, ◌+◌, ◌%◌, ◌≤◌, ◌<◌, ◌≡◌, ◌≢◌, ◌⊎◌, inl, inr, refl, Bool, true, none, some, List, [], ◌∷◌, ◌++◌,
  arith,
}
use mathlib.Core.Path.{subst}
use waylaunch.Prelude.Tests.{Bool-cases, Option-cases, leb, some_injective}
use waylaunch.Prelude.Lists.{All, length}
use waylaunch.Prelude.Text.{Text, text_eq, text_eq_iff}
use waylaunch.Switcher.Groups.{
  ToplevelWindow, AppGroup, Building, tick, push_window, open_group, add_window, collect, key_of,
  new_group, time_of, promote, promote_active, has_active, is_any_active, insert_group, sort_mru,
}

-- The first of the groups with the key has the time.
abbrev pub HasTime : Text → ℕ → List AppGroup → Type 0
HasTime key t [] = ⊥
HasTime key t (g ∷ gs) =
    ((g.app_id ≡ key) × (g.last_focused_time ≡ t)) ⊎ ((g.app_id ≢ key) × HasTime key t gs)

-- The group has the time that its key had, or one later than `start` where its key had none.
abbrev pub KeepsTime : List AppGroup → ℕ → AppGroup → Type 0
KeepsTime old start g =
    HasTime g.app_id g.last_focused_time old
    ⊎ (All (λ h. h.app_id ≢ g.app_id) old × (start < g.last_focused_time))

-- Or the group has an active window and the time `now`.
abbrev pub IsTimed : List AppGroup → ℕ → ℕ → AppGroup → Type 0
IsTimed old start now g =
    KeepsTime old start g ⊎ ((is_any_active g ≡ true) × (g.last_focused_time ≡ now))

time_of-HasTime :
    (key : Text) (t : ℕ) (gs : List AppGroup) → time_of key gs ≡ some t → HasTime key t gs
unfolding time_of
time_of-HasTime key t [] h = cc
time_of-HasTime key t (g ∷ gs) h = elim (Bool-cases (text_eq g.app_id key)) [
  | inl e ↦
      inl (
        (text_eq_iff g.app_id key).0 e,
        some_injective g.last_focused_time t (rw (e, time_of) at h),
      )
  | inr e ↦
      inr
        (ground (arith, text_eq_iff g.app_id key), time_of-HasTime key t gs (rw (e, time_of) at h))
]

time_of-none :
    (key : Text) (gs : List AppGroup) → time_of key gs ≡ none → All (λ h. h.app_id ≢ key) gs
unfolding time_of
time_of-none key [] h = tt
time_of-none key (g ∷ gs) h = elim (Bool-cases (text_eq g.app_id key)) [
  | inl e ↦ cc (rw (e, time_of) at h)
  | inr e ↦ (ground (arith, text_eq_iff g.app_id key), time_of-none key gs (rw (e, time_of) at h))
]

module _ (P : AppGroup → Type 0) where
  append-All : (gs hs : List AppGroup) → All P gs → All P hs → All P (gs ++ hs)
  append-All [] hs a b = b
  append-All (g ∷ gs) hs (x, a) b = (x, append-All gs hs a b)

  insert-All : (g : AppGroup) (gs : List AppGroup) → P g → All P gs → All P (insert_group g gs)
  unfolding insert_group
  insert-All g [] x a = (x, tt)
  insert-All g (h ∷ hs) x (y, a) = elim (Bool-cases (leb h.last_focused_time g.last_focused_time)) [
    | inl e ↦ rw e (x, (y, a))
    | inr e ↦ rw e (y, insert-All g hs x a)
  ]

  pub sort_mru-All : (gs : List AppGroup) → All P gs → All P (sort_mru gs)
  unfolding sort_mru
  sort_mru-All [] a = tt
  sort_mru-All (g ∷ gs) (x, a) = insert-All g (sort_mru gs) x (sort_mru-All gs a)

module _ (old : List AppGroup) (start : ℕ) where
  abbrev pub Timed : List AppGroup → Type 0
  Timed gs = All (λ g. KeepsTime old start g) gs

  push_window-Timed :
      (key : Text) (w : ToplevelWindow) (gs hs : List AppGroup)
      → push_window key w gs ≡ some hs
      → Timed gs
      → Timed hs
  unfolding push_window
  push_window-Timed key w [] hs h a = cc
  push_window-Timed key w (g ∷ gs) hs h (x, a) = elim (Bool-cases (text_eq g.app_id key)) [
    | inl e ↦
        subst (λ ks. Timed ks)
          (some_injective (record g { windows = g.windows ++ w ∷ [] } ∷ gs) hs
            (rw (e, push_window) at h))
          (x, a)
    | inr e ↦ elim (Option-cases (push_window key w gs)) [
      | inl n ↦ cc (rw (e, n, push_window) at h)
      | inr (ks, n) ↦
          subst (λ js. Timed js) (some_injective (g ∷ ks) hs (rw (e, n, push_window) at h))
            (x, push_window-Timed key w gs ks n a)
    ]
  ]

  -- The groups after a window, and how far the clock goes.
  abbrev TimedStep : ℕ → Building → Building → Type 0
  TimedStep k b d = (b.clock ≤ d.clock) × (d.clock ≤ b.clock + k) × Timed d.groups

  open_group-Timed :
      (resolve : Text → Text) (by_app : Bool) (w : ToplevelWindow) (b : Building)
      → start ≤ b.clock
      → b.clock + 1 < 18_446_744_073_709_551_616
      → Timed b.groups
      → TimedStep 1 b (open_group resolve by_app old w b)
  unfolding open_group new_group tick
  open_group-Timed resolve by_app w b s h a = elim (Option-cases (time_of (key_of by_app w) old)) [
    | inl e ↦
        let next : (b.clock + 1) % 18_446_744_073_709_551_616 ≡ b.clock + 1 = omega arith in
        rw (e, open_group)
          (rw next (
            omega arith,
            omega arith,
            append-All (λ g. KeepsTime old start g) b.groups
                (new_group resolve by_app w (b.clock + 1) ∷ []) a
                (inr (time_of-none (key_of by_app w) old e, omega arith), tt),
          ))
    | inr (t, e) ↦
        rw (e, open_group)
          (
            omega arith,
            omega arith,
            append-All (λ g. KeepsTime old start g) b.groups (new_group resolve by_app w t ∷ []) a
                (inl (time_of-HasTime (key_of by_app w) t old e), tt),
          )
  ]

  add_window-Timed :
      (resolve : Text → Text) (by_app : Bool) (w : ToplevelWindow) (b : Building)
      → start ≤ b.clock
      → b.clock + 1 < 18_446_744_073_709_551_616
      → Timed b.groups
      → TimedStep 1 b (add_window resolve by_app old w b)
  unfolding add_window
  add_window-Timed resolve by_app w b s h a =
      elim (Option-cases (push_window (key_of by_app w) w b.groups)) [
        | inl e ↦ rw (e, add_window) (open_group-Timed resolve by_app w b s h a)
        | inr (hs, e) ↦
            rw (e, add_window)
              (omega arith, omega arith, push_window-Timed (key_of by_app w) w b.groups hs e a)
      ]

  pub collect-Timed :
      (resolve : Text → Text) (by_app : Bool) (ws : List ToplevelWindow) (b : Building)
      → start ≤ b.clock
      → b.clock + length ws < 18_446_744_073_709_551_616
      → Timed b.groups
      → Timed (collect resolve by_app old ws b).groups
  unfolding collect
  collect-Timed resolve by_app [] b s h a = a
  collect-Timed resolve by_app (w ∷ ws) b s h a =
      let d : Building = add_window resolve by_app old w b in
      let (up, near, a') = add_window-Timed resolve by_app w b s (omega arith) a in
      collect-Timed resolve by_app ws d (omega arith) (omega arith) a'

  abbrev pub AllTimed : ℕ → List AppGroup → Type 0
  AllTimed now gs = All (λ g. IsTimed old start now g) gs

  unpromoted : (now : ℕ) (gs : List AppGroup) → Timed gs → AllTimed now gs
  unpromoted now [] a = tt
  unpromoted now (g ∷ gs) (x, a) = (inl x, unpromoted now gs a)

  promote-Timed : (now : ℕ) (gs : List AppGroup) → Timed gs → AllTimed now (promote now gs)
  unfolding promote is_any_active
  promote-Timed now [] a = tt
  promote-Timed now (g ∷ gs) (x, a) = elim (Bool-cases (is_any_active g)) [
    | inl e ↦ rw (e, promote) (inr (e, refl), unpromoted now gs a)
    | inr e ↦ rw (e, promote) (inl x, promote-Timed now gs a)
  ]

  pub promote_active-Timed :
      (b : Building) → Timed b.groups → AllTimed (promote_active b).clock (promote_active b).groups
  unfolding promote_active
  promote_active-Timed b a = elim (Bool-cases (has_active b.groups)) [
    | inl e ↦ rw e (promote-Timed (tick b.clock) b.groups a)
    | inr e ↦ rw e (unpromoted b.clock b.groups a)
  ]

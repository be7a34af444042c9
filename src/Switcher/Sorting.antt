-- ===== src/Switcher/Sorting.antt =====
-- Sorting the groups of the application switcher by time, the newest first.
use waylaunch.Prelude.{ℕ, ◌≤◌, ◌<◌, ◌≡◌, refl, true, List, [], ◌∷◌, inl, inr, arith}
use waylaunch.Prelude.Tests.{leb, leb→le, Bool-cases}
use waylaunch.Prelude.Lists.{All}
use waylaunch.Switcher.Groups.{AppGroup, promote, has_active, is_any_active, insert_group, sort_mru}

-- No group has a time above `n`.
abbrev pub Below : ℕ → List AppGroup → Type 0
Below n gs = All (λ g. g.last_focused_time ≤ n) gs

-- The newest first.
abbrev pub IsMru : List AppGroup → Type 0
IsMru [] = Unit
IsMru (g ∷ gs) = Below g.last_focused_time gs × IsMru gs

pub Below-mono : (m n : ℕ) (gs : List AppGroup) → m ≤ n → Below m gs → Below n gs
Below-mono m n [] h b = b
Below-mono m n (g ∷ gs) h (x, b) = (omega arith, Below-mono m n gs h b)

insert_group-Below :
    (n : ℕ) (g : AppGroup) (gs : List AppGroup)
    → g.last_focused_time ≤ n
    → Below n gs
    → Below n (insert_group g gs)
unfolding insert_group
insert_group-Below n g [] h b = (h, b)
insert_group-Below n g (k ∷ gs) h (x, b) = ground (arith, insert_group-Below n g gs h b)

pub sort_mru-Below : (n : ℕ) (gs : List AppGroup) → Below n gs → Below n (sort_mru gs)
unfolding sort_mru
sort_mru-Below n [] b = b
sort_mru-Below n (g ∷ gs) (x, b) = insert_group-Below n g (sort_mru gs) x (sort_mru-Below n gs b)

insert_group-IsMru : (g : AppGroup) (gs : List AppGroup) → IsMru gs → IsMru (insert_group g gs)
unfolding insert_group
insert_group-IsMru g [] s = (tt, tt)
insert_group-IsMru g (k ∷ gs) (b, s) =
    elim (Bool-cases (leb k.last_focused_time g.last_focused_time)) [
      | inl e ↦
          let le = leb→le k.last_focused_time g.last_focused_time e in
          rw (e, IsMru) (((le, Below-mono k.last_focused_time g.last_focused_time gs le b), (b, s)))
      | inr e ↦
          rw (e, IsMru)
            (
              insert_group-Below k.last_focused_time g gs (ground arith) b,
              insert_group-IsMru g gs s,
            )
    ]

pub sort_mru-IsMru : (gs : List AppGroup) → IsMru (sort_mru gs)
unfolding sort_mru
sort_mru-IsMru [] = tt
sort_mru-IsMru (g ∷ gs) = insert_group-IsMru g (sort_mru gs) (sort_mru-IsMru gs)

insert_newest :
    (g : AppGroup) (gs : List AppGroup) → Below g.last_focused_time gs → insert_group g gs ≡ g ∷ gs
unfolding insert_group
insert_newest g [] b = refl
insert_newest g (k ∷ gs) (x, b) = ground arith

-- A group with an active window stands first, with the time `now`.
abbrev pub ActiveFirst : ℕ → List AppGroup → Type 0
ActiveFirst now gs =
    (h : AppGroup) × (hs : List AppGroup) × (gs ≡ h ∷ hs)
    × (is_any_active h ≡ true)
    × (h.last_focused_time ≡ now)

insert_older :
    (now : ℕ) (g : AppGroup) (gs : List AppGroup)
    → g.last_focused_time < now
    → ActiveFirst now gs
    → ActiveFirst now (insert_group g gs)
unfolding insert_group
insert_older now g gs l (h, hs, e, a, t) =
    (h, insert_group g hs, rw (e, insert_group) (ground arith), a, t)

pub sort_promoted :
    (n now : ℕ) (gs : List AppGroup)
    → Below n gs
    → n < now
    → has_active gs ≡ true
    → ActiveFirst now (sort_mru (promote now gs))
unfolding promote has_active sort_mru is_any_active
sort_promoted n now [] b l h = cc
sort_promoted n now (g ∷ gs) (x, b) l h = elim (Bool-cases (is_any_active g)) [
  | inl e ↦
      let g' : AppGroup = record g { last_focused_time = now } in
      let low : Below now (sort_mru gs) =
        Below-mono n now (sort_mru gs) (omega arith) (sort_mru-Below n gs b) in
      rw (e, sort_mru) (g', sort_mru gs, insert_newest g' (sort_mru gs) low, e, refl)
  | inr e ↦
      rw (e, sort_mru)
        (insert_older now g (sort_mru (promote now gs)) (omega arith)
          (sort_promoted n now gs b l (rw e at h)))
]

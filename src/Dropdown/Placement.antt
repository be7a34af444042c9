-- ===== src/Dropdown/Placement.antt =====
-- Where the dropdown is placed, and how a manual resize is learnt and used again.
use waylaunch.Prelude.{ℕ, ◌≡◌, refl, ◌*◌, ◌/◌, ◌≤◌, Option, none, some, arith}
use waylaunch.Prelude.Int.{
  ℤ, pos, negsuc, ◌+ℤ◌, ◌-ℤ◌, ◌*ℤ◌, ◌/ℤ◌, ◌≤ℤ◌, max_ℤ, clamp, clamp_bounds, mul_pos, int_laws,
}
use waylaunch.Dropdown.Geometry.{
  Geometry, MonitorInfo, DropdownEdge, DropdownConfig, percent_of, usable_y, usable_w, usable_h,
  width_of, height_of, x_for, y_for, compute_geometry,
}

scaled_down : (t p : ℕ) → p ≤ 100 → t * p / 100 ≤ t
scaled_down t p h = grind arith

percent_at :
    (t : ℕ) (c : ℤ)
    → 1 ≤ t
    → pos 1 ≤ℤ c
    → c ≤ℤ pos 100
    → (pos 1 ≤ℤ max_ℤ (pos 1) (pos t *ℤ c /ℤ 100)) × (max_ℤ (pos 1) (pos t *ℤ c /ℤ 100) ≤ℤ pos t)
unfolding max_ℤ ◌/ℤ◌
percent_at t (pos p) h l u = rw (mul_pos t p) (ground (arith, scaled_down t p))
percent_at t (negsuc p) h l u = absurd (omega arith)

-- A percentage of a length of at least one lies between one and that length.
percent_of_bounds :
    (total percent : ℤ)
    → pos 1 ≤ℤ total
    → (pos 1 ≤ℤ percent_of total percent) × (percent_of total percent ≤ℤ total)
unfolding percent_of
percent_of_bounds (pos t) percent h =
    let (l, u) = clamp_bounds percent (pos 1) (pos 100) (omega arith) in
    percent_at t (clamp percent (pos 1) (pos 100)) (omega arith) l u
percent_of_bounds (negsuc t) percent h = absurd (omega arith)

half_gap :
    (a : ℤ)
    → pos 0 ≤ℤ a
    → (pos 0 ≤ℤ a /ℤ 2) × (a /ℤ 2 +ℤ a /ℤ 2 ≤ℤ a) × (a ≤ℤ a /ℤ 2 +ℤ a /ℤ 2 +ℤ pos 1)
unfolding ◌/ℤ◌ ◌+ℤ◌
half_gap a h = ground arith

-- A length on one axis, and where it may lie.
abbrev pub Fits : ℤ → ℤ → ℤ → ℤ → Type 0
Fits start extent at size = (start ≤ℤ at) × (pos 1 ≤ℤ size) × (at +ℤ size ≤ℤ start +ℤ extent)

centred :
    (start extent size : ℤ)
    → pos 1 ≤ℤ size
    → size ≤ℤ extent
    → Fits start extent (start +ℤ (extent -ℤ size) /ℤ 2) size
centred start extent size l u =
    let gap = half_gap (extent -ℤ size) (omega int_laws) in
    (omega (int_laws, gap), l, omega (int_laws, gap))

x-Fits : (e : DropdownEdge) (ux uw w : ℤ) → pos 1 ≤ℤ w → w ≤ℤ uw → Fits ux uw (x_for e ux uw w) w
x-Fits DropdownEdge.left ux uw w l u = (omega int_laws, l, omega int_laws)
x-Fits DropdownEdge.right ux uw w l u = (omega int_laws, l, omega int_laws)
x-Fits DropdownEdge.top ux uw w l u = centred ux uw w l u
x-Fits DropdownEdge.bottom ux uw w l u = centred ux uw w l u

y-Fits : (e : DropdownEdge) (uy uh h : ℤ) → pos 1 ≤ℤ h → h ≤ℤ uh → Fits uy uh (y_for e uy uh h) h
y-Fits DropdownEdge.top uy uh h l u = (omega int_laws, l, omega int_laws)
y-Fits DropdownEdge.bottom uy uh h l u = (omega int_laws, l, omega int_laws)
y-Fits DropdownEdge.left uy uh h l u = centred uy uh h l u
y-Fits DropdownEdge.right uy uh h l u = centred uy uh h l u

max-pos : (a : ℤ) → pos 1 ≤ℤ max_ℤ (pos 1) a
unfolding max_ℤ
max-pos a = ground arith

width_bounds :
    (o : Option Geometry) (usable percent : ℤ)
    → pos 1 ≤ℤ usable
    → (pos 1 ≤ℤ width_of o usable percent) × (width_of o usable percent ≤ℤ usable)
width_bounds none usable percent h = percent_of_bounds usable percent h
width_bounds (some g) usable percent h = clamp_bounds g.w (pos 1) usable h

height_bounds :
    (o : Option Geometry) (usable percent : ℤ)
    → pos 1 ≤ℤ usable
    → (pos 1 ≤ℤ height_of o usable percent) × (height_of o usable percent ≤ℤ usable)
height_bounds none usable percent h = percent_of_bounds usable percent h
height_bounds (some g) usable percent h = clamp_bounds g.h (pos 1) usable h

-- For every monitor and configuration, whatever the percentages or the override, the dropdown
-- has a size of at least one by one and lies within the usable area on both axes.
pub compute_geometry-Fits :
    (m : MonitorInfo) (c : DropdownConfig)
    → let g = compute_geometry m c in
      Fits m.x (usable_w m) g.x g.w × Fits (usable_y m) (usable_h m) g.y g.h
unfolding compute_geometry
compute_geometry-Fits m c =
    let (wl, wu) = width_bounds c.size_override (usable_w m) c.width_percent (max-pos m.w) in
    let (hl, hu) =
      height_bounds c.size_override (usable_h m) c.height_percent
        (max-pos (m.h -ℤ m.reserved_top -ℤ m.reserved_bottom)) in
    (x-Fits c.edge m.x (usable_w m) _ wl wu, y-Fits c.edge (usable_y m) (usable_h m) _ hl hu)

-- The margins before and after differ by at most one, the larger one after.
abbrev pub IsCentred : ℤ → ℤ → ℤ → ℤ → Type 0
IsCentred start extent at size =
    (at -ℤ start ≤ℤ start +ℤ extent -ℤ (at +ℤ size))
    × (start +ℤ extent -ℤ (at +ℤ size) ≤ℤ at -ℤ start +ℤ pos 1)

-- The edge pins one axis and the other is centred.
abbrev pub IsPinned : DropdownEdge → MonitorInfo → Geometry → Type 0
IsPinned DropdownEdge.top m g = (g.y ≡ usable_y m) × IsCentred m.x (usable_w m) g.x g.w
IsPinned DropdownEdge.bottom m g =
    (g.y +ℤ g.h ≡ usable_y m +ℤ usable_h m) × IsCentred m.x (usable_w m) g.x g.w
IsPinned DropdownEdge.left m g = (g.x ≡ m.x) × IsCentred (usable_y m) (usable_h m) g.y g.h
IsPinned DropdownEdge.right m g =
    (g.x +ℤ g.w ≡ m.x +ℤ usable_w m) × IsCentred (usable_y m) (usable_h m) g.y g.h

centre-IsCentred :
    (start extent size : ℤ)
    → size ≤ℤ extent
    → IsCentred start extent (start +ℤ (extent -ℤ size) /ℤ 2) size
centre-IsCentred start extent size u =
    let gap = half_gap (extent -ℤ size) (omega int_laws) in
    (omega (int_laws, gap), omega (int_laws, gap))

placed-IsPinned :
    (e : DropdownEdge) (m : MonitorInfo) (w h : ℤ)
    → w ≤ℤ usable_w m
    → h ≤ℤ usable_h m
    → IsPinned e m (record {
      x = x_for e m.x (usable_w m) w;
      y = y_for e (usable_y m) (usable_h m) h;
      w = w;
      h = h;
    })
placed-IsPinned DropdownEdge.top m w h wu hu = (refl, centre-IsCentred m.x (usable_w m) w wu)
placed-IsPinned DropdownEdge.bottom m w h wu hu =
    (omega int_laws, centre-IsCentred m.x (usable_w m) w wu)
placed-IsPinned DropdownEdge.left m w h wu hu =
    (refl, centre-IsCentred (usable_y m) (usable_h m) h hu)
placed-IsPinned DropdownEdge.right m w h wu hu =
    (omega int_laws, centre-IsCentred (usable_y m) (usable_h m) h hu)

-- The dropdown touches the configured edge of the usable area, and on the other axis its two
-- margins differ by at most one pixel.
pub compute_geometry-IsPinned :
    (m : MonitorInfo) (c : DropdownConfig) → IsPinned c.edge m (compute_geometry m c)
unfolding compute_geometry
compute_geometry-IsPinned m c =
    placed-IsPinned c.edge m _ _
      (width_bounds c.size_override (usable_w m) c.width_percent (max-pos m.w)).1
      (height_bounds c.size_override (usable_h m) c.height_percent
        (max-pos (m.h -ℤ m.reserved_top -ℤ m.reserved_bottom))).1

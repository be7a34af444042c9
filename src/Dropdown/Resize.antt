-- ===== src/Dropdown/Resize.antt =====
-- Learning a manual resize, and placing the dropdown by what was learnt.
use waylaunch.Prelude.{◌≡◌, ◌↔◌, ◌⊎◌, Bool, true, none, some, arith}
use waylaunch.Prelude.Int.{ℤ, pos, ◌+ℤ◌, ◌-ℤ◌, ◌≤ℤ◌, ◌<ℤ◌, clamp, abs, int_laws}
use waylaunch.Dropdown.Geometry.{
  Geometry, MonitorInfo, DropdownConfig, usable_w, usable_h, compute_geometry, learn_resize,
}

-- What counts as a manual resize.
pub record IsResize (placed observed : Geometry) (epsilon : ℤ) (floating : Bool) : Type 0 where
  pub floats : floating ≡ true
  pub observed_w : pos 0 <ℤ observed.w
  pub observed_h : pos 0 <ℤ observed.h
  pub placed_w : pos 0 <ℤ placed.w
  pub placed_h : pos 0 <ℤ placed.h
  pub differs :
      (epsilon ≤ℤ pos (abs (observed.w -ℤ placed.w)))
      ⊎ (epsilon ≤ℤ pos (abs (observed.h -ℤ placed.h)))

-- A size is learnt exactly when a floating window differs from where it was placed by at least
-- the tolerance on one axis, all four lengths being positive; it is the observed size with the
-- strip's band added to the height.
pub learn_resize_iff :
    (placed observed g : Geometry) (band epsilon : ℤ) (floating : Bool)
    → (learn_resize placed observed band epsilon floating ≡ some g) ↔ (
        IsResize placed observed epsilon floating
        × (g ≡ record { x = pos 0; y = pos 0; w = observed.w; h = observed.h +ℤ band }))
unfolding learn_resize
learn_resize_iff placed observed g band epsilon floating = (λ h. ground arith, λ h. ground arith)

clamp_id : (v lo hi : ℤ) → lo ≤ℤ v → v ≤ℤ hi → clamp v lo hi ≡ v
unfolding clamp
clamp_id v lo hi l u = ground arith

back : (a b : ℤ) → a +ℤ b -ℤ b ≡ a
back a b = omega int_laws

no_gap : (a : ℤ) → abs (a -ℤ a) ≡ 0
unfolding abs ◌-ℤ◌
no_gap a = ground arith

learned_parts :
    (placed observed g : Geometry) (band epsilon : ℤ)
    → learn_resize placed observed band epsilon true ≡ some g
    → (pos 1 ≤ℤ observed.w) × (g.w ≡ observed.w) × (g.h ≡ observed.h +ℤ band)
unfolding learn_resize
learned_parts placed observed g band epsilon h = ground arith

-- A window that measures what was placed teaches nothing.
same_teaches_none :
    (placed observed : Geometry) (band epsilon : ℤ)
    → placed.w ≡ observed.w
    → placed.h ≡ observed.h
    → pos 0 <ℤ epsilon
    → learn_resize placed observed band epsilon true ≡ none
unfolding learn_resize
same_teaches_none placed observed band epsilon w h e =
    rw (w, h) (ground (arith, no_gap observed.w, no_gap observed.h))

-- A learnt size that fits the usable area is the size that the dropdown is placed with next, the
-- band taken off again leaves the observed window, and that placement teaches nothing new.
pub learned_size :
    (placed observed g : Geometry) (band epsilon : ℤ) (m : MonitorInfo) (c : DropdownConfig)
    → learn_resize placed observed band epsilon true ≡ some g
    → observed.w ≤ℤ usable_w m
    → pos 1 ≤ℤ observed.h +ℤ band
    → observed.h +ℤ band ≤ℤ usable_h m
    → pos 0 <ℤ epsilon
    → let p = compute_geometry m (record c { size_override = some g }) in
      (p.w ≡ observed.w)
      × (p.h -ℤ band ≡ observed.h)
      × (learn_resize (record p { h = p.h -ℤ band }) observed band epsilon true ≡ none)
unfolding compute_geometry
learned_size placed observed g band epsilon m c h wu hl hu ep =
    let (wl, gw, gh) = learned_parts placed observed g band epsilon h in
    let w : clamp g.w (pos 1) (usable_w m) ≡ observed.w =
      rw gw (clamp_id observed.w (pos 1) (usable_w m) wl wu) in
    let k : clamp g.h (pos 1) (usable_h m) -ℤ band ≡ observed.h =
      rw gh
        (rw (clamp_id (observed.h +ℤ band) (pos 1) (usable_h m) hl hu) (back observed.h band)) in
    (w, k, same_teaches_none _ observed band epsilon w k ep)

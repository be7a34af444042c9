-- ===== src/Dropdown/Geometry.antt =====
-- The placement policy: src/dropdown/geometry_policy.cpp and its header, with Geometry and
-- MonitorInfo of placement_backend.h (less `name`, `scale` and the workspace, which the policy
-- does not read). An `int` is an integer; the sums of the source stay in its range for monitors
-- of less than 2^30 pixels.
use waylaunch.Prelude.{Bool, not, ◌&&◌, Option, none, some, List, [], ◌∷◌}
use waylaunch.Prelude.Tests.{if◌then◌else◌}
use waylaunch.Prelude.Lists.{is_empty}
use waylaunch.Prelude.Int.{ℤ, pos, ◌+ℤ◌, ◌-ℤ◌, ◌*ℤ◌, ◌/ℤ◌, ltb_ℤ, leb_ℤ, max_ℤ, clamp, abs}
use waylaunch.Prelude.Text.{Text, text_eq}

pub record Geometry : Type 0 where
  pub x : ℤ
  pub y : ℤ
  pub w : ℤ
  pub h : ℤ

pub record MonitorInfo : Type 0 where
  pub x : ℤ
  pub y : ℤ
  pub w : ℤ
  pub h : ℤ
  pub reserved_top : ℤ
  pub reserved_bottom : ℤ

pub data DropdownEdge : Type 0 where
  top bottom left right : DropdownEdge

pub record DropdownSlot : Type 0 where
  pub name : Text
  pub command : Text
  pub width_percent : ℤ
  pub height_percent : ℤ

pub record DropdownConfig : Type 0 where
  pub enabled : Bool
  pub terminal : Text
  pub edge : DropdownEdge
  pub width_percent : ℤ
  pub height_percent : ℤ
  pub size_override : Option Geometry
  pub hide_on_focus_loss : Bool
  pub focus_grace_ms : ℤ
  pub respawn : Bool
  pub animation : Text
  pub tab_strip : Bool
  pub slots : List DropdownSlot

unfoldable pub percent_of : ℤ → ℤ → ℤ
percent_of total percent = max_ℤ (pos 1) (total *ℤ clamp percent (pos 1) (pos 100) /ℤ 100)

abbrev pub usable_y : MonitorInfo → ℤ
usable_y m = m.y +ℤ m.reserved_top

abbrev pub usable_w : MonitorInfo → ℤ
usable_w m = max_ℤ (pos 1) m.w

abbrev pub usable_h : MonitorInfo → ℤ
usable_h m = max_ℤ (pos 1) (m.h -ℤ m.reserved_top -ℤ m.reserved_bottom)

abbrev pub width_of : Option Geometry → ℤ → ℤ → ℤ
width_of none usable percent = percent_of usable percent
width_of (some g) usable percent = clamp g.w (pos 1) usable

abbrev pub height_of : Option Geometry → ℤ → ℤ → ℤ
height_of none usable percent = percent_of usable percent
height_of (some g) usable percent = clamp g.h (pos 1) usable

abbrev pub x_for : DropdownEdge → ℤ → ℤ → ℤ → ℤ
x_for DropdownEdge.left ux uw w = ux
x_for DropdownEdge.right ux uw w = ux +ℤ uw -ℤ w
x_for DropdownEdge.top ux uw w = ux +ℤ (uw -ℤ w) /ℤ 2
x_for DropdownEdge.bottom ux uw w = ux +ℤ (uw -ℤ w) /ℤ 2

abbrev pub y_for : DropdownEdge → ℤ → ℤ → ℤ → ℤ
y_for DropdownEdge.top uy uh h = uy
y_for DropdownEdge.bottom uy uh h = uy +ℤ uh -ℤ h
y_for DropdownEdge.left uy uh h = uy +ℤ (uh -ℤ h) /ℤ 2
y_for DropdownEdge.right uy uh h = uy +ℤ (uh -ℤ h) /ℤ 2

unfoldable pub compute_geometry : MonitorInfo → DropdownConfig → Geometry
compute_geometry m c =
    let w = width_of c.size_override (usable_w m) c.width_percent in
    let h = height_of c.size_override (usable_h m) c.height_percent in
    record {
      x = x_for c.edge m.x (usable_w m) w;
      y = y_for c.edge (usable_y m) (usable_h m) h;
      w = w;
      h = h;
    }

pub record ResolvedSlot : Type 0 where
  pub config : DropdownConfig
  pub command : Text

-- The body of the loop at the first slot of that name, where it breaks off.
unfoldable pub apply_slot : DropdownConfig → DropdownSlot → ResolvedSlot
apply_slot c s = record {
  config = record c {
    width_percent = if leb_ℤ (pos 0) s.width_percent then s.width_percent else c.width_percent;
    height_percent = if leb_ℤ (pos 0) s.height_percent then s.height_percent else c.height_percent;
  };
  command = if not (is_empty s.command) then s.command else [];
}

unfoldable pub resolve_in : DropdownConfig → Text → List DropdownSlot → ResolvedSlot
unfolding apply_slot
resolve_in c slot [] = record { config = c; command = [] }
resolve_in c slot (s ∷ ss) = if text_eq s.name slot then apply_slot c s else resolve_in c slot ss

unfoldable pub resolve_dropdown_slot : DropdownConfig → Text → ResolvedSlot
resolve_dropdown_slot c slot = resolve_in c slot c.slots

unfoldable pub learn_resize : Geometry → Geometry → ℤ → ℤ → Bool → Option Geometry
learn_resize placed observed strip_band epsilon observed_floating =
    if not observed_floating
    then none
    else if leb_ℤ observed.w (pos 0)
    then none
    else if leb_ℤ observed.h (pos 0)
    then none
    else if leb_ℤ placed.w (pos 0)
    then none
    else if leb_ℤ placed.h (pos 0)
    then none
    else if ltb_ℤ (pos (abs (observed.w -ℤ placed.w))) epsilon
        && ltb_ℤ (pos (abs (observed.h -ℤ placed.h))) epsilon
    then none
    else some (record { x = pos 0; y = pos 0; w = observed.w; h = observed.h +ℤ strip_band })

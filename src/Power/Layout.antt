-- ===== src/Power/Layout.antt =====
-- power_layout: src/power/power_layout.cpp and its header. `screen_w * 0.8` is exact before the
-- cast to int, so the panel's bound is `screen_w * 4 / 5`. A pointer coordinate, a double, is
-- given by its floor, which passes the same tests against integers.
use waylaunch.Prelude.{ℕ, zero, suc, Bool, ◌&&◌, List, [], ◌∷◌}
use waylaunch.Prelude.Tests.{if◌then◌else◌}
use waylaunch.Prelude.Int.{ℤ, pos, ◌+ℤ◌, ◌-ℤ◌, ◌*ℤ◌, ◌/ℤ◌, ltb_ℤ, leb_ℤ, min_ℤ}

pub record Rect : Type 0 where
  pub x : ℤ
  pub y : ℤ
  pub w : ℤ
  pub h : ℤ

unfoldable pub contains : Rect → ℤ → ℤ → Bool
contains r px py =
    leb_ℤ r.x px && (ltb_ℤ px (r.x +ℤ r.w) && (leb_ℤ r.y py && ltb_ℤ py (r.y +ℤ r.h)))

pub record Hud : Type 0 where
  pub panel : Rect
  pub cards : List Rect
  pub corner_radius : ℤ
  pub icon_size : ℤ
  pub icon_gap_top : ℤ

abbrev pub item_width : ℤ
item_width = pos 104

abbrev pub item_height : ℤ
item_height = pos 104

abbrev pub padding_x : ℤ
padding_x = pos 24

abbrev pub padding_y : ℤ
padding_y = pos 20

-- The loop over the actions from `i` on, with `left` of them to go: it stops at the first card
-- that would cross the panel's right padding.
unfoldable pub place_cards : Rect → ℕ → ℕ → List Rect
place_cards panel i zero = []
place_cards panel i (suc left) =
    let ix = panel.x +ℤ padding_x +ℤ pos i *ℤ item_width in
    let rest = place_cards panel (suc i) left in
    if ltb_ℤ (panel.x +ℤ panel.w -ℤ padding_x) (ix +ℤ item_width)
    then []
    else record { x = ix; y = panel.y +ℤ padding_y; w = item_width; h = item_height } ∷ rest

unfoldable pub hud_panel : ℤ → ℤ → ℕ → Rect
hud_panel screen_w screen_h n =
    let w = min_ℤ (pos n *ℤ item_width +ℤ padding_x *ℤ pos 2) (screen_w *ℤ pos 4 /ℤ 5) in
    let h = item_height +ℤ padding_y *ℤ pos 2 in
    record { x = (screen_w -ℤ w) /ℤ 2; y = (screen_h -ℤ h) /ℤ 2; w = w; h = h }

no_rect : Rect
no_rect = record { x = pos 0; y = pos 0; w = pos 0; h = pos 0 }

-- The number of actions is a size, so `num_actions <= 0` is the case of none.
unfoldable pub hud : ℤ → ℤ → ℕ → Hud
unfolding no_rect
hud screen_w screen_h zero = record {
  panel = no_rect;
  cards = [];
  corner_radius = pos 24;
  icon_size = pos 64;
  icon_gap_top = pos 10;
}
hud screen_w screen_h (suc k) =
    let panel = hud_panel screen_w screen_h (suc k) in
    record {
      panel = panel;
      cards = place_cards panel 0 (suc k);
      corner_radius = pos 24;
      icon_size = pos 64;
      icon_gap_top = pos 10;
    }

pub record Dialog : Type 0 where
  pub card : Rect
  pub cancel : Rect
  pub confirm : Rect
  pub corner_radius : ℤ
  pub pad : ℤ

unfoldable pub dialog : ℤ → ℤ → Dialog
dialog screen_w screen_h =
    let x = (screen_w -ℤ pos 420) /ℤ 2 in
    let y = (screen_h -ℤ pos 316) /ℤ 2 in
    let inner_x = x +ℤ pos 28 in
    let inner_w = pos 420 -ℤ pos 2 *ℤ pos 28 in
    let btn_w = (inner_w -ℤ pos 12) /ℤ 2 in
    let by = y +ℤ pos 316 -ℤ pos 28 -ℤ pos 44 in
    record {
      card = record { x = x; y = y; w = pos 420; h = pos 316 };
      cancel = record { x = inner_x; y = by; w = btn_w; h = pos 44 };
      confirm = record { x = inner_x +ℤ btn_w +ℤ pos 12; y = by; w = btn_w; h = pos 44 };
      corner_radius = pos 28;
      pad = pos 28;
    }

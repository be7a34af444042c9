-- ===== src/Dropdown/Tabs.antt =====
-- TabStrip: src/dropdown/tab_strip.cpp and its header, less `render`, which only draws. The
-- source indexes tabs and rectangles by one counter; here the two lists are walked together.
use waylaunch.Prelude.{ℕ, suc, Bool, ◌&&◌, ◌||◌, List, [], ◌∷◌, ◌++◌}
use waylaunch.Prelude.Tests.{◌==◌, if◌then◌else◌}
use waylaunch.Prelude.Lists.{length, is_empty}
use waylaunch.Prelude.Int.{ℤ, pos, ◌+ℤ◌, ◌*ℤ◌, ◌/ℤ◌, ltb_ℤ, leb_ℤ, max_ℤ}
use waylaunch.Prelude.Text.{Text, codes}

abbrev pub bar_height : ℤ
bar_height = pos 36

abbrev pub min_tab_width : ℤ
min_tab_width = pos 48

pub record Tab : Type 0 where
  pub address : Text
  pub title : Text
  pub is_active : Bool

pub record Rect : Type 0 where
  pub x : ℤ
  pub y : ℤ
  pub w : ℤ
  pub h : ℤ

unfoldable pub contains : Rect → ℤ → ℤ → Bool
contains r px py =
    leb_ℤ r.x px && (ltb_ℤ px (r.x +ℤ r.w) && (leb_ℤ r.y py && ltb_ℤ py (r.y +ℤ r.h)))

unfoldable pub escape_byte : ℕ → Text
escape_byte c =
    if c == b'&'
    then codes "&amp;"
    else if c == b'<'
    then codes "&lt;"
    else if c == b'>'
    then codes "&gt;"
    else c ∷ []

unfoldable pub escape_markup : Text → Text
unfolding escape_byte
escape_markup [] = []
escape_markup (c ∷ s) = escape_byte c ++ escape_markup s

-- The tabs from index `i` on, each as wide as the others.
unfoldable pub tab_rects : ℤ → ℕ → List Tab → List Rect
tab_rects width i [] = []
tab_rects width i (t ∷ ts) =
    record { x = pos i *ℤ width; y = pos 0; w = width; h = bar_height } ∷ tab_rects width (suc i) ts

unfoldable pub tab_width : List Tab → ℤ → ℤ
tab_width tabs total_width = max_ℤ min_tab_width (total_width /ℤ length tabs)

unfoldable pub layout : List Tab → ℤ → List Rect
layout tabs total_width =
    if is_empty tabs || leb_ℤ total_width (pos 0)
    then []
    else tab_rects (tab_width tabs total_width) 0 tabs

unfoldable pub hit_in : List Tab → List Rect → ℤ → ℤ → Text
hit_in [] rects x y = []
hit_in (t ∷ ts) [] x y = []
hit_in (t ∷ ts) (r ∷ rs) x y = if contains r x y then t.address else hit_in ts rs x y

unfoldable pub hit_test : List Tab → ℤ → ℤ → ℤ → Text
hit_test tabs x y total_width =
    if ltb_ℤ y (pos 0) || leb_ℤ bar_height y then [] else hit_in tabs (layout tabs total_width) x y

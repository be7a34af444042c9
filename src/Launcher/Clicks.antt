-- ===== src/Launcher/Clicks.antt =====
-- What relayout and hit_test of src/ui/launcher_ui.cpp promise each other: a click meets the result
-- that is drawn under it.
use waylaunch.Prelude.{ℕ, ◌<◌, ◌≡◌, ◌∙◌, ap, true, false, some, List, arith}
use waylaunch.Prelude.Lists.{length, get_elem?, get_elem?_of_lt}
use waylaunch.Prelude.Int.{ℤ, pos, ◌+ℤ◌, ◌≤ℤ◌, ltb_ℤ, +ℤ_parts}
use waylaunch.Prelude.Text.{Text}
use waylaunch.Launcher.Items.{
  ListItem, SpotlightLayout, RowSlot, Slots, Coordinate, relayout, row_hit, hit_test, in_row, past,
  panel_x,
}
use waylaunch.Launcher.Rows.{
  Stacked_above, Stacked-index, relayout-Stacked, row_hit-Stacked, row_hit_range,
}

-- A layout whose search field, rows, headers and padding have no negative size.
abbrev pub IsSound : SpotlightLayout → Type 0
IsSound l = (pos 0 ≤ℤ l.header_h) × (pos 0 ≤ℤ l.row_h) × (pos 0 ≤ℤ l.pad_x) × (pos 0 ≤ℤ l.search_h)

row_top :
    (l : SpotlightLayout) (r : RowSlot) (t : ℤ)
    → in_row l r t ≡ true
    → pos 0 ≤ℤ l.search_h
    → l.search_h ≤ℤ r.y
    → ltb_ℤ t l.margin_top ≡ false
unfolding in_row
row_top l r t p h a = ground (arith, +ℤ_parts l.margin_top r.y)

row_bottom :
    (l : SpotlightLayout) (r : RowSlot) (t : Coordinate) (b : ℤ)
    → in_row l r t.floor ≡ true
    → r.y +ℤ l.row_h ≤ℤ b
    → past t (l.margin_top +ℤ b) ≡ false
unfolding in_row past
row_bottom l r t b p h = ground (
  arith,
  +ℤ_parts r.y l.row_h,
  +ℤ_parts l.margin_top r.y,
  +ℤ_parts (l.margin_top +ℤ r.y) l.row_h,
  +ℤ_parts l.margin_top b,
)

found :
    (l : SpotlightLayout) (width : ℤ) (x y : Coordinate) (s : Slots) (k : ℕ)
    → hit_test l width x y s ≡ some k
    → row_hit l y.floor s.rows ≡ some k
unfolding hit_test
found l width x y s k e = ground arith

module _ {ℓ} {S : Type ℓ} (l : SpotlightLayout) (query : Text) (items : List (ListItem S)) where
  -- With no negative size in the layout, every item has a row, the rows are in the items' order, each
  -- is below the search field, and none reaches out of the panel.
  pub relayout_rows :
      (k : ℕ)
      → IsSound l
      → k < length items
      → (r : RowSlot) × (get_elem? (relayout l query items).rows k ≡ some r)
        × (r.item_index ≡ k)
        × (l.search_h ≤ℤ r.y)
        × (r.y +ℤ l.row_h ≤ℤ (relayout l query items).bottom)
  relayout_rows k (a, b, c, d) h =
      let s = relayout l query items in
      let (stack, n) = relayout-Stacked l query items a b c in
      let (r, e) = get_elem?_of_lt s.rows k (rw n h) in
      let (above, below) = Stacked_above l 0 l.search_h s.rows s.bottom k r b stack e in
      (r, e, Stacked-index l 0 l.search_h s.rows s.bottom k r stack e ∙ omega arith, above, below)

  -- With no negative size in the layout, a point of the list column at a height within the row of an
  -- item hits that item.
  pub hit_test-relayout :
      (width : ℤ) (x y : Coordinate) (k : ℕ) (r : RowSlot)
      → IsSound l
      → get_elem? (relayout l query items).rows k ≡ some r
      → panel_x l width ≤ℤ x.floor
      → past x (panel_x l width +ℤ l.win_w) ≡ false
      → past x (panel_x l width +ℤ l.list_w) ≡ false
      → in_row l r y.floor ≡ true
      → hit_test l width x y (relayout l query items) ≡ some k
  unfolding hit_test
  hit_test-relayout width x y k r (a, b, c, d) e left right column p =
      let s = relayout l query items in
      let (stack, n) = relayout-Stacked l query items a b c in
      let (above, below) = Stacked_above l 0 l.search_h s.rows s.bottom k r b stack e in
      let hit = row_hit-Stacked l 0 l.search_h s.rows s.bottom k r y.floor b stack e p in
      let left_ok : ltb_ℤ x.floor (panel_x l width) ≡ false = ground arith in
      let top_ok : ltb_ℤ y.floor l.margin_top ≡ false = row_top l r y.floor p d above in
      let bottom_ok : past y (l.margin_top +ℤ s.bottom) ≡ false =
        row_bottom l r y s.bottom p below in
      rw (left_ok, right, top_ok, bottom_ok, column) (hit ∙ ap some (omega arith))

  -- Every hit is on an item that is there.
  pub hit_test_range :
      (width : ℤ) (x y : Coordinate) (k : ℕ)
      → IsSound l
      → hit_test l width x y (relayout l query items) ≡ some k
      → k < length items
  hit_test_range width x y k (a, b, c, d) e =
      let s = relayout l query items in
      let (stack, n) = relayout-Stacked l query items a b c in
      let range =
        row_hit_range l 0 l.search_h s.rows s.bottom y.floor k stack (found l width x y s k e) in
      omega (arith, range, n)

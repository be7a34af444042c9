-- ===== src/Launcher/Items.antt =====
-- The results of the launcher: include/waylaunch/list_item.h, the layout of their rows and the hit
-- test of src/ui/launcher_ui.cpp. A score is of a type `S`.
use waylaunch.Prelude.{ℕ, suc, Bool, true, false, ◌&&◌, Option, none, some, List, [], ◌∷◌}
use waylaunch.Prelude.Tests.{◌==◌, if◌then◌else◌}
use waylaunch.Prelude.Lists.{is_empty}
use waylaunch.Prelude.Int.{ℤ, pos, ◌+ℤ◌, ◌-ℤ◌, ◌/ℤ◌, ltb_ℤ, leb_ℤ, max_ℤ}
use waylaunch.Prelude.Text.{Text, codes}

pub data ItemKind : Type 0 where
  application file folder calculator command content history : ItemKind

pub record ListItem {ℓ} (S : Type ℓ) : Type ℓ where
  pub name : Text
  pub path : Text
  pub description : Text
  pub icon_name : Text
  pub action_command : Text
  pub reveal_path : Text
  pub snippet : Text
  pub kind : ItemKind
  pub score : S

pub record SpotlightLayout : Type 0 where
  pub win_w : ℤ
  pub margin_top : ℤ
  pub search_h : ℤ
  pub row_h : ℤ
  pub pad_x : ℤ
  pub max_per_group : ℤ
  pub header_h : ℤ
  pub list_w : ℤ

abbrev pub spotlight : SpotlightLayout
spotlight = record {
  win_w = pos 720;
  margin_top = pos 150;
  search_h = pos 64;
  row_h = pos 56;
  pad_x = pos 14;
  max_per_group = pos 6;
  header_h = pos 24;
  list_w = pos 402;
}

pub record RowSlot : Type 0 where
  pub item_index : ℕ
  pub y : ℤ
  pub hero : Bool

pub record HeaderSlot : Type 0 where
  pub label : Text
  pub y : ℤ

unfoldable pub category : ItemKind → ℕ
category ItemKind.application = 0
category ItemKind.command = 0
category ItemKind.calculator = 0
category ItemKind.file = 1
category ItemKind.folder = 1
category ItemKind.content = 2
category ItemKind.history = 3

unfoldable pub cat_label : ℕ → Text
cat_label c =
    if c == 0
    then codes "APPLICATIONS"
    else if c == 1
    then codes "FILES & FOLDERS"
    else if c == 2
    then codes "CONTENTS"
    else codes "RECENT SEARCHES"

-- What relayout computes: the rows, the headers, and the height behind the last of them.
pub record Slots : Type 0 where
  pub rows : List RowSlot
  pub headers : List HeaderSlot
  pub bottom : ℤ

abbrev no_slots : ℤ → Slots
no_slots y = record { rows = []; headers = []; bottom = y }

abbrev with_row : RowSlot → Slots → Slots
with_row r s = record s { rows = r ∷ s.rows }

abbrev with_header : HeaderSlot → Slots → Slots
with_header h s = record s { headers = h ∷ s.headers }

abbrev row_at : ℕ → ℤ → RowSlot
row_at i y = record { item_index = i; y = y; hero = false }

module _ {ℓ} {S : Type ℓ} (l : SpotlightLayout) where
  -- The two loops over the items behind the first: within a section, and from one to the next.
  unfoldable pub place_section : ℕ → ℕ → ℤ → List (ListItem S) → Slots
  place_section cat i y [] = no_slots (y +ℤ pos 6)
  place_section cat i y (it ∷ items) =
      let same = with_row (row_at i y) (place_section cat (suc i) (y +ℤ l.row_h) items) in
      let below = y +ℤ pos 6 +ℤ l.header_h in
      let next =
        with_header (record { label = cat_label (category it.kind); y = y +ℤ pos 6 })
          (with_row (row_at i below)
            (place_section (category it.kind) (suc i) (below +ℤ l.row_h) items)) in
      if category it.kind == cat then same else next

  unfoldable pub place_sections : ℕ → ℤ → List (ListItem S) → Slots
  unfolding place_section
  place_sections i y [] = no_slots y
  place_sections i y (it ∷ items) =
      with_header (record { label = cat_label (category it.kind); y = y })
        (with_row (row_at i (y +ℤ l.header_h))
          (place_section (category it.kind) (suc i) (y +ℤ l.header_h +ℤ l.row_h) items))

  -- The rows, the headers and panel_total_h of the items.
  unfoldable pub relayout : Text → List (ListItem S) → Slots
  unfolding place_sections
  relayout query [] = no_slots (if is_empty query then l.search_h else l.search_h +ℤ l.row_h)
  relayout query (it ∷ items) =
      let y = l.search_h +ℤ pos 8 in
      let sections = place_sections 1 (y +ℤ l.header_h +ℤ l.row_h +ℤ pos 6) items in
      record {
        rows = record { item_index = 0; y = y +ℤ l.header_h; hero = true } ∷ sections.rows;
        headers = record { label = codes "TOP HIT"; y = y } ∷ sections.headers;
        bottom = max_ℤ (sections.bottom +ℤ l.pad_x) (l.search_h +ℤ pos 240);
      }

-- A pointer coordinate: its floor, and whether it is a whole number.
pub record Coordinate : Type 0 where
  pub floor : ℤ
  pub whole : Bool

-- `x > n`.
unfoldable pub past : Coordinate → ℤ → Bool
past x n = if x.whole then ltb_ℤ n x.floor else leb_ℤ n x.floor

module _ (l : SpotlightLayout) where
  unfoldable pub in_row : RowSlot → ℤ → Bool
  in_row r y = leb_ℤ (l.margin_top +ℤ r.y) y && ltb_ℤ y (l.margin_top +ℤ r.y +ℤ l.row_h)

  -- The index of the row at a height of the surface.
  unfoldable pub row_hit : ℤ → List RowSlot → Option ℕ
  row_hit y [] = none
  row_hit y (r ∷ rows) =
      let below = row_hit y rows in if in_row r y then some r.item_index else below

module _ (l : SpotlightLayout) (surface_width : ℤ) where
  abbrev pub panel_x : ℤ
  panel_x = (surface_width -ℤ l.win_w) /ℤ 2

  unfoldable pub hit_test : Coordinate → Coordinate → Slots → Option ℕ
  unfolding row_hit past
  hit_test x y s =
      if ltb_ℤ x.floor panel_x
      then none
      else if past x (panel_x +ℤ l.win_w)
      then none
      else if ltb_ℤ y.floor l.margin_top
      then none
      else if past y (l.margin_top +ℤ s.bottom)
      then none
      else if past x (panel_x +ℤ l.list_w)
      then none
      else row_hit l y.floor s.rows

-- ===== src/Power/LayoutBounds.antt =====
-- Where the overlay's cards and buttons lie, and what the pointer finds there.
use waylaunch.Prelude.{
  ℕ, zero, suc, ◌+◌, ◌*◌, ◌<◌, ◌≡◌, refl, ap, ◌∙◌, ◌⊎◌, inl, inr, true, false, ◌&&◌, some, arith,
}
use waylaunch.Prelude.Tests.{Bool-cases}
use waylaunch.Prelude.Lists.{length, get_elem?}
use waylaunch.Prelude.Int.{ℤ, pos, pos_part, neg_part, ◌+ℤ◌, ◌-ℤ◌, ◌*ℤ◌, ◌/ℤ◌, ◌≤ℤ◌, ◌<ℤ◌, int_laws}
use waylaunch.Power.Layout.{
  Rect, contains, hud, hud_panel, place_cards, dialog, item_width, item_height, padding_x,
  padding_y,
}
use Prim.Native.Nat.add
use waylaunch.Power.StateMachine.{PowerState, is_active, is_confirm_open}
use waylaunch.Power.Manager.{PowerManager, jump_to}
use waylaunch.Power.Controller.{Controller, card_at, activate, handle_pointer_click, grid_click}

-- One rectangle within another.
pub record IsWithin (r outer : Rect) : Type 0 where
  pub left : outer.x ≤ℤ r.x
  pub right : r.x +ℤ r.w ≤ℤ outer.x +ℤ outer.w
  pub top : outer.y ≤ℤ r.y
  pub bottom : r.y +ℤ r.h ≤ℤ outer.y +ℤ outer.h

abbrev card_from : ℤ → ℤ → Rect
card_from a b = record { x = a; y = b; w = pos 420; h = pos 316 }

abbrev button_from : ℤ → ℤ → Rect
button_from a b = record { x = a; y = b +ℤ pos 316 -ℤ pos 28 -ℤ pos 44; w = pos 176; h = pos 44 }

confirm-IsWithin :
    (a b : ℤ) → IsWithin (button_from (a +ℤ pos 28 +ℤ pos 176 +ℤ pos 12) b) (card_from a b)
confirm-IsWithin a b = record {
  left = omega int_laws;
  right = omega int_laws;
  top = omega int_laws;
  bottom = omega int_laws;
}

cancel-IsWithin : (a b : ℤ) → IsWithin (button_from (a +ℤ pos 28) b) (card_from a b)
cancel-IsWithin a b = record {
  left = omega int_laws;
  right = omega int_laws;
  top = omega int_laws;
  bottom = omega int_laws;
}

-- A point inside is right of the left edge and left of the right edge.
contains_bounds : (r : Rect) (x y : ℤ) → contains r x y ≡ true → (r.x ≤ℤ x) × (x <ℤ r.x +ℤ r.w)
unfolding contains
contains_bounds r x y h = ground arith

-- A point left of a rectangle, or right of it, is not inside.
contains_beside : (r : Rect) (x y : ℤ) → (x <ℤ r.x) ⊎ (r.x +ℤ r.w ≤ℤ x) → contains r x y ≡ false
unfolding contains
contains_beside r x y h = ground arith

button_width : (pos 420 -ℤ pos 2 *ℤ pos 28 -ℤ pos 12) /ℤ 2 ≡ pos 176
unfolding ◌-ℤ◌ ◌*ℤ◌ ◌/ℤ◌
button_width = refl

apart :
    (a b x y : ℤ)
    → (contains (button_from (a +ℤ pos 28) b) x y
        && contains (button_from (a +ℤ pos 28 +ℤ pos 176 +ℤ pos 12) b) x y)
      ≡ false
apart a b x y = elim (Bool-cases (contains (button_from (a +ℤ pos 28) b) x y)) [
  | inl h ↦ rw (
    h,
    contains_beside (button_from (a +ℤ pos 28 +ℤ pos 176 +ℤ pos 12) b) x y
        (inl (omega (int_laws, contains_bounds (button_from (a +ℤ pos 28) b) x y h))),
  )
  | inr h ↦ rw h
]

-- On every screen the two buttons lie within the card of the dialog, and no point is in both.
pub dialog_buttons :
    (sw sh x y : ℤ)
    → let d = dialog sw sh in
      IsWithin d.confirm d.card
      × IsWithin d.cancel d.card
      × ((contains d.cancel x y && contains d.confirm x y) ≡ false)
unfolding dialog
dialog_buttons sw sh x y =
    let a = (sw -ℤ pos 420) /ℤ 2 in
    let b = (sh -ℤ pos 316) /ℤ 2 in
    rw button_width (confirm-IsWithin a b, cancel-IsWithin a b, apart a b x y)

scaled : (i : ℕ) → pos i *ℤ item_width ≡ pos (i * 104)
unfolding ◌*ℤ◌
scaled i = ground arith

-- The place of the card with index `i`.
pub place_cards_at :
    (panel : Rect) (j n i : ℕ) (r : Rect)
    → get_elem? (place_cards panel j n) i ≡ some r
    → (i < n)
      × (r.x ≡ panel.x +ℤ padding_x +ℤ pos ((j + i) * 104))
      × (r.y ≡ panel.y +ℤ padding_y)
      × (r.w ≡ item_width)
      × (r.h ≡ item_height)
      × (r.x +ℤ item_width ≤ℤ panel.x +ℤ panel.w -ℤ padding_x)
unfolding place_cards
place_cards_at panel j zero i r h = cc
place_cards_at panel j (suc n) zero r h = ground (arith, scaled j)
place_cards_at panel j (suc n) (suc i) r h = ground (arith, place_cards_at panel (suc j) n i r)

abbrev card : Rect → ℕ → Rect
card panel j = record {
  x = panel.x +ℤ padding_x +ℤ pos j *ℤ item_width;
  y = panel.y +ℤ padding_y;
  w = item_width;
  h = item_height;
}

-- A point in a later card is right of an earlier one.
later_card :
    (panel : Rect) (j i : ℕ) (r : Rect) (x y : ℤ)
    → r.x ≡ panel.x +ℤ padding_x +ℤ pos ((suc j + i) * 104)
    → contains r x y ≡ true
    → contains (card panel j) x y ≡ false
later_card panel j i r x y e p = contains_beside (card panel j) x y (
    inr (
      omega (
        int_laws,
        contains_bounds r x y p,
        ap pos_part e,
        ap neg_part e,
        ap pos_part (scaled j),
        ap neg_part (scaled j),
      )))

-- The card with index `i` is the one that the pointer finds at each point in it.
pub card_at_card :
    (panel : Rect) (j n i : ℕ) (r : Rect) (x y : ℤ)
    → get_elem? (place_cards panel j n) i ≡ some r
    → contains r x y ≡ true
    → card_at (place_cards panel j n) j x y ≡ some (j + i)
unfolding place_cards card_at
card_at_card panel j zero i r x y h p = cc
card_at_card panel j (suc n) zero r x y h p = ground arith
card_at_card panel j (suc n) (suc i) r x y h p = ground (
  arith,
  card_at_card panel (suc j) n i r x y,
  place_cards_at panel (suc j) n i r,
  later_card panel j i r x y,
)

panel_height : (sw sh : ℤ) (n : ℕ) → (hud_panel sw sh n).h ≡ pos 144
unfolding hud_panel ◌+ℤ◌ ◌*ℤ◌
panel_height sw sh n = refl

hud_IsWithin :
    (panel : Rect) (i : ℕ) (r : Rect)
    → panel.h ≡ pos 144
    → r.x ≡ panel.x +ℤ padding_x +ℤ pos (i * 104)
    → r.y ≡ panel.y +ℤ padding_y
    → r.w ≡ item_width
    → r.h ≡ item_height
    → r.x +ℤ item_width ≤ℤ panel.x +ℤ panel.w -ℤ padding_x
    → IsWithin r panel
hud_IsWithin panel i r ph ex ey ew eh b = record {
  left = omega (int_laws, ap pos_part ex, ap neg_part ex);
  right = rw ew (omega int_laws);
  top = omega (int_laws, ap pos_part ey, ap neg_part ey);
  bottom = rw (eh, ph) (omega (int_laws, ap pos_part ey, ap neg_part ey));
}

-- Every card that the HUD shows belongs to an action, and lies within the panel.
pub hud_cards :
    (sw sh : ℤ) (n i : ℕ) (r : Rect)
    → get_elem? (hud sw sh n).cards i ≡ some r
    → (i < n) × IsWithin r (hud sw sh n).panel
unfolding hud
hud_cards sw sh zero i r h = cc
hud_cards sw sh (suc k) i r h =
    let (lt, ex, ey, ew, eh, b) = place_cards_at (hud_panel sw sh (suc k)) 0 (suc k) i r h in
    (lt, hud_IsWithin _ i r (panel_height sw sh (suc k)) (rw add.zero at ex) ey ew eh b)

pub card_at-hud :
    (sw sh : ℤ) (n i : ℕ) (r : Rect) (x y : ℤ)
    → get_elem? (hud sw sh n).cards i ≡ some r
    → contains r x y ≡ true
    → card_at (hud sw sh n).cards 0 x y ≡ some i
unfolding hud
card_at-hud sw sh zero i r x y h p = cc
card_at-hud sw sh (suc k) i r x y h p =
    rw add.zero at (card_at_card (hud_panel sw sh (suc k)) 0 (suc k) i r x y h p)

grid_click_hit :
    (c : Controller) (now x y sw sh : ℤ) (i : ℕ)
    → card_at (hud sw sh (length c.manager.actions)).cards 0 x y ≡ some i
    → grid_click c now x y sw sh ≡ activate (record c { manager = jump_to c.manager i }) now
unfolding grid_click
grid_click_hit c now x y sw sh i e = rw (e, grid_click) refl

click_active :
    (c : Controller) (now x y sw sh : ℤ)
    → c.state ≡ PowerState.active
    → handle_pointer_click c now x y sw sh ≡ grid_click c now x y sw sh
unfolding handle_pointer_click is_active is_confirm_open
click_active c now x y sw sh s = ground arith

jump_to-selected :
    (m : PowerManager) (i : ℕ) → i < length m.actions → (jump_to m i).selected_index ≡ i
unfolding jump_to
jump_to-selected m i h = ground arith

-- In the picker a click anywhere in the card of an action selects that action and activates it.
pub click_card :
    (c : Controller) (now x y sw sh : ℤ) (i : ℕ) (r : Rect)
    → c.state ≡ PowerState.active
    → get_elem? (hud sw sh (length c.manager.actions)).cards i ≡ some r
    → contains r x y ≡ true
    → let c' = record c { manager = jump_to c.manager i } in
      (handle_pointer_click c now x y sw sh ≡ activate c' now) × (c'.manager.selected_index ≡ i)
click_card c now x y sw sh i r s h p =
    let hit = card_at-hud sw sh (length c.manager.actions) i r x y h p in
    let (lt, _) = hud_cards sw sh (length c.manager.actions) i r h in
    (
      click_active c now x y sw sh s ∙ grid_click_hit c now x y sw sh i hit,
      jump_to-selected c.manager i lt,
    )

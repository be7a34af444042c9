-- ===== src/Launcher/Rows.antt =====
-- The rows of the launcher's results, as relayout of src/ui/launcher_ui.cpp places them, and what a
-- click on one of them finds.
use waylaunch.Prelude.{
  ℕ, zero, suc, ◌+◌, ◌<◌, ◌≡◌, refl, sym, ◌∙◌, ap, inl, inr, true, false, some, List, [], ◌∷◌,
  arith,
}
use waylaunch.Prelude.Tests.{some_injective, ◌==◌, Bool-cases}
use waylaunch.Prelude.Lists.{length, get_elem?, is_empty}
use waylaunch.Prelude.Int.{ℤ, pos, ◌+ℤ◌, ◌≤ℤ◌, int_laws, max_ℤ, +ℤ_parts}
use waylaunch.Prelude.Text.{Text}
use waylaunch.Launcher.Items.{
  ListItem, SpotlightLayout, RowSlot, category, place_section, place_sections, relayout, row_hit,
  in_row,
}

module _ (l : SpotlightLayout) where
  -- Rows numbered from `i`, each under the one before it, between two heights.
  abbrev pub Stacked : ℕ → ℤ → List RowSlot → ℤ → Type 0
  Stacked i y [] b = y ≤ℤ b
  Stacked i y (r ∷ rows) b =
      (r.item_index ≡ i) × (y ≤ℤ r.y) × Stacked (suc i) (r.y +ℤ l.row_h) rows b

  Stacked-raise :
      (i : ℕ) (y z : ℤ) (rows : List RowSlot) (b : ℤ)
      → y ≤ℤ z
      → Stacked i z rows b
      → Stacked i y rows b
  Stacked-raise i y z [] b h s = omega arith
  Stacked-raise i y z (r ∷ rows) b h (n, a, s) = (n, omega arith, s)

  Stacked-lower :
      (i : ℕ) (y b c : ℤ) (rows : List RowSlot) → b ≤ℤ c → Stacked i y rows b → Stacked i y rows c
  Stacked-lower i y b c [] h s = omega arith
  Stacked-lower i y b c (r ∷ rows) h (n, a, s) =
      (n, a, Stacked-lower (suc i) (r.y +ℤ l.row_h) b c rows h s)

  Stacked_span :
      (i : ℕ) (y : ℤ) (rows : List RowSlot) (b : ℤ) → pos 0 ≤ℤ l.row_h → Stacked i y rows b → y ≤ℤ b
  Stacked_span i y [] b w s = s
  Stacked_span i y (r ∷ rows) b w (n, a, s) =
      let h = Stacked_span (suc i) (r.y +ℤ l.row_h) rows b w s in
      omega (arith, +ℤ_parts r.y l.row_h)

  -- A row is not above the height that its list starts at.
  pub Stacked_above :
      (i : ℕ) (y : ℤ) (rows : List RowSlot) (b : ℤ) (k : ℕ) (r : RowSlot)
      → pos 0 ≤ℤ l.row_h
      → Stacked i y rows b
      → get_elem? rows k ≡ some r
      → (y ≤ℤ r.y) × (r.y +ℤ l.row_h ≤ℤ b)
  Stacked_above i y [] b k r w s h = cc
  Stacked_above i y (r0 ∷ rows) b zero r w (n, a, s) h =
      let e : r0 ≡ r = some_injective r0 r h in
      let bounds : (y ≤ℤ r0.y) × (r0.y +ℤ l.row_h ≤ℤ b) =
        (a, Stacked_span (suc i) (r0.y +ℤ l.row_h) rows b w s) in
      rw e at bounds
  Stacked_above i y (r0 ∷ rows) b (suc k) r w (n, a, s) h =
      let (p, q) = Stacked_above (suc i) (r0.y +ℤ l.row_h) rows b k r w s h in
      (omega (arith, +ℤ_parts r0.y l.row_h), q)

  -- The rows of a stack have the indexes in order.
  pub Stacked-index :
      (i : ℕ) (y : ℤ) (rows : List RowSlot) (b : ℤ) (k : ℕ) (r : RowSlot)
      → Stacked i y rows b
      → get_elem? rows k ≡ some r
      → r.item_index ≡ i + k
  Stacked-index i y [] b k r s h = cc
  Stacked-index i y (r0 ∷ rows) b zero r (n, a, s) h =
      let e : r0 ≡ r = some_injective r0 r h in rw e at n ∙ omega arith
  Stacked-index i y (r0 ∷ rows) b (suc k) r (n, a, s) h =
      Stacked-index (suc i) (r0.y +ℤ l.row_h) rows b k r s h ∙ omega arith

  grown : (b : ℤ) → pos 0 ≤ℤ l.pad_x → b ≤ℤ max_ℤ (b +ℤ l.pad_x) (l.search_h +ℤ pos 240)
  unfolding max_ℤ
  grown b u = ground (arith, +ℤ_parts b l.pad_x)

  module _ {ℓ} {S : Type ℓ} where
    place_section-Stacked :
        (cat i : ℕ) (y : ℤ) (items : List (ListItem S))
        → pos 0 ≤ℤ l.header_h
        → let s = place_section l cat i y items in
          Stacked i y s.rows s.bottom × (length s.rows ≡ length items)
    unfolding place_section
    place_section-Stacked cat i y [] w = (omega (arith, +ℤ_parts y (pos 6)), refl)
    place_section-Stacked cat i y (it ∷ items) w =
        let (a, n) = place_section-Stacked cat (suc i) (y +ℤ l.row_h) items w in
        let below = y +ℤ pos 6 +ℤ l.header_h in
        let (c, m) = place_section-Stacked (category it.kind) (suc i) (below +ℤ l.row_h) items w in
        elim (Bool-cases (category it.kind == cat)) [
          | inl e ↦ rw (e, place_section) ((refl, omega arith, a), ap suc n)
          | inr e ↦ rw (e, place_section) ((refl, grind int_laws, c), ap suc m)
        ]

    place_sections-Stacked :
        (i : ℕ) (y : ℤ) (items : List (ListItem S))
        → pos 0 ≤ℤ l.header_h
        → let s = place_sections l i y items in
          Stacked i y s.rows s.bottom × (length s.rows ≡ length items)
    unfolding place_sections
    place_sections-Stacked i y [] w = (omega arith, refl)
    place_sections-Stacked i y (it ∷ items) w =
        let (a, n) =
          place_section-Stacked (category it.kind) (suc i) (y +ℤ l.header_h +ℤ l.row_h) items w in
        ((refl, omega (arith, +ℤ_parts y l.header_h), a), ap suc n)

    pub relayout-Stacked :
        (query : Text) (items : List (ListItem S))
        → pos 0 ≤ℤ l.header_h
        → pos 0 ≤ℤ l.row_h
        → pos 0 ≤ℤ l.pad_x
        → let s = relayout l query items in
          Stacked 0 l.search_h s.rows s.bottom × (length s.rows ≡ length items)
    unfolding relayout
    relayout-Stacked query [] w v u = (
      elim (Bool-cases (is_empty query)) [
        | inl e ↦ rw e (omega arith)
        | inr e ↦ rw e (omega (arith, +ℤ_parts l.search_h l.row_h))
      ],
      refl,
    )
    relayout-Stacked query (it ∷ items) w v u =
        let y = l.search_h +ℤ pos 8 in
        let from = y +ℤ l.header_h +ℤ l.row_h +ℤ pos 6 in
        let s = place_sections l 1 from items in
        let (a, n) = place_sections-Stacked 1 from items w in
        let top : y +ℤ l.header_h +ℤ l.row_h ≤ℤ from =
          omega (arith, +ℤ_parts (y +ℤ l.header_h +ℤ l.row_h) (pos 6)) in
        let all = Stacked-raise 1 (y +ℤ l.header_h +ℤ l.row_h) from s.rows s.bottom top a in
        (
          (
            refl,
            omega (arith, +ℤ_parts l.search_h (pos 8), +ℤ_parts y l.header_h),
            Stacked-lower 1 (y +ℤ l.header_h +ℤ l.row_h) s.bottom
                (max_ℤ (s.bottom +ℤ l.pad_x) (l.search_h +ℤ pos 240)) s.rows (grown s.bottom u) all,
          ),
          ap suc n,
        )

-- A height within a row is not within a row above it.
row_above :
    (l : SpotlightLayout) (r0 r : RowSlot) (t : ℤ)
    → r0.y +ℤ l.row_h ≤ℤ r.y
    → in_row l r t ≡ true
    → in_row l r0 t ≡ false
unfolding in_row
row_above l r0 r t h p = ground (
  arith,
  +ℤ_parts r0.y l.row_h,
  +ℤ_parts l.margin_top r0.y,
  +ℤ_parts l.margin_top r.y,
  +ℤ_parts (l.margin_top +ℤ r0.y) l.row_h,
  p,
)

pub row_hit-Stacked :
    (l : SpotlightLayout) (i : ℕ) (y : ℤ) (rows : List RowSlot) (b : ℤ) (k : ℕ) (r : RowSlot)
    (t : ℤ)
    → pos 0 ≤ℤ l.row_h
    → Stacked l i y rows b
    → get_elem? rows k ≡ some r
    → in_row l r t ≡ true
    → row_hit l t rows ≡ some (i + k)
unfolding row_hit
row_hit-Stacked l i y [] b k r t w s h p = cc
row_hit-Stacked l i y (r0 ∷ rows) b zero r t w (n, a, s) h p =
    let e : r0 ≡ r = some_injective r0 r h in rw (e, p) (rw (sym e, n) (ap some (omega arith)))
row_hit-Stacked l i y (r0 ∷ rows) b (suc k) r t w (n, a, s) h p =
    let (above, below) = Stacked_above l (suc i) (r0.y +ℤ l.row_h) rows b k r w s h in
    let shift : suc i + k ≡ i + suc k = omega arith in
    rw (row_above l r0 r t above p, row_hit)
      (row_hit-Stacked l (suc i) (r0.y +ℤ l.row_h) rows b k r t w s h p ∙ ap some shift)

-- What a height hits is the index of a row that is there.
pub row_hit_range :
    (l : SpotlightLayout) (i : ℕ) (y : ℤ) (rows : List RowSlot) (b t : ℤ) (k : ℕ)
    → Stacked l i y rows b
    → row_hit l t rows ≡ some k
    → k < i + length rows
unfolding row_hit
row_hit_range l i y [] b t k s h = cc
row_hit_range l i y (r ∷ rows) b t k (n, a, s) h = elim (Bool-cases (in_row l r t)) [
  | inl e ↦ let same : k ≡ i = some_injective k i (sym (rw (e, n, row_hit) at h)) in omega arith
  | inr e ↦
      let rest = row_hit_range l (suc i) (r.y +ℤ l.row_h) rows b t k s (rw (e, row_hit) at h) in
      omega arith
]

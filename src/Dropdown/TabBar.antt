-- ===== src/Dropdown/TabBar.antt =====
-- What a click on the tab strip finds, and the markup of its titles.
use waylaunch.Prelude.{
  ℕ, zero, suc, ◌+◌, ◌*◌, ◌/◌, ◌<◌, ◌≡◌, ◌≢◌, refl, ap, sym, ◌↔◌, ◌∙◌, true, false, some, List, [],
  ◌∷◌, ◌++◌, arith,
}
use Prim.Native.Nat.add
use Prim.Native.Nat.{max}
use waylaunch.Prelude.Lists.{length, get_elem?, All}
use waylaunch.Prelude.Int.{ℤ, pos, ◌*ℤ◌, ◌/ℤ◌, ◌≤ℤ◌, ◌<ℤ◌, max_ℤ, +ℤ_parts, mul_pos}
use waylaunch.Prelude.Text.{Text}
use waylaunch.Dropdown.Tabs.{
  Tab, contains, bar_height, escape_markup, escape_byte, tab_rects, tab_width, layout, hit_in,
  hit_test,
}

-- The strip's tabs are `w` wide, one after the other.
abbrev Column : ℕ → ℕ → ℤ → Type 0
Column w k x = (pos (k * w) ≤ℤ x) × (x <ℤ pos (k * w + w))

in-Column :
    (w k : ℕ) (x y : ℤ)
    → Column w k x
    → pos 0 ≤ℤ y
    → y <ℤ bar_height
    → contains (record { x = pos k *ℤ pos w; y = pos 0; w = pos w; h = bar_height }) x y ≡ true
unfolding contains
in-Column w k x y c l u =
    ground (arith, mul_pos k w, +ℤ_parts (pos (k * w)) (pos w), +ℤ_parts (pos 0) (pos 36))

columns_apart : (w k j : ℕ) → suc (k + j) * w ≡ k * w + w + j * w
columns_apart w k j = omega arith

-- A point in a later column, or right of all, is not in an earlier one.
after_column :
    (w k j : ℕ) (x y : ℤ)
    → pos (suc (k + j) * w) ≤ℤ x
    → contains (record { x = pos k *ℤ pos w; y = pos 0; w = pos w; h = bar_height }) x y ≡ false
unfolding contains
after_column w k j x y c =
    ground (arith, mul_pos k w, +ℤ_parts (pos (k * w)) (pos w), columns_apart w k j)

hit_in-Column :
    (w i k : ℕ) (tabs : List Tab) (t : Tab) (x y : ℤ)
    → get_elem? tabs k ≡ some t
    → Column w (i + k) x
    → pos 0 ≤ℤ y
    → y <ℤ bar_height
    → hit_in tabs (tab_rects (pos w) i tabs) x y ≡ t.address
unfolding hit_in tab_rects
hit_in-Column w i k [] t x y h c l u = cc
hit_in-Column w i zero (s ∷ tabs) t x y h c l u =
    let here : i + zero ≡ i = omega arith in
    rw (in-Column w i x y (rw here at c) l u) (ground arith)
hit_in-Column w i (suc k) (s ∷ tabs) t x y h c l u =
    let next : i + suc k ≡ suc i + k = omega arith in
    let c' : Column w (suc i + k) x = rw next at c in
    let far : pos (suc (i + k) * w) ≤ℤ x = (rw (add.suc i k) at c').0 in
    rw (after_column w i k x y far) (hit_in-Column w (suc i) k tabs t x y h c' l u)

hit_in_beyond :
    (w i : ℕ) (tabs : List Tab) (x y : ℤ)
    → pos ((i + length tabs) * w) ≤ℤ x
    → hit_in tabs (tab_rects (pos w) i tabs) x y ≡ []
unfolding hit_in tab_rects
hit_in_beyond w i [] x y h = refl
hit_in_beyond w i (s ∷ tabs) x y h =
    let next : i + suc (length tabs) ≡ suc i + length tabs = omega arith in
    let h' : pos ((suc i + length tabs) * w) ≤ℤ x = rw next at h in
    let far : pos (suc (i + length tabs) * w) ≤ℤ x = rw (add.suc i (length tabs)) at h' in
    rw (after_column w i (length tabs) x y far) (hit_in_beyond w (suc i) tabs x y h')

-- The width of a tab of a strip that is `n` pixels wide.
abbrev pub width : List Tab → ℕ → ℕ
width tabs n = max 48 (n / length tabs)

tab_width-pos : (tabs : List Tab) (n : ℕ) → tab_width tabs (pos n) ≡ pos (width tabs n)
unfolding tab_width ◌/ℤ◌ max_ℤ
tab_width-pos tabs n = ground arith

hit_test-layout :
    (tabs : List Tab) (t : Tab) (n : ℕ) (x y : ℤ)
    → 0 < n
    → pos 0 ≤ℤ y
    → y <ℤ bar_height
    → hit_test (t ∷ tabs) x y (pos n)
      ≡ hit_in (t ∷ tabs) (tab_rects (pos (width (t ∷ tabs) n)) 0 (t ∷ tabs)) x y
unfolding hit_test layout
hit_test-layout tabs t n x y h l u = ground (arith, tab_width-pos (t ∷ tabs) n)

-- On a strip that is `n` pixels wide each tab takes max(48, n / count) pixels: a point of the
-- strip in the column of the tab with index `k` finds that tab's address.
pub hit_test_column :
    (tabs : List Tab) (k n : ℕ) (t : Tab) (x y : ℤ)
    → get_elem? tabs k ≡ some t
    → 0 < n
    → pos (k * width tabs n) ≤ℤ x
    → x <ℤ pos (k * width tabs n + width tabs n)
    → pos 0 ≤ℤ y
    → y <ℤ bar_height
    → hit_test tabs x y (pos n) ≡ t.address
hit_test_column [] k n t x y h p a b l u = cc
hit_test_column (s ∷ tabs) k n t x y h p a b l u =
    hit_test-layout tabs s n x y p l u
    ∙ hit_in-Column (width (s ∷ tabs) n) 0 k (s ∷ tabs) t x y h (rw (add.zero k) (a, b)) l u

hit_in-gap :
    (tabs : List Tab) (t : Tab) (n : ℕ) (x y : ℤ)
    → pos (suc (length tabs) * width (t ∷ tabs) n) ≤ℤ x
    → pos ((0 + length (t ∷ tabs)) * width (t ∷ tabs) n) ≤ℤ x
hit_in-gap tabs t n x y h = rw (add.zero (suc (length tabs))) h

-- Right of the last tab there is nothing, which can be within the strip: the division leaves up
-- to count - 1 pixels that belong to no tab.
pub hit_test_beyond :
    (tabs : List Tab) (n : ℕ) (x y : ℤ)
    → pos (length tabs * width tabs n) ≤ℤ x
    → 0 < n
    → pos 0 ≤ℤ y
    → y <ℤ bar_height
    → hit_test tabs x y (pos n) ≡ []
unfolding hit_test hit_in
hit_test_beyond [] n x y a p l u = ground arith
hit_test_beyond (s ∷ tabs) n x y a p l u =
    hit_test-layout tabs s n x y p l u
    ∙ hit_in_beyond (width (s ∷ tabs) n) 0 (s ∷ tabs) x y (hit_in-gap tabs s n x y a)

same_byte : (c d : ℕ) (s t : Text) → escape_byte c ++ s ≡ escape_byte d ++ t → (c ≡ d) × (s ≡ t)
unfolding escape_byte
same_byte c d s t h = ground arith

byte_nonempty : (c : ℕ) (s : Text) → escape_byte c ++ s ≢ []
unfolding escape_byte
byte_nonempty c s h = ground arith

escape_injective : (s t : Text) → escape_markup s ≡ escape_markup t → s ≡ t
unfolding escape_markup
escape_injective [] [] h = refl
escape_injective [] (d ∷ t) h = absurd (byte_nonempty d (escape_markup t) (sym h))
escape_injective (c ∷ s) [] h = absurd (byte_nonempty c (escape_markup s) h)
escape_injective (c ∷ s) (d ∷ t) h =
    let (e, r) = same_byte c d (escape_markup s) (escape_markup t) h in
    cc (e, escape_injective s t r)

abbrev pub IsPlainByte : ℕ → Type 0
IsPlainByte c = (c ≢ b'<') × (c ≢ b'>')

byte-All : (c : ℕ) (s : Text) → All IsPlainByte s → All IsPlainByte (escape_byte c ++ s)
unfolding escape_byte
byte-All c s h = ground arith

escape-All : (s : Text) → All IsPlainByte (escape_markup s)
unfolding escape_markup
escape-All [] = tt
escape-All (c ∷ s) = byte-All c (escape_markup s) (escape-All s)

-- Escaped titles hold no angle bracket, and titles that differ stay different.
pub escape_markup_lem :
    (s t : Text)
    → All IsPlainByte (escape_markup s) × ((escape_markup s ≡ escape_markup t) ↔ (s ≡ t))
escape_markup_lem s t = (escape-All s, (escape_injective s t, λ e. ap escape_markup e))

-- ===== src/Content/Cover.antt =====
-- The tokenizer "wl" cuts a token into pieces that cover it.
use waylaunch.Prelude.{
  ℕ, zero, suc, ◌+◌, ◌-◌, ◌≤◌, ◌<◌, ◌≡◌, refl, sym, ap, ◌∙◌, true, List, [], ◌∷◌, ◌++◌, map, inl,
  inr, arith, ◌≢◌, ◌&&◌,
}
use mathlib.Core.List.{append-nil, map-append}
use waylaunch.Prelude.Tests.{Bool-cases, ltb, leb}
use waylaunch.Prelude.Lists.{length, first, after, first-after}
use waylaunch.Prelude.Text.{Text, to_lower}
use waylaunch.Content.Segments.{
  Token, is_boundary, is_ascii, bounds_from, bounds_of, max_segs, slice, segment, segments_from,
  tokens, tokens_at,
}

abbrev pub concat_texts : List Token → Text
concat_texts [] = []
concat_texts (t ∷ ts) = t.text ++ concat_texts ts

-- Tokens that lie one behind the other from `i` to `k`, none of them empty.
abbrev pub Chain : ℕ → ℕ → List Token → Type 0
Chain i k [] = i ≡ k
Chain i k (t ∷ ts) = (t.start ≡ i) × ((i < t.end_) × Chain t.end_ k ts)

Rising : ℕ → List ℕ → ℕ → Type 0
Rising i [] n = i < n
Rising i (b ∷ bs) n = (i < b) × Rising b bs n

first_nil : (k : ℕ) → first {A = ℕ} k [] ≡ []
first_nil zero = refl
first_nil (suc k) = refl

after_nil : (k : ℕ) → after {A = ℕ} k [] ≡ []
after_nil zero = refl
after_nil (suc k) = refl

after-length : (o : Text) → after (length o) o ≡ []
after-length [] = refl
after-length (c ∷ o) = after-length o

slice-after : (i j : ℕ) (o : Text) → i ≤ j → slice i j o ++ after j o ≡ after i o
slice-after zero j o h = let same : j - 0 ≡ j = omega arith in rw same (first-after j o)
slice-after (suc i) zero o h = absurd (omega arith)
slice-after (suc i) (suc j) [] h = rw (first_nil (suc j - suc i)) refl
slice-after (suc i) (suc j) (c ∷ o) h =
    let same : suc j - suc i ≡ j - i = omega arith in rw same (slice-after i j o (omega arith))

slice_end : (i : ℕ) (o : Text) → i ≤ length o → slice i (length o) o ≡ after i o
slice_end i o h =
    sym (append-nil (slice i (length o) o))
    ∙ ap (λ t. slice i (length o) o ++ t) (sym (after-length o))
    ∙ slice-after i (length o) o h

texts-segments :
    (base : ℕ) (o : Text) (i : ℕ) (bounds : List ℕ)
    → Rising i bounds (length o)
    → concat_texts (segments_from base o i bounds) ≡ map to_lower (after i o)
unfolding Rising segments_from segment
texts-segments base o i [] h =
    rw (slice_end i o (omega arith), append-nil (map to_lower (after i o))) refl
texts-segments base o i (b ∷ bounds) (h, r) =
    ap (λ t. map to_lower (slice i b o) ++ t) (texts-segments base o b bounds r)
    ∙ sym (map-append to_lower (slice i b o) (after b o))
    ∙ ap (map to_lower) (slice-after i b o (omega arith))

Chain-segments :
    (base : ℕ) (o : Text) (i : ℕ) (bounds : List ℕ)
    → Rising i bounds (length o)
    → Chain (base + i) (base + length o) (segments_from base o i bounds)
unfolding Rising segments_from segment
Chain-segments base o i [] h = (refl, (omega arith, refl))
Chain-segments base o i (b ∷ bounds) (h, r) =
    (refl, (omega arith, Chain-segments base o b bounds r))

length-segments :
    (base : ℕ) (o : Text) (i : ℕ) (bounds : List ℕ)
    → length (segments_from base o i bounds) ≡ suc (length bounds)
unfolding segments_from
length-segments base o i [] = refl
length-segments base o i (b ∷ bounds) = ap suc (length-segments base o b bounds)

Rising-lt : (i n : ℕ) (bs : List ℕ) → Rising i bs n → i < n
unfolding Rising
Rising-lt i n [] h = h
Rising-lt i n (b ∷ bs) (h, r) = omega (arith, Rising-lt b n bs r)

first-Rising : (k i n : ℕ) (bs : List ℕ) → Rising i bs n → Rising i (first k bs) n
unfolding Rising
first-Rising zero i n bs h = Rising-lt i n bs h
first-Rising (suc k) i n [] h = h
first-Rising (suc k) i n (b ∷ bs) (h, r) = (h, first-Rising k b n bs r)

bounds_from-Rising :
    (j i before n : ℕ) (s : Text) → j < i → i + length s ≡ n → Rising j (bounds_from i before s) n
unfolding Rising bounds_from
bounds_from-Rising j i before n [] h e = omega arith
bounds_from-Rising j i before n (c ∷ s) h e = elim (Bool-cases (is_boundary before c s)) [
  | inl t ↦ rw (t, Rising) (h, bounds_from-Rising i (i + 1) c n s (omega arith) (omega arith))
  | inr t ↦ rw (t, Rising) (bounds_from-Rising j (i + 1) c n s (omega arith) (omega arith))
]

length-first : (k : ℕ) (bs : List ℕ) → length (first k bs) ≤ k
length-first zero bs = omega arith
length-first (suc k) [] = omega arith
length-first (suc k) (b ∷ bs) = omega (arith, length-first k bs)

-- Boundaries rise within the bytes, and there are at most `max_segs`.
abbrev AreBounds : Text → List ℕ → Type 0
AreBounds o bs = (bs ≢ [] → Rising 0 bs (length o)) × (length bs ≤ max_segs)

bounds_of-AreBounds : (o : Text) → AreBounds o (bounds_of o)
unfolding bounds_of
bounds_of-AreBounds [] = (λ h. absurd (h refl), omega arith)
bounds_of-AreBounds (c ∷ s) =
    elim (Bool-cases (ltb 1 (length (c ∷ s)) && (leb (length (c ∷ s)) 256 && is_ascii (c ∷ s)))) [
      | inl t ↦
          rw (t, AreBounds)
            (
              λ h.
                  first-Rising max_segs 0 (length (c ∷ s)) (bounds_from 1 c s)
                    (bounds_from-Rising 0 1 c (length (c ∷ s)) s (omega arith) (omega arith)),
              length-first max_segs (bounds_from 1 c s),
            )
      | inr t ↦ rw (t, AreBounds) (λ h. absurd (h refl), omega arith)
    ]

cover_at :
    (base : ℕ) (folded o : Text) (bounds : List ℕ)
    → bounds ≢ []
    → AreBounds o bounds
    → (concat_texts (tokens_at true base folded o bounds) ≡ map to_lower o)
      × Chain base (base + length o) (tokens_at true base folded o bounds)
      × (length (tokens_at true base folded o bounds) ≤ max_segs + 1)
unfolding tokens_at
cover_at base folded o [] h a = absurd (h refl)
cover_at base folded o (b ∷ bounds) h (r, l) =
    let same : base + 0 ≡ base = omega arith in
    (
      texts-segments base o 0 (b ∷ bounds) (r h),
      rw same at (Chain-segments base o 0 (b ∷ bounds) (r h)),
      omega (arith, length-segments base o 0 (b ∷ bounds)),
    )

-- Where a token is split, the tokens of a query are its text in lower case, cut into pieces that
-- are not empty and lie one behind the other from its start to its end, and at most 64 of them.
pub tokens_cover :
    (base : ℕ) (folded o : Text)
    → bounds_of o ≢ []
    → (concat_texts (tokens true base folded o) ≡ map to_lower o)
      × Chain base (base + length o) (tokens true base folded o)
      × (length (tokens true base folded o) ≤ max_segs + 1)
unfolding tokens
tokens_cover base folded o h = cover_at base folded o (bounds_of o) h (bounds_of-AreBounds o)

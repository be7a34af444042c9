-- ===== src/Content/Agreement.antt =====
-- What the tokenizer "wl" gives for an index and for a query.
use waylaunch.Prelude.{ℕ, ◌≡◌, refl, ap, true, false, List, [], ◌∷◌}
use waylaunch.Prelude.Tests.{if◌then◌else◌}
use waylaunch.Prelude.Text.{Text}
use waylaunch.Content.Segments.{Token, bounds_of, segment, segments_from, tokens, tokens_at}

-- The tokens that have a position of their own.
abbrev pub own_positions : List Token → List Token
own_positions [] = []
own_positions (t ∷ ts) = if t.colocated then own_positions ts else t ∷ own_positions ts

own_positions-segments :
    (base : ℕ) (o : Text) (i : ℕ) (bounds : List ℕ)
    → own_positions (segments_from base o i bounds) ≡ segments_from base o i bounds
unfolding segments_from segment
own_positions-segments base o i [] = refl
own_positions-segments base o i (b ∷ bounds) =
    ap (λ ts. segment base o i b ∷ ts) (own_positions-segments base o b bounds)

agrees_at :
    (base : ℕ) (folded o : Text) (bounds : List ℕ)
    → own_positions (tokens_at false base folded o bounds) ≡ tokens_at true base folded o bounds
unfolding tokens_at segments_from segment
agrees_at base folded o [] = refl
agrees_at base folded o (b ∷ bounds) =
    ap (λ ts. segment base o 0 b ∷ ts) (own_positions-segments base o b bounds)

-- The tokens of an index that have a position of their own are those of a query, so that a query
-- asks for what the index stores.
pub index_agrees :
    (base : ℕ) (folded o : Text)
    → own_positions (tokens false base folded o) ≡ tokens true base folded o
unfolding tokens
index_agrees base folded o = agrees_at base folded o (bounds_of o)

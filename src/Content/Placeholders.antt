-- ===== src/Content/Placeholders.antt =====
-- The WHERE fragment of a filter and the values bound to it.
use waylaunch.Prelude.{ℕ, ◌+◌, ◌≡◌, refl, Bool, true, false, List, [], ◌∷◌, ◌++◌, arith}
use waylaunch.Prelude.Tests.{◌==◌, if◌then◌else◌}
use waylaunch.Prelude.Lists.{length, length-append}
use waylaunch.Prelude.Int.{ℤ}
use waylaunch.Prelude.Text.{Text, codes}
use waylaunch.Content.Filter.{MetaFilter}
use waylaunch.Content.Query.{
  when, or_globs, globs_where, likes_where, meta_where, text_bounds, bound_if, bind_meta,
}

-- How many placeholders a fragment has.
abbrev pub placeholders : Text → ℕ
placeholders [] = 0
placeholders (c ∷ s) = if c == b'?' then placeholders s + 1 else placeholders s

placeholders-append : (s t : Text) → placeholders (s ++ t) ≡ placeholders s + placeholders t
placeholders-append [] t = omega arith
placeholders-append (c ∷ s) t = ground (arith, placeholders-append s t)

placeholders-or_globs : (gs : List Text) → placeholders (or_globs gs) ≡ length gs
unfolding or_globs
placeholders-or_globs [] = refl
placeholders-or_globs (g ∷ gs) = omega (arith, placeholders-or_globs gs)

placeholders-globs_where : (gs : List Text) → placeholders (globs_where gs) ≡ length gs
unfolding globs_where
placeholders-globs_where [] = refl
placeholders-globs_where (g ∷ gs) =
    omega (arith, placeholders-append (or_globs gs) (codes ")"), placeholders-or_globs gs)

placeholders-likes_where : (ps : List Text) → placeholders (likes_where ps) ≡ length ps
unfolding likes_where
placeholders-likes_where [] = refl
placeholders-likes_where (p ∷ ps) = omega (arith, placeholders-likes_where ps)

length-text_bounds : (ts : List Text) → length (text_bounds ts) ≡ length ts
unfolding text_bounds
length-text_bounds [] = refl
length-text_bounds (t ∷ ts) = omega (arith, length-text_bounds ts)

placeholders-when :
    (c : Bool) (s : Text) → placeholders (when c s) ≡ (if c then placeholders s else 0)
placeholders-when true s = refl
placeholders-when false s = refl

length-bound_if : (c : Bool) (n : ℤ) → length (bound_if c n) ≡ (if c then 1 else 0)
length-bound_if true n = refl
length-bound_if false n = refl

ruleset counts = (
  placeholders-append, placeholders-globs_where, placeholders-likes_where, placeholders-when,
  length-append, length-text_bounds, length-bound_if,
)

-- The WHERE fragment of a filter has a placeholder for every value that is bound.
pub placeholders-meta_where :
    (mf : MetaFilter) → placeholders (meta_where mf) ≡ length (bind_meta mf)
unfolding meta_where bind_meta
placeholders-meta_where mf = simp counts

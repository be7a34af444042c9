-- ===== src/Content/Subtree.antt =====
-- The rows of a directory: the condition of src/content/store.cpp against the prefix test of
-- src/content/indexer.cpp.
use waylaunch.Prelude.{ℕ, Bool, true, false, not, ◌&&◌, [], ◌∷◌, ◌≡◌, refl, inl, inr, arith}
use waylaunch.Prelude.Tests.{◌==◌, Bool-cases, ltb}
use waylaunch.Prelude.Text.{Text, text_eq, text_ltb}
use waylaunch.Content.Index.{in_subtree}
use waylaunch.Content.Indexer.{starts, has_prefix}

eq_flip : (c d : ℕ) (b : Bool) → (c == d) ≡ b → (d == c) ≡ b
eq_flip c d b h = ground arith

not_and : (b : Bool) → (not b && b) ≡ false
not_and true = refl
not_and false = refl

below_nothing : (s : Text) → text_ltb s [] ≡ false
unfolding text_ltb
below_nothing [] = refl
below_nothing (c ∷ s) = refl

-- The range of texts that the condition asks for is that of the directory and what is below it.
pub in_subtree-has_prefix : (dir path : Text) → in_subtree dir path ≡ has_prefix path dir
unfolding in_subtree has_prefix text_eq text_ltb starts
in_subtree-has_prefix [] [] = refl
in_subtree-has_prefix [] (c ∷ path) = ground (arith, below_nothing path)
in_subtree-has_prefix (d ∷ dir) [] = refl
in_subtree-has_prefix (d ∷ dir) (c ∷ path) =
    let same = in_subtree-has_prefix dir path in
    elim (Bool-cases (c == d)) [
      | inl e ↦ rw e (rw (eq_flip c d true e, has_prefix) same)
      | inr e ↦ rw e (rw (eq_flip c d false e, has_prefix) (not_and (ltb c d)))
    ]

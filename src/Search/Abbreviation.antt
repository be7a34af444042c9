-- ===== src/Search/Abbreviation.antt =====
-- Abbreviating the home directory loses nothing.
use waylaunch.Prelude.{◌≡◌, refl, sym, ap, Option, some, [], ◌∷◌, ◌++◌, inl, inr, arith}
use waylaunch.Prelude.Tests.{◌==◌, ==_iff, if◌then◌else◌, Bool-cases, Option-cases}
use waylaunch.Prelude.Lists.{is_empty}
use waylaunch.Prelude.Text.{Text}
use waylaunch.Search.Paths.{home_dir, drop_prefix, abbreviate_home}

drop_prefix_front : (p s rest : Text) → drop_prefix p s ≡ some rest → s ≡ p ++ rest
unfolding drop_prefix
drop_prefix_front [] s rest e = grind arith
drop_prefix_front (c ∷ p) [] rest e = cc
drop_prefix_front (c ∷ p) (d ∷ s) rest e = elim (Bool-cases (c == d)) [
  | inl t ↦
      let same = (==_iff c d).0 t in
      rw (sym same) (ap (λ x. c ∷ x) (drop_prefix_front p s rest (rw t at e)))
  | inr t ↦ cc (rw t at e)
]

-- A leading tilde as the home directory.
abbrev pub expand : Option Text → Text → Text
expand home [] = []
expand home (c ∷ s) = if c == b'~' then home_dir home ++ s else c ∷ s

-- Expanding the tilde of an abbreviated absolute path gives the path back.
pub expand-abbreviate_home :
    (home : Option Text) (path : Text)
    → expand home (abbreviate_home home (b'/' ∷ path)) ≡ b'/' ∷ path
unfolding abbreviate_home
expand-abbreviate_home home path = elim (Bool-cases (is_empty (home_dir home))) [
  | inl e ↦ rw (e, expand) refl
  | inr e ↦ elim (Option-cases (drop_prefix (home_dir home) (b'/' ∷ path))) [
    | inl n ↦ rw (e, n, expand) refl
    | inr (rest, d) ↦
        rw (e, d, expand) (sym (drop_prefix_front (home_dir home) (b'/' ∷ path) rest d))
  ]
]

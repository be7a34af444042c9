-- ===== src/Content/Match.antt =====
-- Store::build_match_query of src/content/store.cpp and the estimate of query_is_common, whose
-- document frequencies are a parameter.
use waylaunch.Prelude.{Bool, true, false, not, ◌&&◌, List, [], ◌∷◌, ◌++◌}
use waylaunch.Prelude.Tests.{ltb, ◌==◌, if◌then◌else◌}
use waylaunch.Prelude.Lists.{length, is_empty}
use waylaunch.Prelude.Int.{ℤ, pos, negsuc, ltb_ℤ, leb_ℤ, eq_ℤ}
use waylaunch.Prelude.Text.{Text, words, join, to_lower_text}

pub data MatchMode : Type 0 where
  prefix substring : MatchMode

unfoldable pub double_quotes : Text → Text
double_quotes [] = []
double_quotes (c ∷ s) = let rest = double_quotes s in if c == 34 then 34 ∷ 34 ∷ rest else c ∷ rest

abbrev pub is_substring : MatchMode → Bool
is_substring MatchMode.prefix = false
is_substring MatchMode.substring = true

-- The words that make a term.
unfoldable pub makes_term : MatchMode → Text → Bool
makes_term mode tok =
    if is_empty (double_quotes tok)
    then false
    else not (is_substring mode && ltb (length (double_quotes tok)) 3)

unfoldable pub quoted : Text → Text
quoted tok = 34 ∷ (double_quotes tok ++ 34 ∷ [])

unfoldable pub terms_of : MatchMode → List Text → List Text
terms_of mode [] = []
terms_of mode (tok ∷ toks) =
    let rest = terms_of mode toks in if makes_term mode tok then quoted tok ∷ rest else rest

-- A star behind the last term.
unfoldable pub star_last : List Text → List Text
star_last [] = []
star_last (t ∷ []) = (t ++ 42 ∷ []) ∷ []
star_last (t ∷ u ∷ ts) = t ∷ star_last (u ∷ ts)

unfoldable pub build_match_query : MatchMode → Text → Bool → Text
build_match_query mode user_query prefix_last =
    let terms = terms_of mode (words user_query) in
    if is_empty terms
    then []
    else join (if prefix_last && not (is_substring mode) then star_last terms else terms)

-- The smallest document frequency, from the one found so far, where the loop ends at a 0.
unfoldable pub smallest_df : (Text → ℤ) → ℤ → List Text → ℤ
smallest_df df min_df [] = min_df
smallest_df df min_df (tok ∷ toks) =
    let d = df (to_lower_text tok) in
    let m = if ltb_ℤ min_df (pos 0) then d else if ltb_ℤ d min_df then d else min_df in
    let rest = smallest_df df m toks in if eq_ℤ m (pos 0) then m else rest

unfoldable pub query_is_common : ℤ → (Text → ℤ) → Text → Bool
query_is_common common_term_df df user_query =
    if leb_ℤ common_term_df (pos 0)
    then false
    else not (is_empty (words user_query))
      && ltb_ℤ common_term_df (smallest_df df (negsuc 0) (words user_query))

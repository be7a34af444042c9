-- ===== src/Tests/Content.antt =====
-- The content index at concrete inputs.
use waylaunch.Prelude.{
  Option, none, ◌+◌, ◌*◌, ◌≤◌, ◌≡◌, ◌↔◌, ◌≢◌, refl, true, false, some, [], ◌∷◌, ◌++◌, map, arith,
}
use waylaunch.Prelude.Tests.{if◌then◌else◌}
use waylaunch.Prelude.Lists.{length}
use waylaunch.Prelude.Int.{ℤ, pos}
use waylaunch.Prelude.Text.{Text, codes, to_lower, words, words_from, is_space, has_byte, join}
use waylaunch.Prelude.Decimal.{show_ℕ}
use waylaunch.Content.Segments.{
  tokens, bounds_of, max_segs, bounds_from, is_boundary, class_boundary, char_class, is_ascii,
}
use waylaunch.Content.Agreement.{own_positions, index_agrees}
use waylaunch.Content.Cover.{concat_texts, Chain, tokens_cover}
use waylaunch.Content.Filter.{MetaFilter, no_filter}
use waylaunch.Content.Query.{with_size, parse_meta_query}
use waylaunch.Content.FreeText.{free_words, some_predicate, parse_meta_query-free_words}
use waylaunch.Content.Match.{MatchMode, build_match_query, double_quotes, makes_term}
use waylaunch.Content.Terms.{kept, Reading, read_strings, c_string, NoNul, build_match_query-Reads}
use waylaunch.Content.Sizes.{
  SizeUnit, unit_text, unit_bytes, SizeTest, test_text, Meets, lets_through, with_size-Meets,
}

abbrev compound : Text
compound = codes "HTMLParser2"

compound_bounds : bounds_of compound ≡ 4 ∷ 10 ∷ []
unfolding bounds_of bounds_from is_boundary class_boundary char_class is_ascii
compound_bounds = refl

compound_splits : bounds_of compound ≢ []
unfolding bounds_of bounds_from is_boundary class_boundary char_class is_ascii
compound_splits e = grind arith

index_agrees_example :
    own_positions (tokens false 7 (map to_lower compound) compound)
    ≡ tokens true 7 (map to_lower compound) compound
index_agrees_example = index_agrees 7 (map to_lower compound) compound

tokens_cover_example :
    (concat_texts (tokens true 7 (map to_lower compound) compound) ≡ map to_lower compound)
    × Chain 7 (7 + length compound) (tokens true 7 (map to_lower compound) compound)
    × (length (tokens true 7 (map to_lower compound) compound) ≤ max_segs + 1)
tokens_cover_example = tokens_cover 7 (map to_lower compound) compound compound_splits

abbrev typed : Text
typed = codes "say \"hi\" wor"

typed_terms : kept MatchMode.prefix (words typed) ≢ []
unfolding words words_from is_space makes_term double_quotes
typed_terms e = grind arith

typed_bytes : NoNul typed
unfolding has_byte
typed_bytes = refl

build_match_query-Reads_example :
    read_strings Reading.between (c_string (build_match_query MatchMode.prefix typed true))
    ≡ some (kept MatchMode.prefix (words typed), true)
build_match_query-Reads_example =
    build_match_query-Reads MatchMode.prefix typed true typed_bytes typed_terms

abbrev recent_images : MetaFilter
recent_images = record no_filter {
  mime_globs = codes "image/*" ∷ codes "video/*" ∷ [];
  size_min = pos 1024;
  mtime_min_ns = pos 5;
  active = true;
}

with_size-Meets_example :
    (mf : MetaFilter) × (with_size
        (test_text SizeTest.more ++ (show_ℕ 5 ++ unit_text SizeUnit.mib))
        no_filter
      ≡ some mf)
    × ((lets_through mf 6000000 ≡ true) ↔ Meets SizeTest.more 6000000 (5 * unit_bytes SizeUnit.mib))
with_size-Meets_example =
    with_size-Meets SizeTest.more 5 SizeUnit.mib 6000000 (omega arith) (omega arith)

abbrev no_date : Text → Option ℤ
no_date s = none

abbrev mixed : Text
mixed = codes " report kind:pdf  foo:bar size:>1k "

parse_meta_query-free_words_example :
    ((parse_meta_query no_date (pos 0) mixed no_filter).0
      ≡ join (free_words no_date (pos 0) (words mixed)))
    × ((parse_meta_query no_date (pos 0) mixed no_filter).1.active
        ≡ (if some_predicate no_date (pos 0) (words mixed) then true else no_filter.active))
    × (some_predicate no_date (pos 0) (words mixed) ≡ false
        → (parse_meta_query no_date (pos 0) mixed no_filter).1 ≡ no_filter)
parse_meta_query-free_words_example = parse_meta_query-free_words no_date (pos 0) mixed no_filter

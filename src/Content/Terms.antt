-- ===== src/Content/Terms.antt =====
-- The MATCH expression of Store::build_match_query (src/content/store.cpp), as FTS5 reads it.
use waylaunch.Prelude.{
  ◌≡◌, ◌≢◌, refl, sym, ap, ◌∙◌, Bool, true, false, not, ◌&&◌, Option, none, some, List, [], ◌∷◌,
  ◌++◌, map, inl, inr, arith,
}
use mathlib.Core.List.{append_assoc, append-nil}
use waylaunch.Prelude.Tests.{◌==◌, ==_iff, if◌then◌else◌, Bool-cases}
use waylaunch.Prelude.Lists.{is_empty, All}
use waylaunch.Prelude.Text.{Text, words, words_from, word_done, is_space, has_byte, join}
use waylaunch.Content.Match.{
  MatchMode, double_quotes, makes_term, quoted, terms_of, star_last, is_substring,
  build_match_query,
}

-- The words that make a term.
abbrev pub kept : MatchMode → List Text → List Text
kept mode [] = []
kept mode (tok ∷ toks) = if makes_term mode tok then tok ∷ kept mode toks else kept mode toks

-- How FTS5 is documented to read strings: in a string two quotes are one, a quote alone ends it, a
-- star behind the last makes it a prefix, and between two strings there is a space.
pub data Reading : Type 0 where
  between : Reading
  inside : Text → Reading
  at_quote : Text → Reading
  starred : Text → Reading

abbrev found : Text → Option (List Text × Bool) → Option (List Text × Bool)
found t none = none
found t (some (ts, star)) = some (t ∷ ts, star)

unfoldable pub read_strings : Reading → Text → Option (List Text × Bool)
read_strings Reading.between [] = some ([], false)
read_strings Reading.between (c ∷ s) = if c == 34 then read_strings (Reading.inside []) s else none
read_strings (Reading.inside t) [] = none
read_strings (Reading.inside t) (c ∷ s) = elim (c == 34) [
  | true ↦ read_strings (Reading.at_quote t) s
  | false ↦ read_strings (Reading.inside (t ++ c ∷ [])) s
]
read_strings (Reading.at_quote t) [] = some (t ∷ [], false)
read_strings (Reading.at_quote t) (c ∷ s) = elim (c == 34) [
  | true ↦ read_strings (Reading.inside (t ++ 34 ∷ [])) s
  | false ↦ elim (c == 42) [
    | true ↦ read_strings (Reading.starred t) s
    | false ↦ if c == 32 then found t (read_strings Reading.between s) else none
  ]
]
read_strings (Reading.starred t) [] = some (t ∷ [], true)
read_strings (Reading.starred t) (c ∷ s) = none

-- The expression up to its first NUL, where SQLite ends the text that it is given without a length.
abbrev pub c_string : Text → Text
c_string [] = []
c_string (c ∷ s) = if c == 0 then [] else c ∷ c_string s

-- No byte of the text is a NUL.
abbrev pub NoNul : Text → Type 0
NoNul s = has_byte 0 s ≡ false

c_string-NoNul : (s : Text) → NoNul s → c_string s ≡ s
unfolding has_byte
c_string-NoNul [] h = refl
c_string-NoNul (c ∷ s) h = elim (Bool-cases (c == 0)) [
  | inl e ↦ cc (rw (e, has_byte) at h)
  | inr e ↦ rw (e, c_string) (ap (λ t. c ∷ t) (c_string-NoNul s (rw (e, has_byte) at h)))
]

append-NoNul : (s t : Text) → NoNul s → NoNul t → NoNul (s ++ t)
unfolding has_byte
append-NoNul [] t h k = k
append-NoNul (c ∷ s) t h k = ground (arith, append-NoNul s t)

double_quotes-NoNul : (s : Text) → NoNul s → NoNul (double_quotes s)
unfolding has_byte double_quotes
double_quotes-NoNul [] h = refl
double_quotes-NoNul (c ∷ s) h = ground (arith, double_quotes-NoNul s)

abbrev AllNoNul : List Text → Type 0
AllNoNul ts = All (λ t. NoNul t) ts

quoted-NoNul : (s : Text) → NoNul s → NoNul (quoted s)
unfolding has_byte quoted
quoted-NoNul s h = append-NoNul (double_quotes s) (34 ∷ []) (double_quotes-NoNul s h) refl

terms-NoNul : (ks : List Text) → AllNoNul ks → AllNoNul (map quoted ks)
terms-NoNul [] h = tt
terms-NoNul (k ∷ ks) (x, h) = (quoted-NoNul k x, terms-NoNul ks h)

kept-NoNul : (mode : MatchMode) (ks : List Text) → AllNoNul ks → AllNoNul (kept mode ks)
kept-NoNul mode [] h = tt
kept-NoNul mode (k ∷ ks) (x, h) = elim (Bool-cases (makes_term mode k)) [
  | inl e ↦ rw (e, kept) (x, kept-NoNul mode ks h)
  | inr e ↦ rw (e, kept) (kept-NoNul mode ks h)
]

star_last-NoNul : (ts : List Text) → AllNoNul ts → AllNoNul (star_last ts)
unfolding star_last has_byte
star_last-NoNul [] h = tt
star_last-NoNul (t ∷ []) (x, h) = (append-NoNul t (42 ∷ []) x refl, tt)
star_last-NoNul (t ∷ u ∷ ts) (x, h) = (x, star_last-NoNul (u ∷ ts) h)

join-NoNul : (ts : List Text) → AllNoNul ts → NoNul (join ts)
unfolding has_byte
join-NoNul [] h = refl
join-NoNul (t ∷ []) (x, h) = x
join-NoNul (t ∷ u ∷ ts) (x, h) = append-NoNul t (32 ∷ join (u ∷ ts)) x (join-NoNul (u ∷ ts) h)

done-NoNul : (w : Text) (ws : List Text) → NoNul w → AllNoNul ws → AllNoNul (word_done w ws)
done-NoNul [] ws h k = k
done-NoNul (c ∷ w) ws h k = (h, k)

words-NoNul : (w s : Text) → NoNul w → NoNul s → AllNoNul (words_from w s)
unfolding has_byte words_from
words-NoNul w [] h k = done-NoNul w [] h tt
words-NoNul w (c ∷ s) h k =
    let rest : NoNul s = ground arith in
    let one : NoNul (c ∷ []) = ground arith in
    elim (Bool-cases (is_space c)) [
      | inl e ↦ rw (e, words_from) (done-NoNul w (words_from [] s) h (words-NoNul [] s refl rest))
      | inr e ↦
          rw (e, words_from) (words-NoNul (w ++ c ∷ []) s (append-NoNul w (c ∷ []) h one) rest)
    ]

read-double_quotes :
    (t tok rest : Text)
    → read_strings (Reading.inside t) (double_quotes tok ++ 34 ∷ rest)
      ≡ read_strings (Reading.at_quote (t ++ tok)) rest
unfolding read_strings double_quotes
read-double_quotes t [] rest = rw (append-nil t) refl
read-double_quotes t (c ∷ tok) rest =
    let tail : read_strings (Reading.inside (t ++ (c ∷ []))) (double_quotes tok ++ (34 ∷ rest))
        ≡ read_strings (Reading.at_quote (t ++ (c ∷ tok))) rest =
      read-double_quotes (t ++ (c ∷ [])) tok rest
      ∙ ap (λ u. read_strings (Reading.at_quote u) rest) (append_assoc t (c ∷ []) tok) in
    elim (Bool-cases (c == 34)) [
      | inl e ↦ let same = (==_iff c 34).0 e in rw same (rw same at tail)
      | inr e ↦ rw (e, read_strings) (rw e tail)
    ]

read-quoted :
    (tok rest : Text)
    → read_strings Reading.between (quoted tok ++ rest) ≡ read_strings (Reading.at_quote tok) rest
unfolding read_strings quoted
read-quoted tok rest =
    rw (append_assoc (double_quotes tok) (34 ∷ []) rest) (read-double_quotes [] tok rest)

read-join :
    (k : Text) (ks : List Text)
    → read_strings Reading.between (join (map quoted (k ∷ ks))) ≡ some (k ∷ ks, false)
unfolding read_strings
read-join k [] = ap (read_strings Reading.between) (sym (append-nil (quoted k))) ∙ read-quoted k []
read-join k (l ∷ ks) =
    read-quoted k (32 ∷ join (map quoted (l ∷ ks))) ∙ ap (found k) (read-join l ks)

read-join-star :
    (k : Text) (ks : List Text)
    → read_strings Reading.between (join (star_last (map quoted (k ∷ ks)))) ≡ some (k ∷ ks, true)
unfolding read_strings star_last
read-join-star k [] = read-quoted k (42 ∷ [])
read-join-star k (l ∷ []) =
    read-quoted k (32 ∷ join (star_last (map quoted (l ∷ [])))) ∙ ap (found k) (read-join-star l [])
read-join-star k (l ∷ m ∷ ks) =
    read-quoted k (32 ∷ join (star_last (map quoted (l ∷ m ∷ ks))))
    ∙ ap (found k) (read-join-star l (m ∷ ks))

terms-kept :
    (mode : MatchMode) (toks : List Text) → terms_of mode toks ≡ map quoted (kept mode toks)
unfolding terms_of
terms-kept mode [] = refl
terms-kept mode (tok ∷ toks) = elim (Bool-cases (makes_term mode tok)) [
  | inl e ↦ rw (e, kept) (ap (λ ts. quoted tok ∷ ts) (terms-kept mode toks))
  | inr e ↦ rw (e, kept) (terms-kept mode toks)
]

read_terms :
    (star : Bool) (ks : List Text)
    → ks ≢ []
    → read_strings Reading.between (
        if is_empty (map quoted ks)
        then []
        else join (if star then star_last (map quoted ks) else map quoted ks))
      ≡ some (ks, star)
read_terms star [] h = absurd (h refl)
read_terms true (k ∷ ks) h = read-join-star k ks
read_terms false (k ∷ ks) h = read-join k ks

read-expression :
    (mode : MatchMode) (user_query : Text) (prefix_last : Bool)
    → kept mode (words user_query) ≢ []
    → read_strings Reading.between (build_match_query mode user_query prefix_last)
      ≡ some (kept mode (words user_query), prefix_last && not (is_substring mode))
unfolding build_match_query
read-expression mode user_query prefix_last h =
    rw (terms-kept mode (words user_query))
      (read_terms (prefix_last && not (is_substring mode)) (kept mode (words user_query)) h)

query-NoNul :
    (mode : MatchMode) (user_query : Text) (prefix_last : Bool)
    → NoNul user_query
    → NoNul (build_match_query mode user_query prefix_last)
unfolding build_match_query words has_byte
query-NoNul mode user_query prefix_last h =
    let ks =
      terms-NoNul (kept mode (words user_query))
        (kept-NoNul mode (words user_query) (words-NoNul [] user_query refl h)) in
    rw (terms-kept mode (words user_query)) (
      expression-NoNul (prefix_last && not (is_substring mode))
        (map quoted (kept mode (words user_query))) ks)
  where
    expression-NoNul :
        (star : Bool) (ts : List Text)
        → AllNoNul ts
        → NoNul (if is_empty ts then [] else join (if star then star_last ts else ts))
    expression-NoNul star [] h = refl
    expression-NoNul true (t ∷ ts) h = join-NoNul (star_last (t ∷ ts)) (star_last-NoNul (t ∷ ts) h)
    expression-NoNul false (t ∷ ts) h = join-NoNul (t ∷ ts) h

-- FTS5, which is given the expression up to its first NUL, reads that of a query without a NUL that
-- has a word that makes a term as the strings of exactly those words, with a prefix at the end if
-- and only if it is asked for and the mode is not substring.
pub build_match_query-Reads :
    (mode : MatchMode) (user_query : Text) (prefix_last : Bool)
    → NoNul user_query
    → kept mode (words user_query) ≢ []
    → read_strings Reading.between (c_string (build_match_query mode user_query prefix_last))
      ≡ some (kept mode (words user_query), prefix_last && not (is_substring mode))
build_match_query-Reads mode user_query prefix_last z h =
    ap (read_strings Reading.between) (
      c_string-NoNul (build_match_query mode user_query prefix_last)
        (query-NoNul mode user_query prefix_last z))
    ∙ read-expression mode user_query prefix_last h

-- ===== src/Content/Query.antt =====
-- parse_meta_query, meta_where and bind_meta of src/content/store.cpp.
use waylaunch.Prelude.{ℕ, Bool, true, false, ◌||◌, Option, none, some, List, [], ◌∷◌, ◌++◌}
use waylaunch.Prelude.Tests.{◌==◌, if◌then◌else◌, ◌>>=◌}
use waylaunch.Prelude.Lists.{is_empty}
use waylaunch.Prelude.Int.{ℤ, pos, ◌+ℤ◌, ◌-ℤ◌, ltb_ℤ, leb_ℤ, eq_ℤ}
use waylaunch.Prelude.Text.{Text, codes, text_eq, to_lower_text, has_byte, words}
use waylaunch.Content.Filter.{
  MetaFilter, Window, Compare, wrap64, kind_globs, parse_size, parse_modified, operator_of,
  without_operator, has_equals, without_equals,
}

-- The key and the value of a word with a colon that neither begins nor ends it.
abbrev pub key_byte : ℕ → Option (Text × Text) → Option (Text × Text)
key_byte c none = none
key_byte c (some (k, v)) = some (c ∷ k, v)

unfoldable pub cut_colon : Text → Option (Text × Text)
cut_colon [] = none
cut_colon (c ∷ s) = if c == b':' then some ([], s) else key_byte c (cut_colon s)

unfoldable pub key_and_value : Text × Text → Option (Text × Text)
key_and_value (k, v) = if is_empty k then none else if is_empty v then none else some (k, v)

unfoldable pub escape_like : Text → Text
escape_like [] = []
escape_like (c ∷ s) =
    let rest = escape_like s in
    if c == b'%' || (c == b'_' || c == 92) then 92 ∷ c ∷ rest else c ∷ rest

abbrev pub activated : MetaFilter → MetaFilter
activated mf = record mf { active = true }

unfoldable pub with_kind : Text → MetaFilter → Option MetaFilter
with_kind val mf = elim (kind_globs (to_lower_text val)) [
  | none ↦ none
  | some globs ↦ some (activated (record mf { mime_globs = mf.mime_globs ++ globs }))
]

unfoldable pub with_ext : Text → MetaFilter → Option MetaFilter
with_ext val mf =
    let lv = to_lower_text val in
    if is_empty lv
    then none
    else if has_byte b'%' lv
    then none
    else if has_byte b'_' lv
    then none
    else if has_byte 92 lv
    then none
    else some (activated (record mf { name_likes = mf.name_likes ++ (codes "%." ++ lv) ∷ [] }))

unfoldable pub with_name : Text → MetaFilter → Option MetaFilter
with_name val mf =
    let esc = escape_like (to_lower_text val) in
    if is_empty esc
    then none
    else some
        (activated (record mf { name_likes = mf.name_likes ++ (b'%' ∷ (esc ++ b'%' ∷ [])) ∷ [] }))

unfoldable pub size_bound : Compare → Bool → ℤ → MetaFilter → Option MetaFilter
size_bound Compare.above oreq bytes mf =
    some (activated (record mf { size_min = if oreq then bytes else wrap64 (bytes +ℤ pos 1) }))
size_bound Compare.below oreq bytes mf =
    some (activated (record mf { size_max = if oreq then bytes else wrap64 (bytes -ℤ pos 1) }))
size_bound Compare.no_operator oreq bytes mf = none

unfoldable pub checked_bound : Compare → Bool → ℤ → MetaFilter → Option MetaFilter
checked_bound op oreq bytes mf = if ltb_ℤ bytes (pos 0) then none else size_bound op oreq bytes mf

unfoldable pub with_size : Text → MetaFilter → Option MetaFilter
with_size val mf =
    let num = without_operator val in
    checked_bound (operator_of val) (has_equals num) (parse_size (without_equals num)) mf

unfoldable pub in_window : Window → MetaFilter → MetaFilter
in_window w mf = activated (record mf {
  mtime_min_ns = if eq_ℤ w.min_ns (pos 0) then mf.mtime_min_ns else w.min_ns;
  mtime_max_ns = if eq_ℤ w.max_ns (pos 0) then mf.mtime_max_ns else w.max_ns;
})

module _ (date : Text → Option ℤ) (now_s : ℤ) where
  unfoldable pub with_modified : Text → MetaFilter → Option MetaFilter
  with_modified val mf = elim (parse_modified date val now_s) [
    | none ↦ none
    | some w ↦ some (in_window w mf)
  ]

  -- The filter with the predicate of a key, or `none` where the word is not consumed.
  unfoldable pub with_predicate : Text → Text → MetaFilter → Option MetaFilter
  unfolding with_modified
  with_predicate key val mf =
      if text_eq key (codes "kind")
      then with_kind val mf
      else if text_eq key (codes "ext")
      then with_ext val mf
      else if text_eq key (codes "name")
      then with_name val mf
      else if text_eq key (codes "size")
      then with_size val mf
      else if text_eq key (codes "modified")
          || (text_eq key (codes "mtime") || text_eq key (codes "date"))
      then with_modified val mf
      else none

  unfoldable pub consume : Text → MetaFilter → Option MetaFilter
  unfolding with_predicate
  consume tok mf = do
    parts ← cut_colon tok
    kv ← key_and_value parts
    with_predicate (to_lower_text kv.0) kv.1 mf

  -- The free text so far and the filter.
  abbrev pub add_text : Text → Text → Text
  add_text text tok = if is_empty text then tok else text ++ 32 ∷ tok

  unfoldable pub take_words : Text → MetaFilter → List Text → Text × MetaFilter
  unfolding consume
  take_words text mf [] = (text, mf)
  take_words text mf (tok ∷ toks) = elim (consume tok mf) [
    | none ↦ take_words (add_text text tok) mf toks
    | some mf' ↦ take_words text mf' toks
  ]

  unfoldable pub parse_meta_query : Text → MetaFilter → Text × MetaFilter
  unfolding take_words
  parse_meta_query query mf = take_words [] mf (words query)

-- What is bound to a placeholder.
pub data Bound : Type 0 where
  text : Text → Bound
  int64 : ℤ → Bound

abbrev pub when : Bool → Text → Text
when true s = s
when false s = []

unfoldable pub or_globs : List Text → Text
or_globs [] = []
or_globs (g ∷ gs) = codes " OR f.mime GLOB ?" ++ or_globs gs

unfoldable pub globs_where : List Text → Text
globs_where [] = []
globs_where (g ∷ gs) = codes " AND (" ++ (codes "f.mime GLOB ?" ++ (or_globs gs ++ codes ")"))

unfoldable pub likes_where : List Text → Text
likes_where [] = []
likes_where (p ∷ ps) = codes " AND lower(f.name) LIKE ? ESCAPE '\\'" ++ likes_where ps

unfoldable pub meta_where : MetaFilter → Text
meta_where mf =
    globs_where mf.mime_globs
    ++ (likes_where mf.name_likes
        ++ (when (leb_ℤ (pos 0) mf.size_min) (codes " AND f.size>=?")
            ++ (when (leb_ℤ (pos 0) mf.size_max) (codes " AND f.size<=?")
                ++ (when (ltb_ℤ (pos 0) mf.mtime_min_ns) (codes " AND f.mtime>=?")
                    ++ when (ltb_ℤ (pos 0) mf.mtime_max_ns) (codes " AND f.mtime<=?")))))

unfoldable pub text_bounds : List Text → List Bound
text_bounds [] = []
text_bounds (t ∷ ts) = Bound.text t ∷ text_bounds ts

abbrev pub bound_if : Bool → ℤ → List Bound
bound_if true n = Bound.int64 n ∷ []
bound_if false n = []

-- The values in the order of their indexes, from the index it starts with.
unfoldable pub bind_meta : MetaFilter → List Bound
bind_meta mf =
    text_bounds mf.mime_globs
    ++ (text_bounds mf.name_likes
        ++ (bound_if (leb_ℤ (pos 0) mf.size_min) mf.size_min
            ++ (bound_if (leb_ℤ (pos 0) mf.size_max) mf.size_max
                ++ (bound_if (ltb_ℤ (pos 0) mf.mtime_min_ns) mf.mtime_min_ns
                    ++ bound_if (ltb_ℤ (pos 0) mf.mtime_max_ns) mf.mtime_max_ns))))

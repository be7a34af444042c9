-- ===== src/Content/FreeText.antt =====
-- What parse_meta_query leaves as free text.
use waylaunch.Prelude.{
  ℕ, ◌≡◌, ◌≢◌, ◌⊎◌, refl, ◌∙◌, Bool, true, false, ◌||◌, Option, none, some, List, [], ◌∷◌, ◌++◌,
  inl, inr, arith,
}
use mathlib.Core.List.{append_assoc}
use waylaunch.Prelude.Tests.{if◌then◌else◌, Bool-cases, ◌>>=◌}
use waylaunch.Prelude.Lists.{is_empty, All}
use waylaunch.Prelude.Int.{ℤ, pos, ltb_ℤ}
use waylaunch.Prelude.Text.{
  Text, codes, text_eq, words, words_from, join, to_lower_text, has_byte, is_space,
}
use waylaunch.Content.Filter.{
  MetaFilter, operator_of, without_operator, has_equals, without_equals, parse_size, Compare,
  kind_globs, parse_modified, no_filter,
}
use waylaunch.Content.Query.{
  in_window, escape_like, with_kind, with_ext, with_name, size_bound, checked_bound, with_size,
  with_modified, with_predicate, consume, take_words, parse_meta_query, add_text, cut_colon,
  key_and_value,
}

abbrev pub is_some {ℓ} : {A : Type ℓ} → Option A → Bool
is_some none = false
is_some (some a) = true

-- A result that is there, or not, whatever the filter, and marks the filter where it is.
Uniform : (MetaFilter → Option MetaFilter) → Type 0
Uniform f =
    ((mf : MetaFilter) → f mf ≡ none)
    ⊎ ((mf : MetaFilter) → (mf' : MetaFilter) × (f mf ≡ some mf') × (mf'.active ≡ true))

refused : Uniform (λ mf. none)
unfolding Uniform
refused = inl (λ mf. refl)

taken_up :
    (f : MetaFilter → MetaFilter)
    → ((mf : MetaFilter) → (f mf).active ≡ true)
    → Uniform (λ mf. some (f mf))
unfolding Uniform
taken_up f h = inr (λ mf. (f mf, refl, h mf))

either_of :
    (b : Bool) (f g : MetaFilter → Option MetaFilter)
    → Uniform f
    → Uniform g
    → Uniform (λ mf. if b then f mf else g mf)
either_of true f g p q = p
either_of false f g p q = q

if_some {ℓ} :
    {A : Type ℓ} (o : Option A) (f : A → MetaFilter → Option MetaFilter)
    → ((a : A) → Uniform (f a))
    → Uniform (λ mf. elim o [ none ↦ none | some a ↦ f a mf ])
if_some none f h = refused
if_some (some a) f h = h a

then_some {ℓ} :
    {A : Type ℓ} (o : Option A) (f : A → MetaFilter → Option MetaFilter)
    → ((a : A) → Uniform (f a))
    → Uniform (λ mf. o >>= (λ a. f a mf))
then_some none f h = refused
then_some (some a) f h = h a

with_kind-Uniform : (val : Text) → Uniform (with_kind val)
unfolding with_kind
with_kind-Uniform val =
    if_some (kind_globs (to_lower_text val)) _ (λ globs. taken_up _ (λ mf. refl))

with_ext-Uniform : (val : Text) → Uniform (with_ext val)
unfolding with_ext
with_ext-Uniform val =
    let lv = to_lower_text val in
    either_of (is_empty lv) _ _ refused (
      either_of (has_byte b'%' lv) _ _ refused (
        either_of (has_byte b'_' lv) _ _ refused
          (either_of (has_byte 92 lv) _ _ refused (taken_up _ (λ mf. refl)))))

with_name-Uniform : (val : Text) → Uniform (with_name val)
unfolding with_name
with_name-Uniform val =
    either_of (is_empty (escape_like (to_lower_text val))) _ _ refused (taken_up _ (λ mf. refl))

size_bound-Uniform : (op : Compare) (oreq : Bool) (bytes : ℤ) → Uniform (size_bound op oreq bytes)
unfolding size_bound
size_bound-Uniform Compare.below oreq bytes = taken_up _ (λ mf. refl)
size_bound-Uniform Compare.above oreq bytes = taken_up _ (λ mf. refl)
size_bound-Uniform Compare.no_operator oreq bytes = refused

with_size-Uniform : (val : Text) → Uniform (with_size val)
unfolding with_size checked_bound
with_size-Uniform val =
    let num = without_operator val in
    either_of (ltb_ℤ (parse_size (without_equals num)) (pos 0)) _ _ refused
      (size_bound-Uniform (operator_of val) (has_equals num) (parse_size (without_equals num)))

marked : (b : Bool) → (if b then true else true) ≡ true
marked true = refl
marked false = refl

-- No word is empty.
words_from-All : (word s : Text) → All (λ w. w ≢ []) (words_from word s)
unfolding words_from
words_from-All [] [] = tt
words_from-All (c ∷ word) [] = (λ e. grind arith, tt)
words_from-All [] (c ∷ s) = elim (Bool-cases (is_space c)) [
  | inl e ↦ rw (e, words_from) (words_from-All [] s)
  | inr e ↦ rw (e, words_from) (words_from-All (c ∷ []) s)
]
words_from-All (d ∷ word) (c ∷ s) = elim (Bool-cases (is_space c)) [
  | inl e ↦ rw (e, words_from) ((λ x. grind arith), words_from-All [] s)
  | inr e ↦ rw (e, words_from) (words_from-All (d ∷ (word ++ c ∷ [])) s)
]

module _ (date : Text → Option ℤ) (now_s : ℤ) where
  with_modified-Uniform : (val : Text) → Uniform (with_modified date now_s val)
  unfolding with_modified in_window
  with_modified-Uniform val =
      if_some (parse_modified date val now_s) _ (λ w. taken_up (in_window w) (λ mf. refl))

  with_predicate-Uniform : (key val : Text) → Uniform (with_predicate date now_s key val)
  unfolding with_predicate
  with_predicate-Uniform key val =
      either_of (text_eq key (codes "kind")) _ _ (with_kind-Uniform val) (
        either_of (text_eq key (codes "ext")) _ _ (with_ext-Uniform val) (
          either_of (text_eq key (codes "name")) _ _ (with_name-Uniform val) (
            either_of (text_eq key (codes "size")) _ _ (with_size-Uniform val) (
              either_of
                (text_eq key (codes "modified")
                  || (text_eq key (codes "mtime") || text_eq key (codes "date")))
                _ _ (with_modified-Uniform val) refused))))

  consume-Uniform : (tok : Text) → Uniform (consume date now_s tok)
  unfolding consume
  consume-Uniform tok = then_some (cut_colon tok) _ (λ parts.
      then_some (key_and_value parts) _ (λ kv. with_predicate-Uniform (to_lower_text kv.0) kv.1))

  -- Whether a word is a predicate, and the words that are none.
  abbrev pub is_predicate : Text → Bool
  is_predicate tok = is_some (consume date now_s tok no_filter)

  abbrev pub free_words : List Text → List Text
  free_words [] = []
  free_words (tok ∷ toks) = if is_predicate tok then free_words toks else tok ∷ free_words toks

  abbrev pub some_predicate : List Text → Bool
  some_predicate [] = false
  some_predicate (tok ∷ toks) = if is_predicate tok then true else some_predicate toks

  -- The words behind a text, a space before each but a first one.
  appended : Text → List Text → Text
  appended text [] = text
  appended text (tok ∷ toks) = appended (add_text date now_s text tok) toks

  appended_text :
      (c : ℕ) (text : Text) (tok : Text) (toks : List Text)
      → appended (c ∷ text) (tok ∷ toks) ≡ (c ∷ text) ++ (32 ∷ join (tok ∷ toks))
  unfolding appended
  appended_text c text tok [] = refl
  appended_text c text tok (next ∷ toks) =
      appended_text c (text ++ 32 ∷ tok) next toks
      ∙ append_assoc (c ∷ text) (32 ∷ tok) (32 ∷ join (next ∷ toks))

  appended-join : (toks : List Text) → All (λ w. w ≢ []) toks → appended [] toks ≡ join toks
  unfolding appended
  appended-join [] h = refl
  appended-join ([] ∷ toks) (h, a) = absurd (h refl)
  appended-join ((c ∷ w) ∷ []) (h, a) = refl
  appended-join ((c ∷ w) ∷ v ∷ toks) (h, a) = appended_text c w v toks

  -- What the loop gives for the words from the text and the filter it has so far.
  Outcome : Text → MetaFilter → List Text → Text × MetaFilter → Type 0
  Outcome text mf toks out =
      (out.0 ≡ appended text (free_words toks))
      × (out.1.active ≡ (if some_predicate toks then true else mf.active))
      × (some_predicate toks ≡ false → out.1 ≡ mf)

  take_words-Outcome :
      (text : Text) (mf : MetaFilter) (toks : List Text)
      → Outcome text mf toks (take_words date now_s text mf toks)
  unfolding take_words appended Outcome Uniform
  take_words-Outcome text mf [] = (refl, refl, λ h. refl)
  take_words-Outcome text mf (tok ∷ toks) = elim (consume-Uniform tok) [
    | inl h ↦
        rw (h mf, h no_filter, Outcome, take_words)
          (take_words-Outcome (add_text date now_s text tok) mf toks)
    | inr h ↦
        let (mf', e, a) = h mf in
        let (mf0, e0, a0) = h no_filter in
        let (t, b, c) = take_words-Outcome text mf' toks in
        rw (e, e0, Outcome, take_words)
          (t, b ∙ rw a (marked (some_predicate toks)), λ no. grind arith)
  ]

  free_words-All : (toks : List Text) → All (λ w. w ≢ []) toks → All (λ w. w ≢ []) (free_words toks)
  free_words-All [] h = h
  free_words-All (tok ∷ toks) (h, a) = elim (Bool-cases (is_predicate tok)) [
    | inl e ↦ rw (e) (free_words-All toks a)
    | inr e ↦ rw (e) (h, free_words-All toks a)
  ]

  -- The free text of a query is its words that are no predicates, in order and with a space between
  -- two; the filter is marked active if and only if it was or a word is a predicate, and it is the
  -- one given where none is.
  pub parse_meta_query-free_words :
      (query : Text) (mf : MetaFilter)
      → ((parse_meta_query date now_s query mf).0 ≡ join (free_words (words query)))
        × ((parse_meta_query date now_s query mf).1.active
            ≡ (if some_predicate (words query) then true else mf.active))
        × (some_predicate (words query) ≡ false → (parse_meta_query date now_s query mf).1 ≡ mf)
  unfolding parse_meta_query words Outcome
  parse_meta_query-free_words query mf =
      let (t, b, c) = take_words-Outcome [] mf (words query) in
      (
        t
            ∙ appended-join (free_words (words query))
                (free_words-All (words query) (words_from-All [] query)),
        b,
        c,
      )

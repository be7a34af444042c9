-- ===== src/Content/Segments.antt =====
-- The tokenizer "wl" of src/content/store.cpp: char_class, is_boundary and wl_trampoline, which
-- unicode61 calls with a token of the text. The callback of FTS5 is a parameter.
use waylaunch.Prelude.{ℕ, ◌+◌, ◌-◌, Bool, true, false, ◌&&◌, List, [], ◌∷◌, map}
use waylaunch.Prelude.Tests.{ltb, leb, if◌then◌else◌}
use waylaunch.Prelude.Lists.{length, first, after}
use waylaunch.Prelude.Text.{Text, to_lower}

pub data CharClass : Type 0 where
  upper lower digit other : CharClass

unfoldable pub char_class : ℕ → CharClass
char_class c =
    if leb b'A' c && leb c b'Z'
    then CharClass.upper
    else if leb b'a' c && leb c b'z'
    then CharClass.lower
    else if leb b'0' c && leb c b'9'
    then CharClass.digit
    else CharClass.other

unfoldable pub is_ascii : Text → Bool
is_ascii [] = true
is_ascii (c ∷ s) = if leb 128 c then false else is_ascii s

abbrev pub starts_lower : Text → Bool
starts_lower [] = false
starts_lower (c ∷ s) = elim (char_class c) [ CharClass.lower ↦ true | _ ↦ false ]

-- The classes of the bytes before and behind a place, and the bytes further on.
unfoldable pub class_boundary : CharClass → CharClass → Text → Bool
class_boundary CharClass.lower CharClass.upper next = true
class_boundary CharClass.upper CharClass.upper next = starts_lower next
class_boundary CharClass.upper CharClass.digit next = true
class_boundary CharClass.lower CharClass.digit next = true
class_boundary CharClass.digit CharClass.upper next = true
class_boundary CharClass.digit CharClass.lower next = true
class_boundary _ _ next = false

unfoldable pub is_boundary : ℕ → ℕ → Text → Bool
is_boundary before c next = class_boundary (char_class before) (char_class c) next

-- The boundaries from the index `i` on, where the byte `before` stands before it.
unfoldable pub bounds_from : ℕ → ℕ → Text → List ℕ
bounds_from i before [] = []
bounds_from i before (c ∷ s) =
    let more = bounds_from (i + 1) c s in if is_boundary before c s then i ∷ more else more

abbrev pub max_segs : ℕ
max_segs = 63

unfoldable pub bounds_of : Text → List ℕ
bounds_of [] = []
bounds_of (c ∷ s) =
    if ltb 1 (length (c ∷ s)) && (leb (length (c ∷ s)) 256 && is_ascii (c ∷ s))
    then first max_segs (bounds_from 1 c s)
    else []

-- What a call of xToken gets. The bytes of the text are those from `start` to `end_`.
pub record Token : Type 0 where
  pub colocated : Bool
  pub text : Text
  pub start : ℕ
  pub end_ : ℕ

abbrev pub slice : ℕ → ℕ → Text → Text
slice i j o = first (j - i) (after i o)

unfoldable pub segment : ℕ → Text → ℕ → ℕ → Token
segment base o i j = record {
  colocated = false;
  text = map to_lower (slice i j o);
  start = base + i;
  end_ = base + j;
}

-- The segments from `seg_start` on.
unfoldable pub segments_from : ℕ → Text → ℕ → List ℕ → List Token
segments_from base o seg_start [] = segment base o seg_start (length o) ∷ []
segments_from base o seg_start (b ∷ bounds) =
    segment base o seg_start b ∷ segments_from base o b bounds

abbrev pub whole : Bool → ℕ → Text → Text → Token
whole colocated base folded o = record {
  colocated = colocated;
  text = folded;
  start = base;
  end_ = base + length o;
}

-- The token unicode61 folded stands behind the first segment of an index.
abbrev pub with_compound : Bool → Token → List Token → List Token
with_compound true compound ts = ts
with_compound false compound [] = []
with_compound false compound (t ∷ ts) = t ∷ compound ∷ ts

-- The calls of xToken for the bytes `o` at `base`, given their boundaries, while all succeed.
unfoldable pub tokens_at : Bool → ℕ → Text → Text → List ℕ → List Token
tokens_at query base folded o [] = whole false base folded o ∷ []
tokens_at query base folded o (b ∷ bounds) =
    with_compound query (whole true base folded o) (segments_from base o 0 (b ∷ bounds))

unfoldable pub tokens : Bool → ℕ → Text → Text → List Token
tokens query base folded o = tokens_at query base folded o (bounds_of o)

-- The calls made, up to the first that fails, and whether none does.
unfoldable pub call_all : (Token → Bool) → List Token → List Token × Bool
call_all succeeds [] = ([], true)
call_all succeeds (t ∷ ts) =
    let (calls, ok) = call_all succeeds ts in
    if succeeds t then (t ∷ calls, ok) else (t ∷ [], false)

unfoldable pub trampoline : (Token → Bool) → Bool → ℕ → Text → Text → List Token × Bool
trampoline succeeds query base folded o = call_all succeeds (tokens query base folded o)

-- ===== src/History/Rows.antt =====
-- The rows of the history file: escape_field, split_fields, and the bodies of the loops of
-- HistoryStore::load and HistoryStore::save_locked. A row stands without its line end.
use waylaunch.Prelude.{
  ℕ, ◌+◌, ◌-◌, ◌%◌, ◌^◌, Bool, true, false, not, ◌&&◌, Option, none, some, List, [], ◌∷◌, ◌++◌,
}
use waylaunch.Prelude.Tests.{ltb, ◌==◌, if◌then◌else◌, ◌>>=◌}
use waylaunch.Prelude.Lists.{is_empty}
use waylaunch.Prelude.Int.{ℤ, pos, negsuc}
use waylaunch.Prelude.Text.{Text, codes, text_eq}
use waylaunch.Prelude.Decimal.{show_ℕ, show_ℤ, read_int}

pub record HistoryEntry : Type 0 where
  pub query : Text
  pub key : Text
  pub label : Text
  pub last_used : ℤ
  pub uses : ℕ

unfoldable pub escape_field : Text → Text
escape_field [] = []
escape_field (c ∷ s) =
    let rest = escape_field s in
    if c == 92
    then 92 ∷ 92 ∷ rest
    else if c == 9
    then 92 ∷ b't' ∷ rest
    else if c == 10
    then 92 ∷ b'n' ∷ rest
    else c ∷ rest

-- What a byte behind a backslash stands for.
unfoldable pub unescape : ℕ → ℕ
unescape c = if c == b't' then 9 else if c == b'n' then 10 else c

-- The loop of split_fields.
unfoldable pub split_from : List Text → Text → Bool → Text → List Text
split_from fields current escaped [] =
    fields ++ (if escaped then current ++ 92 ∷ [] else current) ∷ []
split_from fields current escaped (c ∷ s) =
    let unescaped = split_from fields (current ++ unescape c ∷ []) false s in
    let opened = split_from fields current true s in
    let pushed = split_from (fields ++ current ∷ []) [] false s in
    let grown = split_from fields (current ++ c ∷ []) false s in
    if escaped then unescaped else if c == 92 then opened else if c == 9 then pushed else grown

unfoldable pub split_fields : Text → List Text
split_fields line = split_from [] [] false line

-- `std::stoll`, and `std::stoul` cut to 32 bits; `none` where they throw.
unfoldable pub in_long_range : ℤ → Option ℤ
in_long_range (pos n) = if ltb n (2 ^ 63) then some (pos n) else none
in_long_range (negsuc n) = if ltb n (2 ^ 63) then some (negsuc n) else none

unfoldable pub stoll : Text → Option ℤ
stoll s = elim (read_int s) [ none ↦ none | some (n, rest) ↦ in_long_range n ]

unfoldable pub as_uint32 : ℤ → Option ℕ
as_uint32 (pos n) = if ltb n (2 ^ 64) then some (n % 2 ^ 32) else none
as_uint32 (negsuc n) = if ltb (n + 1) (2 ^ 64) then some ((2 ^ 64 - (n + 1)) % 2 ^ 32) else none

unfoldable pub stoul_uint32 : Text → Option ℕ
stoul_uint32 s = elim (read_int s) [ none ↦ none | some (n, rest) ↦ as_uint32 n ]

unfoldable pub print_row : HistoryEntry → Text
print_row e =
    codes "1"
    ++ (9
        ∷ (show_ℤ e.last_used
            ++ (9 ∷ (show_ℕ e.uses ++ (9 ∷ (escape_field e.query ++ (9 ∷ escape_field e.key)))))))

unfoldable pub checked_entry : ℤ → ℕ → Text → Text → Option HistoryEntry
checked_entry last_used uses query key =
    if not (is_empty query) && (not (is_empty key) && ltb 0 uses)
    then some (record { query = query; key = key; label = key; last_used = last_used; uses = uses })
    else none

unfoldable pub entry_of : Text → Text → Text → Text → Option HistoryEntry
entry_of time uses query key = do t ← stoll time; n ← stoul_uint32 uses; checked_entry t n query key

unfoldable pub from_fields : List Text → Option HistoryEntry
from_fields (version ∷ time ∷ uses ∷ query ∷ key ∷ []) =
    if text_eq version (codes "1") then entry_of time uses query key else none
from_fields _ = none

unfoldable pub parse_row : Text → Option HistoryEntry
parse_row line = from_fields (split_fields line)

-- ===== src/History/Store.antt =====
-- HistoryStore: src/ui/history.cpp and include/waylaunch/history.h, less the scores of frecency and
-- their half life, which are floating-point numbers. `file` is the text that the store's path has:
-- save_locked writes it whole under another name and renames it.
use waylaunch.Prelude.{
  ℕ, ◌+◌, ◌-◌, ◌%◌, ◌^◌, Bool, true, false, not, ◌&&◌, Option, none, some, List, [], ◌∷◌,
}
use waylaunch.Prelude.Tests.{ltb, leb, ◌==◌, if◌then◌else◌}
use waylaunch.Prelude.Lists.{length, is_empty}
use waylaunch.Prelude.Int.{ℤ, pos, ◌-ℤ◌, ◌*ℤ◌, ltb_ℤ, leb_ℤ, eq_ℤ}
use waylaunch.Prelude.Text.{Text, text_eq, text_ltb}
use waylaunch.History.Rows.{HistoryEntry, parse_row, print_row}

pub record HistoryStore : Type 0 where
  pub path : Text
  pub max_entries : ℕ
  pub max_age_days : ℕ
  pub entries : List HistoryEntry

-- `std::max(1, v)` on an int.
unfoldable pub at_least_one : ℤ → ℕ
at_least_one (pos n) = if ltb 1 n then n else 1
at_least_one _ = 1

unfoldable pub configure : HistoryStore → Text → ℤ → ℤ → HistoryStore
configure h path max_entries max_age_days = record h {
  path = path;
  max_entries = at_least_one max_entries;
  max_age_days = at_least_one max_age_days;
}

-- `std::ranges::remove_if` of the entries before `oldest`.
unfoldable pub keep_recent : ℤ → List HistoryEntry → List HistoryEntry
keep_recent oldest [] = []
keep_recent oldest (e ∷ es) =
    if ltb_ℤ e.last_used oldest then keep_recent oldest es else e ∷ keep_recent oldest es

-- `std::ranges::stable_sort` by the time of use, the latest first.
unfoldable pub insert_latest : HistoryEntry → List HistoryEntry → List HistoryEntry
insert_latest e [] = e ∷ []
insert_latest e (f ∷ fs) =
    if leb_ℤ f.last_used e.last_used then e ∷ f ∷ fs else f ∷ insert_latest e fs

unfoldable pub sort_latest : List HistoryEntry → List HistoryEntry
sort_latest [] = []
sort_latest (e ∷ es) = insert_latest e (sort_latest es)

-- `resize` to a smaller number.
unfoldable pub first_entries : ℕ → List HistoryEntry → List HistoryEntry
first_entries n [] = []
first_entries n (e ∷ es) = if n == 0 then [] else e ∷ first_entries (n - 1) es

unfoldable pub prune : ℤ → HistoryStore → HistoryStore
prune now h =
    let kept = keep_recent (now -ℤ pos h.max_age_days *ℤ pos 86400) h.entries in
    if leb (length kept) h.max_entries
    then record h { entries = kept }
    else record h { entries = first_entries h.max_entries (sort_latest kept) }

-- The rows of a file that parse.
unfoldable pub parse_rows : List Text → List HistoryEntry
parse_rows [] = []
parse_rows (line ∷ lines) = elim (parse_row line) [
  | none ↦ parse_rows lines
  | some e ↦ e ∷ parse_rows lines
]

-- `lines` are the lines of the file, where it opens. The result says whether there is a path.
unfoldable pub load : HistoryStore → Option (List Text) → ℤ → HistoryStore × Bool
load h lines now = if is_empty h.path then (record h { entries = [] }, false) else elim lines [
  | none ↦ (record h { entries = [] }, true)
  | some ls ↦ (prune now (record h { entries = parse_rows ls }), true)
]

-- The rows that save_locked writes.
unfoldable pub print_rows : List HistoryEntry → List Text
print_rows [] = []
print_rows (e ∷ es) = print_row e ∷ print_rows es

unfoldable pub used_again : HistoryEntry → Text → ℤ → HistoryEntry
used_again e label now = record e {
  last_used = now;
  uses = if ltb 1_000_000 ((e.uses + 1) % 2 ^ 32) then 1_000_000 else (e.uses + 1) % 2 ^ 32;
  label = if not (is_empty label) then label else e.label;
}

-- The first entry of that query and key is used again, or there is a new entry at the end.
unfoldable pub use_entry : Text → Text → Text → ℤ → List HistoryEntry → List HistoryEntry
use_entry query key label now [] =
    record { query = query; key = key; label = label; last_used = now; uses = 1 } ∷ []
use_entry query key label now (e ∷ es) =
    if text_eq e.query query && text_eq e.key key
    then used_again e label now ∷ es
    else e ∷ use_entry query key label now es

-- HistoryStore::record: the store after it, and the rows saved, where it saves.
unfoldable pub record_use :
    HistoryStore → Text → Text → Text → ℤ → HistoryStore × Option (List Text)
record_use h query key label now =
    let used = prune now (record h { entries = use_entry query key label now h.entries }) in
    if is_empty query
    then (h, none)
    else if is_empty key
    then (h, none)
    else (used, if is_empty h.path then none else some (print_rows used.entries))

-- The `std::map` from queries to their latest entries, in the order of its keys.
unfoldable pub put_query : HistoryEntry → List HistoryEntry → List HistoryEntry
put_query e [] = e ∷ []
put_query e (f ∷ fs) =
    if text_eq e.query f.query
    then (if ltb_ℤ f.last_used e.last_used then e ∷ fs else f ∷ fs)
    else if text_ltb e.query f.query
    then e ∷ f ∷ fs
    else f ∷ put_query e fs

unfoldable pub by_query : List HistoryEntry → List HistoryEntry → List HistoryEntry
by_query [] m = m
by_query (e ∷ es) m = by_query es (put_query e m)

-- Whether the sort of `recent` may put `e` before `f`, where `e` comes first.
unfoldable pub not_after : HistoryEntry → HistoryEntry → Bool
not_after e f =
    if not (eq_ℤ e.last_used f.last_used) then ltb_ℤ f.last_used e.last_used else leb f.uses e.uses

unfoldable pub insert_recent : HistoryEntry → List HistoryEntry → List HistoryEntry
insert_recent e [] = e ∷ []
insert_recent e (f ∷ fs) = if not_after e f then e ∷ f ∷ fs else f ∷ insert_recent e fs

unfoldable pub sort_recent : List HistoryEntry → List HistoryEntry
sort_recent [] = []
sort_recent (e ∷ es) = insert_recent e (sort_recent es)

unfoldable pub recent : HistoryStore → ℕ → List HistoryEntry
recent h limit =
    let result = sort_recent (by_query h.entries []) in
    if ltb limit (length result) then first_entries limit result else result

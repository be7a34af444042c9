-- ===== src/Tests/Index.antt =====
-- The content index at concrete inputs.
use waylaunch.Prelude.{
  ℕ, ◌+◌, ◌≡◌, refl, true, false, some, none, Option, List, [], ◌∷◌, map, arith,
}
use waylaunch.Prelude.Tests.{if◌then◌else◌}
use waylaunch.Prelude.Int.{pos}
use waylaunch.Prelude.Text.{Text, codes, text_eq}
use waylaunch.Content.Index.{
  FileState, FileRecord, has_id, has_doc, row_of, rows_where, docs_without, update_files,
  update_docs, put_doc, put, mark_files, tombstone_path, touch, touch_files, maintain, is_tombstone,
  indexed_paths, in_subtree,
}
use waylaunch.Content.Indexer.{
  ContentConfig, ExtractStatus, Stat, World, Indexer, is_excluded, full_reconcile, has_prefix,
  looks_like_hash_name, any_noise, any_prefix, base_name, stem, contains, component_from, starts,
}
use waylaunch.Content.Freshness.{Mirrored}
use waylaunch.Content.Consistency.{IsConsistent, IsFresh}
use waylaunch.Content.FullPass.{full_reconcile-Mirrored, full_reconcile_rows, IsWanted}
use waylaunch.Content.Subtree.{in_subtree-has_prefix}
use waylaunch.Content.LiveRows.{has_tombstone}
use waylaunch.Content.Upkeep.{
  Call, call, calls, no_rows, is_careful, all_careful, calls-IsConsistent,
}

-- One more than the keys of all rows together.
abbrev next_key : List FileRecord → ℕ
next_key [] = 1
next_key (r ∷ rows) = r.id + next_key rows + 1

above_all :
    (id : ℕ) (rows : List FileRecord) → (k : ℕ) × (id ≡ next_key rows + k) → has_id id rows ≡ false
unfolding has_id
above_all id [] h = refl
above_all id (r ∷ rows) (k, e) =
    let below = above_all id rows (r.id + 1 + k, omega (arith, e)) in ground (arith, below, e)

next_key-IsFresh : IsFresh next_key
next_key-IsFresh rows = above_all (next_key rows) rows (0, omega arith)

abbrev notes : Text
notes = codes "/h/a.md"

abbrev stat_of : Text → Option Stat
stat_of p =
    if text_eq p notes
    then some (record { is_regular = true; mtime = pos 7; size = pos 12 })
    else none

abbrev world : World
world = record {
  stat = stat_of;
  hash_file = λ p n. p;
  extract = λ p. record { status = ExtractStatus.ok; text = codes "hi"; mime = [] };
  detect_mime = λ p. [];
  filename = λ p. p;
  parent_path = λ p. [];
  fresh = next_key;
  compress = λ s. s;
  now = pos 99;
}

abbrev config : ContentConfig
config = record {
  roots = codes "/h" ∷ [];
  exclude_paths = codes "/h/private" ∷ [];
  excludes = codes "node_modules" ∷ [];
  max_file_bytes = 1000;
}

abbrev start : Indexer
start = record { index = no_rows; indexed = 0; errors = 0 }

not_excluded : is_excluded config [] notes ≡ false
unfolding is_excluded looks_like_hash_name any_noise any_prefix has_prefix starts base_name stem
    contains component_from
not_excluded = refl

full_reconcile-Mirrored_example :
    Mirrored
      (some (record { is_regular = true; mtime = pos 7; size = pos 12 }))
      false
      notes
      (full_reconcile config [] world (notes ∷ []) start).index.files
unfolding text_eq
full_reconcile-Mirrored_example =
    full_reconcile-Mirrored config [] world notes
      (record { is_regular = true; mtime = pos 7; size = pos 12 }) (notes ∷ []) start
      (refl, refl, not_excluded) refl

noted_row :
    (r : FileRecord) × (row_of notes (full_reconcile config [] world (notes ∷ []) start).index.files
      ≡ some r)
unfolding text_eq
noted_row =
    let (r, f, a, b, d) =
      full_reconcile-Mirrored config [] world notes
        (record { is_regular = true; mtime = pos 7; size = pos 12 }) (notes ∷ []) start
        (refl, refl, not_excluded) refl in
    (r, f)

full_reconcile_rows_example : (st : Stat) × IsWanted config [] world notes st
full_reconcile_rows_example =
    full_reconcile_rows config [] world notes noted_row.0 (notes ∷ []) start noted_row.1

abbrev note_record : Text → FileRecord
note_record path = record {
  id = 0;
  path = path;
  name = path;
  parent = codes "/h";
  size = pos 12;
  mtime_ns = pos 7;
  mime = codes "text/markdown";
  content_hash = [];
  indexed_at = pos 0;
  state = FileState.indexed;
}

abbrev tasks : Text
tasks = codes "/h/b.md"

-- Two files are stored, one is marked and the rows of the marked ones are deleted without their
-- docs; then the other one is touched, marked and stored again.
abbrev busy : List Call
busy =
    Call.puts true (pos 5) (note_record notes) (codes "hi")
    ∷ Call.puts true (pos 6) (note_record tasks) (codes "ho")
    ∷ Call.puts false (pos 6) (note_record notes) (codes "lost")
    ∷ Call.tombstones true notes
    ∷ Call.maintains false true
    ∷ Call.touches true (pos 7) tasks (pos 8) (pos 9)
    ∷ Call.tombstones true tasks
    ∷ Call.puts true (pos 9) (note_record tasks) (codes "ho")
    ∷ []

busy-all_careful : all_careful next_key (λ s. s) busy no_rows ≡ true
unfolding all_careful is_careful call put row_of update_files put_doc update_docs has_doc
    tombstone_path mark_files rows_where docs_without has_id maintain is_tombstone touch touch_files
    has_tombstone text_eq
busy-all_careful = refl

busy_docs : map (λ d. d.id) (calls next_key (λ s. s) busy no_rows).docs ≡ 3 ∷ []
unfolding calls call put row_of update_files put_doc update_docs has_doc tombstone_path mark_files
    rows_where docs_without has_id maintain is_tombstone touch touch_files text_eq
busy_docs = refl

calls-IsConsistent_example : IsConsistent (calls next_key (λ s. s) busy no_rows)
calls-IsConsistent_example =
    calls-IsConsistent next_key (λ s. s) busy next_key-IsFresh busy-all_careful

-- A tombstone that is touched is a row again, and has no doc.
touched_tombstone :
    let x =
      calls next_key
        (λ s. s)
        (Call.puts true (pos 5) (note_record notes) (codes "hi")
          ∷ Call.tombstones true notes
          ∷ Call.touches true (pos 7) notes (pos 8) (pos 9)
          ∷ [])
        no_rows in
    (indexed_paths x.files ≡ notes ∷ []) × (x.docs ≡ [])
unfolding calls call put row_of update_files put_doc update_docs has_doc tombstone_path mark_files
    rows_where docs_without has_id is_tombstone touch touch_files text_eq indexed_paths
touched_tombstone = (refl, refl)

in_subtree-has_prefix_example :
    in_subtree (codes "/h") (codes "/h/a.md") ≡ has_prefix (codes "/h/a.md") (codes "/h")
in_subtree-has_prefix_example = in_subtree-has_prefix (codes "/h") (codes "/h/a.md")

-- ===== src/Content/Indexer.antt =====
-- The decisions of src/content/indexer.cpp: which paths are left out, what index_file does with a
-- file, and the batches of the worker. The file system, the hash and the extractors are arguments.
use waylaunch.Prelude.{
  ℕ, zero, suc, ◌+◌, ◌-◌, Bool, true, false, not, ◌&&◌, ◌||◌, Option, none, some, List, [], ◌∷◌,
}
use waylaunch.Prelude.Tests.{◌==◌, if◌then◌else◌, ltb, leb}
use waylaunch.Prelude.Lists.{length, is_empty, after}
use waylaunch.Prelude.Int.{ℤ, pos, eq_ℤ, ltb_ℤ}
use waylaunch.Prelude.Text.{Text, codes, text_eq}
use waylaunch.Prelude.Decimal.{is_digit}
use waylaunch.Content.Index.{
  FileState, FileRecord, Index, put, remove, remove_subtree, touch, get, indexed_paths, maintain,
}

-- `starts_with`.
unfoldable pub starts : Text → Text → Bool
starts [] s = true
starts (c ∷ p) [] = false
starts (c ∷ p) (d ∷ s) = c == d && starts p s

-- At the end of a text or before a slash.
abbrev pub at_boundary : Text → Bool
at_boundary [] = true
at_boundary (c ∷ s) = c == b'/'

unfoldable pub has_prefix : Text → Text → Bool
unfolding starts
has_prefix s prefix = starts prefix s && at_boundary (after (length prefix) s)

unfoldable pub is_xdigit : ℕ → Bool
is_xdigit c = is_digit c || (leb b'a' c && leb c b'f') || (leb b'A' c && leb c b'F')

-- What stands behind the last slash.
unfoldable pub base_name : Text → Text → Text
base_name name [] = name
base_name name (c ∷ s) = if c == b'/' then base_name s s else base_name name s

unfoldable pub stem : Text → Text
stem [] = []
stem (c ∷ s) = if c == b'.' then [] else c ∷ stem s

unfoldable pub all_hex : Text → Bool
unfolding is_xdigit
all_hex [] = true
all_hex (c ∷ s) = is_xdigit c && all_hex s

unfoldable pub looks_like_hash_name : Text → Bool
unfolding base_name stem all_hex
looks_like_hash_name path =
    let name = stem (base_name path path) in if ltb (length name) 20 then false else all_hex name

unfoldable pub contains : Text → Text → Bool
unfolding starts
contains e [] = is_empty e
contains e (c ∷ s) = starts e (c ∷ s) || contains e s

-- The search for a component: how many bytes are passed over yet, and whether a component can start.
unfoldable pub component_from : ℕ → Bool → Text → Text → Bool
unfolding starts
component_from skip left e [] = false
component_from (suc skip) left e (c ∷ s) = component_from skip (c == b'/') e s
component_from zero left e (c ∷ s) =
    let here = starts e (c ∷ s) in
    let next = component_from (if here then length e - 1 else 0) (c == b'/') e s in
    if here && left && at_boundary (after (length e) (c ∷ s)) then true else next

unfoldable pub any_prefix : List Text → Text → Bool
unfolding has_prefix
any_prefix [] path = false
any_prefix (p ∷ ps) path = has_prefix path p || any_prefix ps path

-- The noise excludes.
unfoldable pub any_noise : List Text → Text → Bool
unfolding contains component_from
any_noise [] path = false
any_noise (e ∷ es) path =
    let rest = any_noise es path in
    if is_empty e
    then rest
    else (if contains (codes "/") e then contains e path else component_from 0 true e path) || rest

pub record ContentConfig : Type 0 where
  pub roots : List Text
  pub exclude_paths : List Text
  pub excludes : List Text
  pub max_file_bytes : ℕ

unfoldable pub under_roots : ContentConfig → Text → Bool
under_roots c path = any_prefix c.roots path

unfoldable pub is_excluded : ContentConfig → List Text → Text → Bool
unfolding looks_like_hash_name any_prefix any_noise
is_excluded c runtime_excludes path =
    if looks_like_hash_name path
    then true
    else if any_prefix c.exclude_paths path
    then true
    else if any_prefix runtime_excludes path
    then true
    else any_noise c.excludes path

pub data ExtractStatus : Type 0 where
  ok unsupported empty timeout error : ExtractStatus

pub record ExtractResult : Type 0 where
  pub status : ExtractStatus
  pub text : Text
  pub mime : Text

-- `stat`, where it succeeds.
pub record Stat : Type 0 where
  pub is_regular : Bool
  pub mtime : ℤ
  pub size : ℤ

-- What the program asks of the file system, of the extractors and of SQLite.
pub record World : Type 0 where
  pub stat : Text → Option Stat
  pub hash_file : Text → ℕ → Text
  pub extract : Text → ExtractResult
  pub detect_mime : Text → Text
  pub filename : Text → Text
  pub parent_path : Text → Text
  pub fresh : List FileRecord → ℕ
  pub compress : Text → Text
  pub now : ℤ

-- The index and the counters of the worker.
pub record Indexer : Type 0 where
  pub index : Index
  pub indexed : ℕ
  pub errors : ℕ

unfoldable pub is_failure : ExtractStatus → Bool
is_failure ExtractStatus.timeout = true
is_failure ExtractStatus.error = true
is_failure _ = false

unfoldable pub is_indexed : FileState → Bool
is_indexed FileState.indexed = true
is_indexed _ = false

unfoldable pub remove_all : List Text → Index → Index
remove_all [] x = x
remove_all (p ∷ paths) x = remove_all paths (remove true p x).0

module _ (c : ContentConfig) (runtime_excludes : List Text) (w : World) where
  unfoldable pub forget : Bool → Text → Indexer → Indexer
  forget done path ix = record ix { index = (remove done path ix.index).0 }

  -- The end of index_file, for a record and a body.
  unfoldable pub store_record : Bool → FileRecord → Text → Indexer → Indexer
  unfolding is_indexed
  store_record done rec body ix =
      let stored = put w.fresh w.compress done w.now rec body ix.index in
      record ix {
        index = stored.0;
        indexed = if stored.1 && is_indexed rec.state then ix.indexed + 1 else ix.indexed;
      }

  unfoldable pub record_of : Text → Stat → FileRecord
  record_of path st = record {
    id = 0;
    path = path;
    name = w.filename path;
    parent = w.parent_path path;
    size = st.size;
    mtime_ns = st.mtime;
    mime = [];
    content_hash = w.hash_file path c.max_file_bytes;
    indexed_at = pos 0;
    state = FileState.indexed;
  }

  unfoldable pub extract_file : Bool → Text → Stat → Indexer → Indexer
  unfolding store_record record_of is_failure
  extract_file done path st ix =
      let rec = record_of path st in
      let r = w.extract path in
      if ltb_ℤ (pos c.max_file_bytes) st.size
      then store_record done (record rec { mime = w.detect_mime path }) [] ix
      else if is_failure r.status
      then store_record done (record rec { mime = r.mime; state = FileState.error }) []
          (record ix { errors = ix.errors + 1 })
      else store_record done (record rec { mime = r.mime }) r.text ix

  unfoldable pub is_unchanged : FileRecord → Stat → Bool
  is_unchanged row st = is_indexed row.state && eq_ℤ row.mtime_ns st.mtime && eq_ℤ row.size st.size

  -- index_file, for a regular file that is not left out.
  unfoldable pub refresh : Bool → Text → Stat → Indexer → Indexer
  unfolding extract_file is_unchanged
  refresh done path st ix = elim (get path ix.index) [
    | none ↦ extract_file done path st ix
    | some row ↦
        if is_unchanged row st
        then ix
        else if not (is_empty row.content_hash)
            && text_eq row.content_hash (w.hash_file path c.max_file_bytes)
        then record ix { index = (touch done w.now path st.mtime st.size ix.index).0 }
        else extract_file done path st ix
  ]

  unfoldable pub index_file : Bool → Text → Indexer → Indexer
  unfolding forget refresh is_excluded
  index_file done path ix = elim (w.stat path) [
    | none ↦ forget done path ix
    | some st ↦
        if not st.is_regular
        then ix
        else if is_excluded c runtime_excludes path
        then forget done path ix
        else refresh done path st ix
  ]

  -- Whether reconcile_deletions takes a path out.
  unfoldable pub is_gone : Text → Bool
  unfolding is_excluded
  is_gone path = elim (w.stat path) [
    | none ↦ true
    | some st ↦ not st.is_regular || is_excluded c runtime_excludes path
  ]

  unfoldable pub gone_paths : List Text → List Text
  unfolding is_gone
  gone_paths [] = []
  gone_paths (p ∷ paths) = let rest = gone_paths paths in if is_gone p then p ∷ rest else rest

  -- With statements that do not fail.
  unfoldable pub reconcile_deletions : Index → Index
  unfolding gone_paths remove_all
  reconcile_deletions x = remove_all (gone_paths (indexed_paths x.files)) x

  -- The loop of crawl_all over the files that its walk comes to, below the size cap.
  unfoldable pub crawl : List Text → Indexer → Indexer
  unfolding index_file
  crawl [] ix = ix
  crawl (p ∷ paths) ix =
      let next = if is_excluded c runtime_excludes p then ix else index_file true p ix in
      crawl paths next

  -- With statements that do not fail, those of maintain included.
  unfoldable pub full_reconcile : List Text → Indexer → Indexer
  unfolding crawl reconcile_deletions
  full_reconcile paths ix =
      let after_crawl = crawl paths ix in
      record after_crawl { index = maintain true true (reconcile_deletions after_crawl.index) }

-- An item of the queue.
pub data WorkItem : Type 0 where
  index remove_one remove_tree : Text → WorkItem

module _ (c : ContentConfig) (runtime_excludes : List Text) (w : World) where
  unfoldable pub work : Bool → WorkItem → Indexer → Indexer
  work done (WorkItem.index p) ix = index_file c runtime_excludes w done p ix
  work done (WorkItem.remove_one p) ix = record ix { index = (remove done p ix.index).0 }
  work done (WorkItem.remove_tree p) ix = record ix { index = (remove_subtree done p ix.index).0 }

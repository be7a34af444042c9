-- ===== src/Content/Index.antt =====
-- The rows of the content index: what the statements of src/content/store.cpp do to the tables
-- `files` and `docs` of the database, which the triggers on `docs` make the full-text index follow.
-- The order of the rows means nothing. A call's `done` says that no statement of it failed: one that
-- fails rolls its savepoint back. A row's new key comes from SQLite.
use waylaunch.Prelude.{
  ℕ, Bool, true, false, not, ◌&&◌, ◌||◌, Option, none, some, List, [], ◌∷◌, ◌++◌,
}
use waylaunch.Prelude.Tests.{◌==◌, if◌then◌else◌}
use waylaunch.Prelude.Lists.{is_empty}
use waylaunch.Prelude.Int.{ℤ, pos, eq_ℤ}
use waylaunch.Prelude.Text.{Text, codes, text_eq, text_ltb}

pub data FileState : Type 0 where
  indexed pending tombstone error : FileState

pub record FileRecord : Type 0 where
  pub id : ℕ
  pub path : Text
  pub name : Text
  pub parent : Text
  pub size : ℤ
  pub mtime_ns : ℤ
  pub mime : Text
  pub content_hash : Text
  pub indexed_at : ℤ
  pub state : FileState

-- A row of `docs`.
pub record Doc : Type 0 where
  pub id : ℕ
  pub name : Text
  pub body_z : Text

pub record Index : Type 0 where
  pub files : List FileRecord
  pub docs : List Doc

unfoldable pub is_tombstone : FileState → Bool
is_tombstone FileState.tombstone = true
is_tombstone _ = false

unfoldable pub has_id : ℕ → List FileRecord → Bool
has_id id [] = false
has_id id (r ∷ rows) = id == r.id || has_id id rows

unfoldable pub has_doc : ℕ → List Doc → Bool
has_doc id [] = false
has_doc id (d ∷ docs) = id == d.id || has_doc id docs

-- The row of a path.
unfoldable pub row_of : Text → List FileRecord → Option FileRecord
row_of path [] = none
row_of path (r ∷ rows) = let rest = row_of path rows in if text_eq path r.path then some r else rest

-- The rows that a condition chooses, or the others.
unfoldable pub rows_where : Bool → (FileRecord → Bool) → List FileRecord → List FileRecord
rows_where chosen p [] = []
rows_where chosen p (r ∷ rows) =
    let rest = rows_where chosen p rows in
    if (if chosen then p r else not (p r)) then r ∷ rest else rest

-- The docs that have no row among these.
unfoldable pub docs_without : List FileRecord → List Doc → List Doc
unfolding has_id
docs_without rows [] = []
docs_without rows (d ∷ docs) =
    let rest = docs_without rows docs in if has_id d.id rows then rest else d ∷ rest

-- The rows of a condition are deleted, after their docs.
unfoldable pub delete_where : (FileRecord → Bool) → Index → Index
unfolding rows_where docs_without
delete_where p x = record {
  files = rows_where false p x.files;
  docs = docs_without (rows_where true p x.files) x.docs;
}

-- `INSERT INTO files ... ON CONFLICT(path) DO UPDATE`: the key of an existing row stays.
unfoldable pub update_files : FileRecord → List FileRecord → List FileRecord
update_files rec [] = []
update_files rec (r ∷ rows) =
    let rest = update_files rec rows in
    (if text_eq rec.path r.path then record rec { id = r.id } else r) ∷ rest

unfoldable pub update_docs : Doc → List Doc → List Doc
update_docs d [] = []
update_docs d (e ∷ docs) = let rest = update_docs d docs in (if d.id == e.id then d else e) ∷ rest

unfoldable pub put_doc : Doc → List Doc → List Doc
unfolding update_docs has_doc
put_doc d docs = if has_doc d.id docs then update_docs d docs else d ∷ docs

-- `kSubtreeWhere`, whose comparisons are those of bytes.
unfoldable pub in_subtree : Text → Text → Bool
in_subtree dir path =
    text_eq path dir || (not (text_ltb path (dir ++ codes "/")) && text_ltb path (dir ++ codes "0"))

module _ (fresh : List FileRecord → ℕ) (compress : Text → Text) where
  -- Store::put at a time, in a database that can be written.
  unfoldable pub put : Bool → ℤ → FileRecord → Text → Index → Index × Bool
  unfolding row_of update_files put_doc
  put done now rec body x =
      let stamped = record rec {
        indexed_at = if eq_ℤ rec.indexed_at (pos 0) then now else rec.indexed_at;
      } in
      let doc_of : ℕ → Doc = λ id. record { id = id; name = rec.name; body_z = compress body } in
      if not done then (x, false) else elim (row_of rec.path x.files) [
        | none ↦ (
          record {
            files = record stamped { id = fresh x.files } ∷ x.files;
            docs = put_doc (doc_of (fresh x.files)) x.docs;
          },
          true,
        )
        | some r ↦ (
          record { files = update_files stamped x.files; docs = put_doc (doc_of r.id) x.docs },
          true,
        )
      ]

unfoldable pub remove : Bool → Text → Index → Index × Bool
unfolding delete_where row_of
remove done path x = if not done then (x, false) else (
  delete_where (λ r. text_eq path r.path) x,
  elim (row_of path x.files) [ none ↦ false | some r ↦ true ],
)

unfoldable pub remove_subtree : Bool → Text → Index → Index × Bool
unfolding delete_where in_subtree
remove_subtree done dir x =
    if is_empty dir
    then (x, false)
    else if text_eq dir (codes "/")
    then (x, false)
    else if not done
    then (x, false)
    else (delete_where (λ r. in_subtree dir r.path) x, true)

unfoldable pub mark_files : Text → List FileRecord → List FileRecord
mark_files path [] = []
mark_files path (r ∷ rows) =
    let rest = mark_files path rows in
    (if text_eq path r.path then record r { state = FileState.tombstone } else r) ∷ rest

-- Store::tombstone: the row stays, in the state tombstone, and its doc is deleted.
unfoldable pub tombstone_path : Bool → Text → Index → Index × Bool
unfolding mark_files rows_where docs_without row_of
tombstone_path done path x = if not done then (x, false) else elim (row_of path x.files) [
  | none ↦ (x, false)
  | some r ↦ (
    record {
      files = mark_files path x.files;
      docs = docs_without (rows_where true (λ r. text_eq path r.path) x.files) x.docs;
    },
    true,
  )
]

unfoldable pub touch_files : Text → ℤ → ℤ → ℤ → List FileRecord → List FileRecord
touch_files path mtime size now [] = []
touch_files path mtime size now (r ∷ rows) =
    let rest = touch_files path mtime size now rows in
    let touched = record r {
      mtime_ns = mtime;
      size = size;
      indexed_at = now;
      state = FileState.indexed;
    } in
    (if text_eq path r.path then touched else r) ∷ rest

unfoldable pub touch : Bool → ℤ → Text → ℤ → ℤ → Index → Index × Bool
unfolding touch_files row_of
touch done now path mtime size x = if not done then (x, false) else (
  record x { files = touch_files path mtime size now x.files },
  elim (row_of path x.files) [ none ↦ false | some r ↦ true ],
)

unfoldable pub get : Text → Index → Option FileRecord
unfolding row_of
get path x = row_of path x.files

-- The paths that for_each_indexed_path hands out.
unfoldable pub indexed_paths : List FileRecord → List Text
unfolding is_tombstone
indexed_paths [] = []
indexed_paths (r ∷ rows) =
    let rest = indexed_paths rows in if is_tombstone r.state then rest else r.path ∷ rest

-- The statements of the two calls below stand in no savepoint, and each may fail for itself: the
-- first test says whether the docs were deleted, the second whether the rows were.
unfoldable pub clear : Bool → Bool → Index → Index
clear docs_done files_done x = record {
  files = if files_done then [] else x.files;
  docs = if docs_done then [] else x.docs;
}

unfoldable pub maintain : Bool → Bool → Index → Index
unfolding rows_where docs_without is_tombstone
maintain docs_done files_done x =
    let dead : FileRecord → Bool = λ r. is_tombstone r.state in
    record {
      files = if files_done then rows_where false dead x.files else x.files;
      docs = if docs_done then docs_without (rows_where true dead x.files) x.docs else x.docs;
    }

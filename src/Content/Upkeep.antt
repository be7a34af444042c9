-- ===== src/Content/Upkeep.antt =====
-- Sequences of calls of src/content/store.cpp that change its tables.
use waylaunch.Prelude.{inl, inr, ℕ, Bool, true, false, not, ◌&&◌, List, [], ◌∷◌, ◌≡◌, refl, arith}
use waylaunch.Prelude.Tests.{if◌then◌else◌, Bool-cases}
use waylaunch.Prelude.Lists.{is_empty}
use waylaunch.Prelude.Int.{ℤ}
use waylaunch.Prelude.Text.{Text, codes, text_eq}
use waylaunch.Content.Index.{
  FileRecord, Index, has_doc, put, remove, remove_subtree, tombstone_path, touch, clear, maintain,
  is_tombstone, in_subtree,
}
use waylaunch.Content.Consistency.{
  IsConsistent, IsFresh, put-IsConsistent, remove-IsConsistent, touch-IsConsistent,
  tombstone_path-IsConsistent, maintain-IsConsistent, delete_where-IsConsistent,
}
use waylaunch.Content.LiveRows.{has_live, has_tombstone}

-- The calls that change the tables. Those of one statement or in a savepoint say whether no
-- statement failed, the other two say so of each of their statements.
pub data Call : Type 0 where
  puts : Bool → ℤ → FileRecord → Text → Call
  removes removes_subtree : Bool → Text → Call
  touches : Bool → ℤ → Text → ℤ → ℤ → Call
  tombstones : Bool → Text → Call
  clears maintains : Bool → Bool → Call

abbrev pub no_rows : Index
no_rows = record { files = []; docs = [] }

no_rows-IsConsistent : IsConsistent no_rows
unfolding IsConsistent has_live has_doc
no_rows-IsConsistent = (tt, λ id. refl)

remove_subtree-IsConsistent :
    (done : Bool) (dir : Text) (x : Index)
    → IsConsistent x
    → IsConsistent (remove_subtree done dir x).0
unfolding remove_subtree
remove_subtree-IsConsistent done dir x h = elim (Bool-cases (is_empty dir)) [
  | inl e ↦ rw e h
  | inr e ↦ elim (Bool-cases (text_eq dir (codes "/"))) [
    | inl t ↦ rw (e, t) h
    | inr t ↦ elim (Bool-cases done) [
      | inl d ↦ rw (e, t, d) (delete_where-IsConsistent (λ r. in_subtree dir r.path) x h)
      | inr d ↦ rw (e, t, d) h
    ]
  ]
]

-- No record is put as a tombstone, no path of a tombstone is touched, and of a clear both
-- statements fail or neither does.
unfoldable pub is_careful : Call → Index → Bool
is_careful (Call.puts done now rec body) x = not (is_tombstone rec.state)
is_careful (Call.touches done now path mtime size) x = not (has_tombstone path x.files)
is_careful (Call.clears docs_done files_done) x = if docs_done then files_done else not files_done
is_careful _ x = true

clear-IsConsistent :
    (docs_done files_done : Bool) (x : Index)
    → is_careful (Call.clears docs_done files_done) x ≡ true
    → IsConsistent x
    → IsConsistent (clear docs_done files_done x)
unfolding clear is_careful
clear-IsConsistent true true x c h = no_rows-IsConsistent
clear-IsConsistent true false x c h = cc
clear-IsConsistent false true x c h = cc
clear-IsConsistent false false x c h = h

module _ (fresh : List FileRecord → ℕ) (compress : Text → Text) where
  unfoldable pub call : Call → Index → Index
  call (Call.puts done now rec body) x = (put fresh compress done now rec body x).0
  call (Call.removes done path) x = (remove done path x).0
  call (Call.removes_subtree done dir) x = (remove_subtree done dir x).0
  call (Call.touches done now path mtime size) x = (touch done now path mtime size x).0
  call (Call.tombstones done path) x = (tombstone_path done path x).0
  call (Call.clears docs_done files_done) x = clear docs_done files_done x
  call (Call.maintains docs_done files_done) x = maintain docs_done files_done x

  unfoldable pub calls : List Call → Index → Index
  unfolding call
  calls [] x = x
  calls (k ∷ ks) x = calls ks (call k x)

  unfoldable pub all_careful : List Call → Index → Bool
  unfolding call
  all_careful [] x = true
  all_careful (k ∷ ks) x = is_careful k x && all_careful ks (call k x)

  call-IsConsistent :
      (k : Call) (x : Index)
      → IsFresh fresh
      → is_careful k x ≡ true
      → IsConsistent x
      → IsConsistent (call k x)
  unfolding call is_careful
  call-IsConsistent (Call.puts done now rec body) x f c h =
      put-IsConsistent fresh compress done now rec body x f (ground (arith, c)) h
  call-IsConsistent (Call.removes done path) x f c h = remove-IsConsistent done path x h
  call-IsConsistent (Call.removes_subtree done dir) x f c h =
      remove_subtree-IsConsistent done dir x h
  call-IsConsistent (Call.touches done now path mtime size) x f c h =
      touch-IsConsistent done now path mtime size x (ground (arith, c)) h
  call-IsConsistent (Call.tombstones done path) x f c h = tombstone_path-IsConsistent done path x h
  call-IsConsistent (Call.clears docs_done files_done) x f c h =
      clear-IsConsistent docs_done files_done x c h
  call-IsConsistent (Call.maintains docs_done files_done) x f c h =
      maintain-IsConsistent docs_done files_done x h

  kept-IsConsistent :
      (ks : List Call) (x : Index)
      → IsFresh fresh
      → all_careful ks x ≡ true
      → IsConsistent x
      → IsConsistent (calls ks x)
  unfolding calls all_careful
  kept-IsConsistent [] x f c h = h
  kept-IsConsistent (k ∷ ks) x f c h =
      kept-IsConsistent ks (call k x) f (ground (arith, c))
        (call-IsConsistent k x f (ground (arith, c)) h)

  -- When new rows get keys that no row has, no record is put as a tombstone, no path of a tombstone
  -- is touched, and of the two statements of a clear both fail or neither does, then after calls
  -- from empty tables, whichever of them failed, those of a maintenance half way included, no two
  -- rows have one key or one path, and a key has a doc exactly when it has a row that is no
  -- tombstone.
  pub calls-IsConsistent :
      (ks : List Call)
      → IsFresh fresh
      → all_careful ks no_rows ≡ true
      → IsConsistent (calls ks no_rows)
  calls-IsConsistent ks f c = kept-IsConsistent ks no_rows f c no_rows-IsConsistent

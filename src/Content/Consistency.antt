-- ===== src/Content/Consistency.antt =====
-- What it is for the tables `files` and `docs` of src/content/store.cpp to be in step, and each of
-- the statements that change them.
use waylaunch.Prelude.{
  ℕ, Bool, true, false, not, ◌&&◌, ◌||◌, List, [], ◌∷◌, ◌≡◌, refl, sym, ap, ◌∙◌, inl, inr,
}
use waylaunch.Prelude.Tests.{◌==◌, if◌then◌else◌, Bool-cases, Option-cases, ==_iff}
use waylaunch.Prelude.Int.{ℤ, pos, eq_ℤ}
use waylaunch.Prelude.Text.{Text, text_eq}
use waylaunch.Content.Index.{
  FileRecord, Doc, Index, is_tombstone, has_id, has_doc, row_of, rows_where, docs_without,
  delete_where, update_docs, put_doc, mark_files, put, remove, tombstone_path, touch, maintain,
}
use waylaunch.Content.Keys.{
  Distinct, no_row-has_path, update-Distinct, touch-Distinct, mark-Distinct, where-Distinct,
}
use waylaunch.Content.LiveRows.{
  has_live, has_tombstone, where_live, mark_live, purged_live, touch_live, update_live,
}

-- No two rows have one key or one path, and a key has a doc exactly when it has a row that is no
-- tombstone.
unfoldable pub IsConsistent : Index → Type 0
IsConsistent x = Distinct x.files × ((id : ℕ) → has_doc id x.docs ≡ has_live id x.files)

and_false : (b : Bool) → (b && false) ≡ false
and_false true = refl
and_false false = refl

without_docs :
    (rows : List FileRecord) (id : ℕ) (docs : List Doc)
    → has_doc id (docs_without rows docs) ≡ (has_doc id docs && not (has_id id rows))
unfolding has_doc docs_without
without_docs rows id [] = refl
without_docs rows id (d ∷ docs) =
    let ih = without_docs rows id docs in
    elim (Bool-cases (has_id d.id rows)) [
      | inl e ↦ elim (Bool-cases (id == d.id)) [
        | inl t ↦
            let has : has_id id rows ≡ true = ap (λ k. has_id k rows) ((==_iff id d.id).0 t) ∙ e in
            rw (e, t) (ih ∙ rw has (and_false (has_doc id docs)))
        | inr f ↦ rw (e, f) ih
      ]
      | inr e ↦ elim (Bool-cases (id == d.id)) [
        | inl t ↦
            let has : has_id id rows ≡ false = ap (λ k. has_id k rows) ((==_iff id d.id).0 t) ∙ e in
            rw (e, t, has_doc) (rw has refl)
        | inr f ↦ rw (e, f, has_doc) ih
      ]
    ]

update_docs_id :
    (d : Doc) (id : ℕ) (docs : List Doc) → has_doc id (update_docs d docs) ≡ has_doc id docs
unfolding has_doc update_docs
update_docs_id d id [] = refl
update_docs_id d id (e ∷ docs) = elim (Bool-cases (d.id == e.id)) [
  | inl t ↦
      let same : (id == d.id) ≡ (id == e.id) = ap (λ k. id == k) ((==_iff d.id e.id).0 t) in
      rw t (rw (same, update_docs_id d id docs) refl)
  | inr f ↦ rw f (ap (λ b. id == e.id || b) (update_docs_id d id docs))
]

-- A key that is there is found.
present :
    (b : Bool) (id key : ℕ) (docs : List Doc)
    → (id == key) ≡ b
    → has_doc key docs ≡ true
    → has_doc id docs ≡ (b || has_doc id docs)
present true id key docs e h = ap (λ k. has_doc k docs) ((==_iff id key).0 e) ∙ h
present false id key docs e h = refl

put_doc_id :
    (d : Doc) (id : ℕ) (docs : List Doc)
    → has_doc id (put_doc d docs) ≡ (id == d.id || has_doc id docs)
unfolding has_doc put_doc
put_doc_id d id docs = elim (Bool-cases (has_doc d.id docs)) [
  | inl e ↦ rw e (update_docs_id d id docs ∙ present (id == d.id) id d.id docs refl e)
  | inr e ↦ rw (e, has_doc) refl
]

-- The rows chosen lose their docs, and they are deleted or marked.
module _ (p : FileRecord → Bool) (x : Index) where
  deleted_docs :
      (rows : List FileRecord)
      → Distinct x.files
      → ((id : ℕ) → has_doc id x.docs ≡ has_live id x.files)
      → ((id : ℕ)
          → has_live id rows ≡ (has_live id x.files && not (has_id id (rows_where true p x.files))))
      → (id : ℕ) → has_doc id (docs_without (rows_where true p x.files) x.docs) ≡ has_live id rows
  deleted_docs rows d h l id =
      without_docs (rows_where true p x.files) id x.docs
      ∙ (ap (λ b. b && not (has_id id (rows_where true p x.files))) (h id) ∙ sym (l id))

  pub delete_where-IsConsistent : IsConsistent x → IsConsistent (delete_where p x)
  unfolding IsConsistent delete_where
  delete_where-IsConsistent (d, h) = (
    where-Distinct false p x.files d,
    deleted_docs (rows_where false p x.files) d h (λ id. where_live p id x.files d),
  )

-- The key that SQLite gives to a new row is one that no row has.
abbrev pub IsFresh : (List FileRecord → ℕ) → Type 0
IsFresh fresh = (rows : List FileRecord) → has_id (fresh rows) rows ≡ false

pub put-IsConsistent :
    (fresh : List FileRecord → ℕ) (compress : Text → Text) (done : Bool) (now : ℤ)
    (rec : FileRecord) (body : Text) (x : Index)
    → IsFresh fresh
    → is_tombstone rec.state ≡ false
    → IsConsistent x
    → IsConsistent (put fresh compress done now rec body x).0
unfolding IsConsistent put has_live
put-IsConsistent fresh compress false now rec body x f l h = h
put-IsConsistent fresh compress true now rec body x f l (d, h) =
    let stamped : FileRecord = record rec {
      indexed_at = if eq_ℤ rec.indexed_at (pos 0) then now else rec.indexed_at;
    } in
    let doc_of : ℕ → Doc = λ id. record { id = id; name = rec.name; body_z = compress body } in
    elim (Option-cases (row_of rec.path x.files)) [
      | inl n ↦
          rw (n, put)
            (
              (f x.files, no_row-has_path rec.path x.files n, d),
              λ id.
                  put_doc_id (doc_of (fresh x.files)) id x.docs
                  ∙ (ap (λ b. id == fresh x.files || b) (h id)
                      ∙ new_live (id == fresh x.files) (is_tombstone rec.state)
                          (has_live id x.files) l),
            )
      | inr (r, n) ↦
          rw (n, put)
            (
              update-Distinct stamped x.files d,
              λ id.
                  put_doc_id (doc_of r.id) id x.docs
                  ∙ (ap (λ b. id == r.id || b) (h id)
                      ∙ sym (update_live stamped r id x.files l d n)),
            )
    ]
  where
    new_live : (b dead c : Bool) → dead ≡ false → (b || c) ≡ ((b && not dead) || c)
    new_live true dead c e = rw e refl
    new_live false dead c e = refl

pub remove-IsConsistent :
    (done : Bool) (path : Text) (x : Index) → IsConsistent x → IsConsistent (remove done path x).0
unfolding remove
remove-IsConsistent false path x h = h
remove-IsConsistent true path x h = delete_where-IsConsistent (λ r. text_eq path r.path) x h

pub tombstone_path-IsConsistent :
    (done : Bool) (path : Text) (x : Index)
    → IsConsistent x
    → IsConsistent (tombstone_path done path x).0
unfolding tombstone_path IsConsistent
tombstone_path-IsConsistent false path x h = h
tombstone_path-IsConsistent true path x (d, h) = elim (Option-cases (row_of path x.files)) [
  | inl n ↦ rw (n, tombstone_path) (d, h)
  | inr (r, n) ↦
      rw (n, tombstone_path)
        (
          mark-Distinct path x.files d,
          deleted_docs (λ r. text_eq path r.path) x (mark_files path x.files) d h
              (λ id. mark_live path id x.files d),
        )
]

pub touch-IsConsistent :
    (done : Bool) (now : ℤ) (path : Text) (mtime size : ℤ) (x : Index)
    → has_tombstone path x.files ≡ false
    → IsConsistent x
    → IsConsistent (touch done now path mtime size x).0
unfolding touch IsConsistent
touch-IsConsistent false now path mtime size x l h = h
touch-IsConsistent true now path mtime size x l (d, h) = (
  touch-Distinct path mtime size now x.files d,
  λ id. h id ∙ sym (touch_live path mtime size now id x.files l),
)

-- A maintenance keeps the tables in step, whichever of its two statements fails.
pub maintain-IsConsistent :
    (docs_done files_done : Bool) (x : Index)
    → IsConsistent x
    → IsConsistent (maintain docs_done files_done x)
unfolding maintain IsConsistent
maintain-IsConsistent false false x h = h
maintain-IsConsistent false true x (d, h) = (
  where-Distinct false (λ r. is_tombstone r.state) x.files d,
  λ id. h id ∙ sym (purged_live id x.files),
)
maintain-IsConsistent true false x (d, h) = (
  d,
  deleted_docs (λ r. is_tombstone r.state) x x.files d h
      (λ id. sym (purged_live id x.files) ∙ where_live (λ r. is_tombstone r.state) id x.files d),
)
maintain-IsConsistent true true x (d, h) = (
  where-Distinct false (λ r. is_tombstone r.state) x.files d,
  deleted_docs (λ r. is_tombstone r.state) x (rows_where false (λ r. is_tombstone r.state) x.files)
      d h (λ id. where_live (λ r. is_tombstone r.state) id x.files d),
)

-- ===== src/Content/Freshness.antt =====
-- What index_file of src/content/indexer.cpp leaves of a file in the index.
use waylaunch.Prelude.{
  Bool, true, false, not, ◌&&◌, Option, none, some, List, [], ◌∷◌, ◌≡◌, refl, ap, ◌∙◌, inl, inr,
  arith, Bool, ◌+◌,
}
use waylaunch.Prelude.Tests.{if◌then◌else◌, Bool-cases, Option-cases, some_injective}
use waylaunch.Prelude.Lists.{is_empty}
use waylaunch.Prelude.Int.{ℤ, pos, eq_ℤ, eq_ℤ→eq, ltb_ℤ}
use waylaunch.Prelude.Text.{Text, text_eq, text_eq_iff, text_eq_refl}
use waylaunch.Content.Index.{
  FileRecord, FileState, is_tombstone, row_of, rows_where, delete_where, update_files, put, remove,
  touch, touch_files, get,
}
use waylaunch.Content.Indexer.{
  ContentConfig, Stat, World, Indexer, is_excluded, forget, store_record, record_of, extract_file,
  is_unchanged, is_indexed, is_failure, refresh, index_file,
}

-- Two paths differ when they are compared with the same third one.
pub differs :
    (q path p : Text) → text_eq q path ≡ false → text_eq path p ≡ true → text_eq q p ≡ false
differs q path p h e = let same : path ≡ p = (text_eq_iff path p).0 e in rw same at h

pub removed :
    (path : Text) (rows : List FileRecord)
    → row_of path (rows_where false (λ r. text_eq path r.path) rows) ≡ none
unfolding row_of rows_where
removed path [] = refl
removed path (r ∷ rows) = elim (Bool-cases (text_eq path r.path)) [
  | inl e ↦ rw e (removed path rows)
  | inr e ↦ rw (e, row_of) (rw e (removed path rows))
]

pub removed_others :
    (q path : Text) (rows : List FileRecord)
    → text_eq q path ≡ false
    → row_of q (rows_where false (λ r. text_eq path r.path) rows) ≡ row_of q rows
unfolding row_of rows_where
removed_others q path [] h = refl
removed_others q path (r ∷ rows) h = elim (Bool-cases (text_eq path r.path)) [
  | inl e ↦ rw (e, differs q path r.path h e) (removed_others q path rows h)
  | inr e ↦
      rw (e, row_of)
        (ap (λ o. if text_eq q r.path then some r else o) (removed_others q path rows h))
]

updated :
    (rec r : FileRecord) (rows : List FileRecord)
    → row_of rec.path rows ≡ some r
    → row_of rec.path (update_files rec rows) ≡ some (record rec { id = r.id })
unfolding row_of update_files
updated rec r [] h = cc
updated rec r (s ∷ rows) h = elim (Bool-cases (text_eq rec.path s.path)) [
  | inl e ↦
      let same : s ≡ r = some_injective s r (rw (e, row_of) at h) in
      rw (e, row_of) (rw (text_eq_refl rec.path) (ap (λ q. some (record rec { id = q.id })) same))
  | inr e ↦ rw (e, row_of) (rw e (updated rec r rows (rw (e, row_of) at h)))
]

pub updated_others :
    (q : Text) (rec : FileRecord) (rows : List FileRecord)
    → text_eq q rec.path ≡ false
    → row_of q (update_files rec rows) ≡ row_of q rows
unfolding row_of update_files
updated_others q rec [] h = refl
updated_others q rec (s ∷ rows) h = elim (Bool-cases (text_eq rec.path s.path)) [
  | inl e ↦ rw (e, row_of) (rw (h, differs q rec.path s.path h e) (updated_others q rec rows h))
  | inr e ↦
      rw (e, row_of)
        (ap (λ o. if text_eq q s.path then some s else o) (updated_others q rec rows h))
]

touched :
    (path : Text) (mtime size now : ℤ) (r : FileRecord) (rows : List FileRecord)
    → row_of path rows ≡ some r
    → (t : FileRecord) × (row_of path (touch_files path mtime size now rows) ≡ some t)
      × (t.mtime_ns ≡ mtime)
      × (t.size ≡ size)
      × (t.state ≡ FileState.indexed)
unfolding row_of touch_files
touched path mtime size now r [] h = cc
touched path mtime size now r (s ∷ rows) h = elim (Bool-cases (text_eq path s.path)) [
  | inl e ↦ (
    record s { mtime_ns = mtime; size = size; indexed_at = now; state = FileState.indexed },
    rw (e, row_of) (rw e refl),
    refl,
    refl,
    refl,
  )
  | inr e ↦
      let (t, f, a, b, d) = touched path mtime size now r rows (rw (e, row_of) at h) in
      (t, rw (e, row_of) (rw e f), a, b, d)
]

pub touched_others :
    (q path : Text) (mtime size now : ℤ) (rows : List FileRecord)
    → text_eq q path ≡ false
    → row_of q (touch_files path mtime size now rows) ≡ row_of q rows
unfolding row_of touch_files
touched_others q path mtime size now [] h = refl
touched_others q path mtime size now (s ∷ rows) h = elim (Bool-cases (text_eq path s.path)) [
  | inl e ↦
      rw (e, row_of) (rw (differs q path s.path h e) (touched_others q path mtime size now rows h))
  | inr e ↦
      rw (e, row_of)
        (ap (λ o. if text_eq q s.path then some s else o)
          (touched_others q path mtime size now rows h))
]

-- What the index has of a path, where the file system says what there is: no row for what is not
-- there or is left out, and a row with the time and the size of a file, and no tombstone.
abbrev pub Mirrored : Option Stat → Bool → Text → List FileRecord → Type 0
Mirrored none excluded path rows = row_of path rows ≡ none
Mirrored (some st) true path rows = row_of path rows ≡ none
Mirrored (some st) false path rows =
    (r : FileRecord) × (row_of path rows ≡ some r)
    × (r.mtime_ns ≡ st.mtime)
    × (r.size ≡ st.size)
    × (is_tombstone r.state ≡ false)

-- A path at which there is a regular file or nothing at all.
abbrev pub IsFileOrNothing : Option Stat → Type 0
IsFileOrNothing none = Unit
IsFileOrNothing (some st) = st.is_regular ≡ true

module _ (c : ContentConfig) (runtime_excludes : List Text) (w : World) where
  stored :
      (rec : FileRecord) (body : Text) (ix : Indexer)
      → (r : FileRecord) × (row_of rec.path
            (store_record c runtime_excludes w true rec body ix).index.files
          ≡ some r)
        × (r.mtime_ns ≡ rec.mtime_ns)
        × (r.size ≡ rec.size)
        × (r.state ≡ rec.state)
  unfolding store_record put row_of
  stored rec body ix =
      let stamped = record rec {
        indexed_at = if eq_ℤ rec.indexed_at (pos 0) then w.now else rec.indexed_at;
      } in
      elim (Option-cases (row_of rec.path ix.index.files)) [
        | inl n ↦ (
          record stamped { id = w.fresh ix.index.files },
          rw (n, store_record) (rw (text_eq_refl rec.path) refl),
          refl,
          refl,
          refl,
        )
        | inr (r, n) ↦ (
          record stamped { id = r.id },
          rw (n, store_record) (updated stamped r ix.index.files n),
          refl,
          refl,
          refl,
        )
      ]

  alive :
      (rec : FileRecord) (body : Text) (ix : Indexer)
      → is_tombstone rec.state ≡ false
      → (r : FileRecord) × (row_of rec.path
            (store_record c runtime_excludes w true rec body ix).index.files
          ≡ some r)
        × (r.mtime_ns ≡ rec.mtime_ns)
        × (r.size ≡ rec.size)
        × (is_tombstone r.state ≡ false)
  alive rec body ix h =
      let (r, f, a, b, e) = stored rec body ix in (r, f, a, b, ap is_tombstone e ∙ h)

  extracted :
      (path : Text) (st : Stat) (ix : Indexer)
      → Mirrored
          (some st)
          false
          path
          (extract_file c runtime_excludes w true path st ix).index.files
  unfolding extract_file record_of is_tombstone
  extracted path st ix =
      let rec = record_of c runtime_excludes w path st in
      let r = w.extract path in
      elim (Bool-cases (ltb_ℤ (pos c.max_file_bytes) st.size)) [
        | inl e ↦ rw (e, extract_file) (alive (record rec { mime = w.detect_mime path }) [] ix refl)
        | inr e ↦ elim (Bool-cases (is_failure r.status)) [
          | inl f ↦
              rw (e, f, extract_file)
                (alive (record rec { mime = r.mime; state = FileState.error }) []
                  (record ix { errors = ix.errors + 1 }) refl)
          | inr f ↦ rw (e, f, extract_file) (alive (record rec { mime = r.mime }) r.text ix refl)
        ]
      ]

  indexed_alive : (s : FileState) → is_indexed s ≡ true → is_tombstone s ≡ false
  unfolding is_indexed is_tombstone
  indexed_alive FileState.tombstone h = cc
  indexed_alive _ h = refl

  unchanged :
      (r : FileRecord) (st : Stat)
      → is_unchanged c runtime_excludes w r st ≡ true
      → (r.mtime_ns ≡ st.mtime) × (r.size ≡ st.size) × (is_tombstone r.state ≡ false)
  unfolding is_unchanged
  unchanged r st h = (
    eq_ℤ→eq r.mtime_ns st.mtime (ground (arith, h)),
    eq_ℤ→eq r.size st.size (ground (arith, h)),
    indexed_alive r.state (ground (arith, h)),
  )

  refreshed :
      (path : Text) (st : Stat) (ix : Indexer)
      → Mirrored (some st) false path (refresh c runtime_excludes w true path st ix).index.files
  unfolding refresh is_unchanged touch get is_tombstone
  refreshed path st ix = elim (Option-cases (get path ix.index)) [
    | inl n ↦ rw (n, refresh) (extracted path st ix)
    | inr (r, n) ↦ elim (Bool-cases (is_unchanged c runtime_excludes w r st)) [
      | inl u ↦ let (a, b, d) = unchanged r st u in (r, rw (n, u, refresh) n, a, b, d)
      | inr u ↦
          elim (Bool-cases (
            not (is_empty r.content_hash)
            && text_eq r.content_hash (w.hash_file path c.max_file_bytes))) [
              | inl t ↦
                  let (q, f, a, b, d) = touched path st.mtime st.size w.now r ix.index.files n in
                  (q, rw (n, u, t, refresh) f, a, b, rw d refl)
              | inr t ↦ rw (n, u, t, refresh) (extracted path st ix)
            ]
    ]
  ]

  -- With statements that do not fail, index_file leaves of a path at which there is a regular file
  -- or nothing: a row with the file's time and size where there is a file that is not left out, and
  -- no row otherwise.
  pub index_file-Mirrored :
      (path : Text) (ix : Indexer)
      → IsFileOrNothing (w.stat path)
      → Mirrored
          (w.stat path)
          (is_excluded c runtime_excludes path)
          path
          (index_file c runtime_excludes w true path ix).index.files
  unfolding index_file forget remove delete_where
  index_file-Mirrored path ix h = elim (Option-cases (w.stat path)) [
    | inl n ↦ rw (n, index_file) (removed path ix.index.files)
    | inr (st, n) ↦
        let regular : st.is_regular ≡ true = rw n at h in
        elim (Bool-cases (is_excluded c runtime_excludes path)) [
          | inl e ↦ rw (n, e, index_file) (rw (regular, index_file) (removed path ix.index.files))
          | inr e ↦ rw (n, e, index_file) (rw (regular, index_file) (refreshed path st ix))
        ]
  ]

-- ===== src/Content/Reconcile.antt =====
-- A full pass of src/content/indexer.cpp over a file system that stays as it is.
use waylaunch.Prelude.{
  Bool, true, false, not, ◌&&◌, ◌||◌, none, some, List, [], ◌∷◌, ◌≡◌, ◌≢◌, refl, sym, ap, ◌∙◌, inl,
  inr, arith, ◌+◌,
}
use waylaunch.Prelude.Tests.{if◌then◌else◌, Bool-cases, Option-cases, some_injective}
use waylaunch.Prelude.Lists.{is_empty}
use waylaunch.Prelude.Int.{pos, eq_ℤ, ltb_ℤ}
use waylaunch.Prelude.Text.{Text, text_eq, text_eq_iff}
use waylaunch.Content.Index.{
  FileRecord, FileState, is_tombstone, Index, row_of, rows_where, delete_where, put, remove, touch,
  get, indexed_paths,
}
use waylaunch.Content.Indexer.{
  ContentConfig, Stat, World, Indexer, is_excluded, forget, store_record, record_of, extract_file,
  is_unchanged, is_failure, refresh, index_file, is_gone, gone_paths, remove_all,
}
use waylaunch.Content.Freshness.{removed, removed_others, updated_others, touched_others}

-- Whether a path is among others.
abbrev pub listed : Text → List Text → Bool
listed q [] = false
listed q (p ∷ paths) = text_eq q p || listed q paths

pub same_path : (q p : Text) → text_eq q p ≡ true → q ≡ p
same_path q p h = (text_eq_iff q p).0 h

remove-none :
    (q p : Text) (x : Index) → row_of q x.files ≡ none → row_of q (remove true p x).0.files ≡ none
unfolding remove delete_where
remove-none q p x h = elim (Bool-cases (text_eq q p)) [
  | inl e ↦
      let same : q ≡ p = same_path q p e in
      ap (λ t. row_of t (rows_where false (λ r. text_eq p r.path) x.files)) same ∙ removed p x.files
  | inr e ↦ removed_others q p x.files e ∙ h
]

remove_all-none :
    (q : Text) (paths : List Text) (x : Index)
    → row_of q x.files ≡ none
    → row_of q (remove_all paths x).files ≡ none
unfolding remove_all
remove_all-none q [] x h = h
remove_all-none q (p ∷ paths) x h =
    remove_all-none q paths (remove true p x).0 (remove-none q p x h)

pub remove_all-listed :
    (q : Text) (paths : List Text) (x : Index)
    → listed q paths ≡ true
    → row_of q (remove_all paths x).files ≡ none
unfolding remove_all remove delete_where
remove_all-listed q [] x h = cc
remove_all-listed q (p ∷ paths) x h = elim (Bool-cases (text_eq q p)) [
  | inl e ↦
      let same : q ≡ p = same_path q p e in
      remove_all-none q paths (remove true p x).0 (
        ap (λ t. row_of t (rows_where false (λ r. text_eq p r.path) x.files)) same
        ∙ removed p x.files)
  | inr e ↦ remove_all-listed q paths (remove true p x).0 (rw e at h)
]

pub remove_all-unlisted :
    (q : Text) (paths : List Text) (x : Index)
    → listed q paths ≡ false
    → row_of q (remove_all paths x).files ≡ row_of q x.files
unfolding remove_all remove delete_where
remove_all-unlisted q [] x h = refl
remove_all-unlisted q (p ∷ paths) x h =
    let apart : text_eq q p ≡ false = ground (arith, h) in
    remove_all-unlisted q paths (remove true p x).0 (rw apart at h)
    ∙ removed_others q p x.files apart

-- A path of the index that is no tombstone has a row.
pub listed-none :
    (q : Text) (rows : List FileRecord)
    → row_of q rows ≡ none
    → listed q (indexed_paths rows) ≡ false
unfolding row_of indexed_paths
listed-none q [] h = refl
listed-none q (r ∷ rows) h = elim (Bool-cases (text_eq q r.path)) [
  | inl e ↦ let bad : some r ≡ none = rw e at h in cc
  | inr e ↦ elim (Bool-cases (is_tombstone r.state)) [
    | inl t ↦ rw (t, indexed_paths) (listed-none q rows (rw (e, row_of) at h))
    | inr t ↦ rw (t, indexed_paths) (rw e (listed-none q rows (rw (e, row_of) at h)))
  ]
]

-- Taking rows out lists no new path.
pub listed-where :
    (q : Text) (p : FileRecord → Bool) (rows : List FileRecord)
    → listed q (indexed_paths rows) ≡ false
    → listed q (indexed_paths (rows_where false p rows)) ≡ false
unfolding indexed_paths rows_where
listed-where q p [] h = refl
listed-where q p (r ∷ rows) h = elim (Bool-cases (is_tombstone r.state)) [
  | inl t ↦ elim (Bool-cases (p r)) [
    | inl e ↦ rw e (listed-where q p rows (rw (t, indexed_paths) at h))
    | inr e ↦ rw (e, t, indexed_paths) (listed-where q p rows (rw (t, indexed_paths) at h))
  ]
  | inr t ↦
      let both : (text_eq q r.path || listed q (indexed_paths rows)) ≡ false =
        rw (t, indexed_paths) at h in
      let apart : text_eq q r.path ≡ false = ground (arith, both) in
      let below = listed-where q p rows (rw apart at both) in
      elim (Bool-cases (p r)) [
        | inl e ↦ rw e below
        | inr e ↦ rw (e, t, indexed_paths) (rw apart below)
      ]
]

-- A row that stays when the tombstones go was listed.
pub maintained-listed :
    (q : Text) (rows : List FileRecord)
    → listed q (indexed_paths rows) ≡ false
    → row_of q (rows_where false (λ r. is_tombstone r.state) rows) ≡ none
unfolding row_of indexed_paths rows_where
maintained-listed q [] h = refl
maintained-listed q (r ∷ rows) h = elim (Bool-cases (is_tombstone r.state)) [
  | inl t ↦ rw t (maintained-listed q rows (rw (t, indexed_paths) at h))
  | inr t ↦
      let both : (text_eq q r.path || listed q (indexed_paths rows)) ≡ false =
        rw (t, indexed_paths) at h in
      let apart : text_eq q r.path ≡ false = ground (arith, both) in
      rw (t, row_of) (rw apart (maintained-listed q rows (rw apart at both)))
]

pub maintained-kept :
    (q : Text) (r : FileRecord) (rows : List FileRecord)
    → row_of q rows ≡ some r
    → is_tombstone r.state ≡ false
    → row_of q (rows_where false (λ s. is_tombstone s.state) rows) ≡ some r
unfolding row_of rows_where
maintained-kept q r [] h k = cc
maintained-kept q r (s ∷ rows) h k = elim (Bool-cases (text_eq q s.path)) [
  | inl e ↦
      let same : s ≡ r = some_injective s r (rw (e, row_of) at h) in
      let alive : is_tombstone s.state ≡ false = ap (λ t. is_tombstone t.state) same ∙ k in
      rw (alive, row_of) (rw e (ap some same))
  | inr e ↦
      let below = maintained-kept q r rows (rw (e, row_of) at h) k in
      elim (Bool-cases (is_tombstone s.state)) [
        | inl t ↦ rw t below
        | inr t ↦ rw (t, row_of) (rw e below)
      ]
]

false_not_true : false ≢ true
false_not_true h = cc

module _ (c : ContentConfig) (runtime_excludes : List Text) (w : World) where
  pub listed-gone :
      (q : Text) (paths : List Text)
      → is_gone c runtime_excludes w q ≡ true
      → listed q paths ≡ true
      → listed q (gone_paths c runtime_excludes w paths) ≡ true
  unfolding gone_paths
  listed-gone q [] g h = cc
  listed-gone q (p ∷ paths) g h = elim (Bool-cases (text_eq q p)) [
    | inl e ↦
        let gone : is_gone c runtime_excludes w p ≡ true = rw (same_path q p e) at g in
        rw (gone, gone_paths) (rw e refl)
    | inr e ↦
        let below = listed-gone q paths g (rw e at h) in
        elim (Bool-cases (is_gone c runtime_excludes w p)) [
          | inl t ↦ rw (t, gone_paths) (rw e below)
          | inr t ↦ rw (t, gone_paths) below
        ]
  ]

  pub unlisted-gone :
      (q : Text) (paths : List Text)
      → is_gone c runtime_excludes w q ≡ false
      → listed q (gone_paths c runtime_excludes w paths) ≡ false
  unfolding gone_paths
  unlisted-gone q [] g = refl
  unlisted-gone q (p ∷ paths) g = elim (Bool-cases (is_gone c runtime_excludes w p)) [
    | inl t ↦ elim (Bool-cases (text_eq q p)) [
      | inl e ↦
          let gone : is_gone c runtime_excludes w q ≡ true =
            ap (is_gone c runtime_excludes w) (same_path q p e) ∙ t in
          absurd (false_not_true (sym g ∙ gone))
      | inr e ↦ rw (t, gone_paths) (rw e (unlisted-gone q paths g))
    ]
    | inr t ↦ rw (t, gone_paths) (unlisted-gone q paths g)
  ]

  stored_others :
      (q : Text) (rec : FileRecord) (body : Text) (ix : Indexer)
      → text_eq q rec.path ≡ false
      → row_of q (store_record c runtime_excludes w true rec body ix).index.files
        ≡ row_of q ix.index.files
  unfolding store_record put row_of
  stored_others q rec body ix h =
      let stamped = record rec {
        indexed_at = if eq_ℤ rec.indexed_at (pos 0) then w.now else rec.indexed_at;
      } in
      elim (Option-cases (row_of rec.path ix.index.files)) [
        | inl n ↦ rw (n, store_record) (rw h refl)
        | inr (r, n) ↦ rw (n, store_record) (updated_others q stamped ix.index.files h)
      ]

  extracted_others :
      (q path : Text) (st : Stat) (ix : Indexer)
      → text_eq q path ≡ false
      → row_of q (extract_file c runtime_excludes w true path st ix).index.files
        ≡ row_of q ix.index.files
  unfolding extract_file record_of
  extracted_others q path st ix h =
      let rec = record_of c runtime_excludes w path st in
      let r = w.extract path in
      elim (Bool-cases (ltb_ℤ (pos c.max_file_bytes) st.size)) [
        | inl e ↦
            rw (e, extract_file)
              (stored_others q (record rec { mime = w.detect_mime path }) [] ix h)
        | inr e ↦ elim (Bool-cases (is_failure r.status)) [
          | inl f ↦
              rw (e, f, extract_file)
                (stored_others q (record rec { mime = r.mime; state = FileState.error }) []
                  (record ix { errors = ix.errors + 1 }) h)
          | inr f ↦
              rw (e, f, extract_file) (stored_others q (record rec { mime = r.mime }) r.text ix h)
        ]
      ]

  refreshed_others :
      (q path : Text) (st : Stat) (ix : Indexer)
      → text_eq q path ≡ false
      → row_of q (refresh c runtime_excludes w true path st ix).index.files
        ≡ row_of q ix.index.files
  unfolding refresh touch
  refreshed_others q path st ix h = elim (Option-cases (get path ix.index)) [
    | inl n ↦ rw (n, refresh) (extracted_others q path st ix h)
    | inr (r, n) ↦ elim (Bool-cases (is_unchanged c runtime_excludes w r st)) [
      | inl u ↦ rw (n, u, refresh) refl
      | inr u ↦
          let same_hash =
            not (is_empty r.content_hash)
            && text_eq r.content_hash (w.hash_file path c.max_file_bytes) in
          elim (Bool-cases same_hash) [
            | inl t ↦
                rw (n, u, t, refresh)
                  (touched_others q path st.mtime st.size w.now ix.index.files h)
            | inr t ↦ rw (n, u, t, refresh) (extracted_others q path st ix h)
          ]
    ]
  ]

  pub index_file_others :
      (q path : Text) (ix : Indexer)
      → text_eq q path ≡ false
      → row_of q (index_file c runtime_excludes w true path ix).index.files
        ≡ row_of q ix.index.files
  unfolding index_file forget remove delete_where
  index_file_others q path ix h = elim (Option-cases (w.stat path)) [
    | inl n ↦ rw (n, index_file) (removed_others q path ix.index.files h)
    | inr (st, n) ↦ elim (Bool-cases st.is_regular) [
      | inr g ↦ rw (n, g, index_file) refl
      | inl g ↦ elim (Bool-cases (is_excluded c runtime_excludes path)) [
        | inl e ↦ rw (n, g, e, index_file) (removed_others q path ix.index.files h)
        | inr e ↦ rw (n, g, e, index_file) (refreshed_others q path st ix h)
      ]
    ]
  ]

-- ===== src/Content/FullPass.antt =====
-- After a full pass of src/content/indexer.cpp the index is what the file system says.
use waylaunch.Prelude.{
  true, false, none, some, List, [], ◌∷◌, ◌≡◌, ◌≢◌, refl, sym, ap, ◌∙◌, inl, inr, not, ◌||◌, arith,
}
use waylaunch.Prelude.Tests.{if◌then◌else◌, Bool-cases, Option-cases}
use waylaunch.Prelude.Text.{Text, text_eq}
use waylaunch.Content.Index.{
  FileRecord, Index, row_of, delete_where, indexed_paths, maintain, remove,
}
use waylaunch.Content.Indexer.{
  ContentConfig, Stat, World, Indexer, is_excluded, index_file, is_gone, gone_paths, remove_all,
  reconcile_deletions, crawl, full_reconcile,
}
use waylaunch.Content.Freshness.{Mirrored, index_file-Mirrored}
use waylaunch.Content.Reconcile.{
  listed, same_path, remove_all-listed, remove_all-unlisted, listed-none, listed-where,
  maintained-listed, maintained-kept, listed-gone, unlisted-gone, index_file_others,
}

-- Removing rows lists no new path.
listed-remove_all :
    (q : Text) (paths : List Text) (x : Index)
    → listed q (indexed_paths x.files) ≡ false
    → listed q (indexed_paths (remove_all paths x).files) ≡ false
unfolding remove_all remove delete_where
listed-remove_all q [] x h = h
listed-remove_all q (p ∷ paths) x h =
    listed-remove_all q paths (remove true p x).0 (listed-where q (λ r. text_eq p r.path) x.files h)

none_not_some : (r : FileRecord) → none ≢ some r
none_not_some r h = cc

module _ (c : ContentConfig) (runtime_excludes : List Text) (w : World) where
  -- A regular file that is not left out.
  abbrev pub IsWanted : Text → Stat → Type 0
  IsWanted q st =
      (w.stat q ≡ some st) × (st.is_regular ≡ true) × (is_excluded c runtime_excludes q ≡ false)

  wanted-Mirrored :
      (q : Text) (st : Stat) (ix : Indexer)
      → IsWanted q st
      → Mirrored (some st) false q (index_file c runtime_excludes w true q ix).index.files
  wanted-Mirrored q st ix (a, b, d) =
      let m = index_file-Mirrored c runtime_excludes w q ix (rw a b) in rw (a, d) at m

  itself :
      (q : Text) (st : Stat) (p : Text) (ix : Indexer)
      → IsWanted q st
      → q ≡ p
      → Mirrored (some st) false q (index_file c runtime_excludes w true p ix).index.files
  itself q st p ix g same = rw (sym same) (wanted-Mirrored q st ix g)

  step-Mirrored :
      (q : Text) (st : Stat) (p : Text) (ix : Indexer)
      → IsWanted q st
      → Mirrored (some st) false q ix.index.files
      → Mirrored (some st) false q (index_file c runtime_excludes w true p ix).index.files
  step-Mirrored q st p ix g m = elim (Bool-cases (text_eq q p)) [
    | inl e ↦ let same : q ≡ p = same_path q p e in itself q st p ix g same
    | inr e ↦
        let (r, f, a, b, d) = m in (r, index_file_others c runtime_excludes w q p ix e ∙ f, a, b, d)
  ]

  -- A step of the crawl keeps the row of another file, and that of the file itself up to date.
  crawled-kept :
      (q : Text) (st : Stat) (paths : List Text) (ix : Indexer)
      → IsWanted q st
      → Mirrored (some st) false q ix.index.files
      → Mirrored (some st) false q (crawl c runtime_excludes w paths ix).index.files
  unfolding crawl
  crawled-kept q st [] ix g m = m
  crawled-kept q st (p ∷ paths) ix g m = elim (Bool-cases (is_excluded c runtime_excludes p)) [
    | inl e ↦ rw (e, crawl) (crawled-kept q st paths ix g m)
    | inr e ↦
        rw (e, crawl)
          (crawled-kept q st paths (index_file c runtime_excludes w true p ix) g
            (step-Mirrored q st p ix g m))
  ]

  crawled :
      (q : Text) (st : Stat) (paths : List Text) (ix : Indexer)
      → IsWanted q st
      → listed q paths ≡ true
      → Mirrored (some st) false q (crawl c runtime_excludes w paths ix).index.files
  unfolding crawl
  crawled q st [] ix g h = cc
  crawled q st (p ∷ paths) ix g h = elim (Bool-cases (text_eq q p)) [
    | inl e ↦
        let same : q ≡ p = same_path q p e in
        let wanted : is_excluded c runtime_excludes p ≡ false =
          ap (is_excluded c runtime_excludes) (sym same) ∙ g.2 in
        rw (wanted, crawl)
          (crawled-kept q st paths (index_file c runtime_excludes w true p ix) g
            (itself q st p ix g same))
    | inr e ↦
        crawled q st paths
          (if is_excluded c runtime_excludes p
            then ix
            else index_file c runtime_excludes w true p ix)
          g (rw e at h)
  ]

  wanted_not_gone : (q : Text) (st : Stat) → IsWanted q st → is_gone c runtime_excludes w q ≡ false
  unfolding is_gone
  wanted_not_gone q st (a, b, d) = rw (a, is_gone) (rw (b, d) refl)

  -- With statements that do not fail and a file system that stays as it is, a full pass leaves of
  -- every regular file that its walk comes to and that is not left out a row with the file's time
  -- and size.
  pub full_reconcile-Mirrored :
      (q : Text) (st : Stat) (paths : List Text) (ix : Indexer)
      → IsWanted q st
      → listed q paths ≡ true
      → Mirrored (some st) false q (full_reconcile c runtime_excludes w paths ix).index.files
  unfolding full_reconcile reconcile_deletions maintain delete_where
  full_reconcile-Mirrored q st paths ix g h =
      let x = (crawl c runtime_excludes w paths ix).index in
      let (r, f, a, b, d) = crawled q st paths ix g h in
      let gone = gone_paths c runtime_excludes w (indexed_paths x.files) in
      let kept =
        remove_all-unlisted q gone x
          (unlisted-gone c runtime_excludes w q (indexed_paths x.files) (wanted_not_gone q st g)) in
      (r, maintained-kept q r (remove_all gone x).files (kept ∙ f) d, a, b, d)

  kept_not_gone :
      (q : Text) (r : FileRecord) (paths : List Text) (ix : Indexer)
      → row_of q (full_reconcile c runtime_excludes w paths ix).index.files ≡ some r
      → is_gone c runtime_excludes w q ≡ false
  unfolding full_reconcile reconcile_deletions maintain delete_where
  kept_not_gone q r paths ix h =
      let x = (crawl c runtime_excludes w paths ix).index in
      let gone = gone_paths c runtime_excludes w (indexed_paths x.files) in
      elim (Bool-cases (is_gone c runtime_excludes w q)) [
        | inr e ↦ e
        | inl e ↦
            let none_left : listed q (indexed_paths (remove_all gone x).files) ≡ false =
              elim (Bool-cases (listed q (indexed_paths x.files))) [
                | inl t ↦ listed-none q (remove_all gone x).files (
                    remove_all-listed q gone x
                      (listed-gone c runtime_excludes w q (indexed_paths x.files) e t))
                | inr t ↦ listed-remove_all q gone x t
              ] in
            let lost = maintained-listed q (remove_all gone x).files none_left in
            absurd (none_not_some r (sym lost ∙ h))
      ]

  not_gone-IsWanted :
      (q : Text) → is_gone c runtime_excludes w q ≡ false → (st : Stat) × IsWanted q st
  unfolding is_gone
  not_gone-IsWanted q h = elim (Option-cases (w.stat q)) [
    | inl n ↦ let bad : true ≡ false = rw (n, is_gone) at h in cc
    | inr (st, n) ↦
        let both : (not st.is_regular || is_excluded c runtime_excludes q) ≡ false =
          rw (n, is_gone) at h in
        (st, (n, ground (arith, both), ground (arith, both)))
  ]

  -- With statements that do not fail and a file system that stays as it is, every row that a full
  -- pass leaves is of a regular file that is not left out.
  pub full_reconcile_rows :
      (q : Text) (r : FileRecord) (paths : List Text) (ix : Indexer)
      → row_of q (full_reconcile c runtime_excludes w paths ix).index.files ≡ some r
      → (st : Stat) × IsWanted q st
  full_reconcile_rows q r paths ix h = not_gone-IsWanted q (kept_not_gone q r paths ix h)

-- ===== src/Content/LiveRows.antt =====
-- The rows of src/content/store.cpp that are no tombstones, after each of its statements.
use waylaunch.Prelude.{
  ℕ, Bool, true, false, not, ◌&&◌, ◌||◌, some, List, [], ◌∷◌, ◌≡◌, refl, sym, ap, ◌∙◌, inl, inr,
  arith,
}
use mathlib.Core.Path.{subst}
use waylaunch.Prelude.Tests.{◌==◌, Bool-cases, ==_iff, some_injective}
use waylaunch.Prelude.Int.{ℤ}
use waylaunch.Prelude.Text.{Text, text_eq, text_eq_iff}
use waylaunch.Content.Index.{
  FileRecord, is_tombstone, has_id, row_of, rows_where, update_files, touch_files, mark_files,
}
use waylaunch.Content.Keys.{Distinct, has_path, update_none, mark_id, where_absent}

-- Whether the key has a row that is no tombstone.
unfoldable pub has_live : ℕ → List FileRecord → Bool
has_live id [] = false
has_live id (r ∷ rows) = (id == r.id && not (is_tombstone r.state)) || has_live id rows

live_absent : (id : ℕ) (rows : List FileRecord) → has_id id rows ≡ false → has_live id rows ≡ false
unfolding has_id has_live
live_absent id [] h = refl
live_absent id (r ∷ rows) h =
    let apart : (id == r.id) ≡ false = ground (arith, h) in
    rw apart (live_absent id rows (rw apart at h))

absent_key :
    (id : ℕ) (r : FileRecord) (rows : List FileRecord)
    → (id == r.id) ≡ true
    → has_id r.id rows ≡ false
    → has_id id rows ≡ false
absent_key id r rows t a = ap (λ k. has_id k rows) ((==_iff id r.id).0 t) ∙ a

and_true : (b : Bool) → (b && true) ≡ b
and_true true = refl
and_true false = refl

and_false : (b : Bool) → (b && false) ≡ false
and_false true = refl
and_false false = refl

or_swap : (a b c : Bool) → (a || (b || c)) ≡ (b || (a || c))
or_swap true true c = refl
or_swap true false c = refl
or_swap false b c = refl

-- With distinct keys, the keys that live on when rows are deleted are those of no row chosen.
pub where_live :
    (p : FileRecord → Bool) (id : ℕ) (rows : List FileRecord)
    → Distinct rows
    → has_live id (rows_where false p rows)
      ≡ (has_live id rows && not (has_id id (rows_where true p rows)))
unfolding has_id has_live rows_where
where_live p id [] h = refl
where_live p id (r ∷ rows) (a, b, h) = elim (Bool-cases (p r)) [
  | inl e ↦ elim (Bool-cases (id == r.id)) [
    | inl t ↦
        let away =
          live_absent id (rows_where false p rows)
            (where_absent false p id rows (absent_key id r rows t a)) in
        rw (e, t, has_id) (away ∙ sym (and_false (not (is_tombstone r.state) || has_live id rows)))
    | inr f ↦ rw (e, f, has_id) (where_live p id rows h)
  ]
  | inr e ↦ elim (Bool-cases (id == r.id)) [
    | inl t ↦
        let none_left = absent_key id r rows t a in
        let away =
          live_absent id (rows_where false p rows) (where_absent false p id rows none_left) in
        rw (e, t, has_live)
          (rw (where_absent true p id rows none_left) (
            rw (away, live_absent id rows none_left)
              (sym (and_true (not (is_tombstone r.state) || false)))))
    | inr f ↦ rw (e, f, has_live) (where_live p id rows h)
  ]
]

-- So are those of the rows that are marked.
pub mark_live :
    (path : Text) (id : ℕ) (rows : List FileRecord)
    → Distinct rows
    → has_live id (mark_files path rows)
      ≡ (has_live id rows && not (has_id id (rows_where true (λ r. text_eq path r.path) rows)))
unfolding has_id has_live rows_where mark_files is_tombstone
mark_live path id [] h = refl
mark_live path id (r ∷ rows) (a, b, h) = elim (Bool-cases (text_eq path r.path)) [
  | inl e ↦ elim (Bool-cases (id == r.id)) [
    | inl t ↦
        let none_left = absent_key id r rows t a in
        let away = live_absent id (mark_files path rows) (mark_id path id rows ∙ none_left) in
        rw (e, t, has_id, has_live)
          (away ∙ sym (and_false (not (is_tombstone r.state) || has_live id rows)))
    | inr f ↦ rw (e, f, has_id, has_live) (mark_live path id rows h)
  ]
  | inr e ↦ elim (Bool-cases (id == r.id)) [
    | inl t ↦
        let none_left = absent_key id r rows t a in
        let away = live_absent id (mark_files path rows) (mark_id path id rows ∙ none_left) in
        rw (e, t, has_live)
          (rw (where_absent true (λ r. text_eq path r.path) id rows none_left) (
            rw (away, live_absent id rows none_left)
              (sym (and_true (not (is_tombstone r.state) || false)))))
    | inr f ↦ rw (e, f, has_live) (mark_live path id rows h)
  ]
]

-- The tombstones are deleted: no key stops to live.
pub purged_live :
    (id : ℕ) (rows : List FileRecord)
    → has_live id (rows_where false (λ r. is_tombstone r.state) rows) ≡ has_live id rows
unfolding has_live rows_where
purged_live id [] = refl
purged_live id (r ∷ rows) = elim (Bool-cases (is_tombstone r.state)) [
  | inl e ↦
      rw e (purged_live id rows ∙ ap (λ b. b || has_live id rows) (sym (and_false (id == r.id))))
  | inr e ↦ rw (e, has_live) (rw e (ap (λ b. (id == r.id && true) || b) (purged_live id rows)))
]

-- A row of the path that is a tombstone.
unfoldable pub has_tombstone : Text → List FileRecord → Bool
has_tombstone path [] = false
has_tombstone path (r ∷ rows) =
    (text_eq path r.path && is_tombstone r.state) || has_tombstone path rows

pub touch_live :
    (path : Text) (mtime size now : ℤ) (id : ℕ) (rows : List FileRecord)
    → has_tombstone path rows ≡ false
    → has_live id (touch_files path mtime size now rows) ≡ has_live id rows
unfolding has_live touch_files has_tombstone is_tombstone
touch_live path mtime size now id [] h = refl
touch_live path mtime size now id (r ∷ rows) h = elim (Bool-cases (text_eq path r.path)) [
  | inl e ↦
      let alive : is_tombstone r.state ≡ false = ground (arith, rw (e, has_tombstone) at h) in
      let rest : has_tombstone path rows ≡ false = ground (arith, rw (e, has_tombstone) at h) in
      rw (e, alive, has_live)
        (ap (λ b. (id == r.id && true) || b) (touch_live path mtime size now id rows rest))
  | inr e ↦
      let rest : has_tombstone path rows ≡ false = rw (e, has_tombstone) at h in
      rw e (
        ap (λ b. (id == r.id && not (is_tombstone r.state)) || b)
          (touch_live path mtime size now id rows rest))
]

-- The update of the row of a path makes that row live.
pub update_live :
    (rec r : FileRecord) (id : ℕ) (rows : List FileRecord)
    → is_tombstone rec.state ≡ false
    → Distinct rows
    → row_of rec.path rows ≡ some r
    → has_live id (update_files rec rows) ≡ (id == r.id || has_live id rows)
unfolding has_live update_files row_of
update_live rec r id [] l h k = cc
update_live rec r id (s ∷ rows) l (a, b, h) k = elim (Bool-cases (text_eq rec.path s.path)) [
  | inl e ↦
      let same : s ≡ r = some_injective s r (rw (e, row_of) at k) in
      let path : rec.path ≡ s.path = (text_eq_iff rec.path s.path).0 e in
      let rest = update_none rec rows (ap (λ q. has_path q rows) path ∙ b) in
      subst
        (λ q. has_live id (update_files rec (s ∷ rows)) ≡ (id == q.id || has_live id (s ∷ rows)))
        same
        (rw (e, l, has_live)
          (rw rest (made_live (id == s.id) (not (is_tombstone s.state)) (has_live id rows))))
  | inr e ↦
      rw (e, has_live)
        (ap (λ c. (id == s.id && not (is_tombstone s.state)) || c)
            (update_live rec r id rows l h (rw (e, row_of) at k))
          ∙ or_swap (id == s.id && not (is_tombstone s.state)) (id == r.id) (has_live id rows))
]
  where
    made_live : (x y c : Bool) → ((x && true) || c) ≡ (x || ((x && y) || c))
    made_live true y c = refl
    made_live false y c = refl

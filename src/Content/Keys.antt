-- ===== src/Content/Keys.antt =====
-- The keys and the paths of the rows of src/content/store.cpp, after each of its statements.
use waylaunch.Prelude.{
  ℕ, Bool, false, not, ◌||◌, none, List, [], ◌∷◌, ◌≡◌, refl, ap, ◌∙◌, inl, inr, arith,
}
use waylaunch.Prelude.Tests.{◌==◌, if◌then◌else◌, Bool-cases}
use waylaunch.Prelude.Int.{ℤ}
use waylaunch.Prelude.Text.{Text, text_eq, text_eq_iff}
use waylaunch.Content.Index.{
  FileRecord, has_id, row_of, rows_where, update_files, touch_files, mark_files,
}

unfoldable pub has_path : Text → List FileRecord → Bool
has_path path [] = false
has_path path (r ∷ rows) = text_eq path r.path || has_path path rows

-- No two rows have one key or one path.
abbrev pub Distinct : List FileRecord → Type 0
Distinct [] = Unit
Distinct (r ∷ rows) = (has_id r.id rows ≡ false) × (has_path r.path rows ≡ false) × Distinct rows

pub no_row-has_path :
    (path : Text) (rows : List FileRecord) → row_of path rows ≡ none → has_path path rows ≡ false
unfolding row_of has_path
no_row-has_path path [] h = refl
no_row-has_path path (r ∷ rows) h = elim (Bool-cases (text_eq path r.path)) [
  | inl e ↦ cc (rw (e, row_of) at h)
  | inr e ↦ rw (e, has_path) (no_row-has_path path rows (rw (e, row_of) at h))
]

pub update_id :
    (rec : FileRecord) (id : ℕ) (rows : List FileRecord)
    → has_id id (update_files rec rows) ≡ has_id id rows
unfolding has_id update_files
update_id rec id [] = refl
update_id rec id (r ∷ rows) = elim (Bool-cases (text_eq rec.path r.path)) [
  | inl e ↦ rw e (ap (λ b. id == r.id || b) (update_id rec id rows))
  | inr e ↦ rw e (ap (λ b. id == r.id || b) (update_id rec id rows))
]

update_path :
    (rec : FileRecord) (q : Text) (rows : List FileRecord)
    → has_path q (update_files rec rows) ≡ has_path q rows
unfolding has_path update_files
update_path rec q [] = refl
update_path rec q (r ∷ rows) = elim (Bool-cases (text_eq rec.path r.path)) [
  | inl e ↦
      let same : text_eq q rec.path ≡ text_eq q r.path =
        ap (λ p. text_eq q p) ((text_eq_iff rec.path r.path).0 e) in
      rw e (rw (same, update_path rec q rows) refl)
  | inr e ↦ rw e (ap (λ b. text_eq q r.path || b) (update_path rec q rows))
]

pub update-Distinct :
    (rec : FileRecord) (rows : List FileRecord) → Distinct rows → Distinct (update_files rec rows)
unfolding update_files
update-Distinct rec [] h = tt
update-Distinct rec (r ∷ rows) (a, b, h) =
    let below = update-Distinct rec rows h in
    let apart = update_id rec r.id rows ∙ a in
    let away = update_path rec r.path rows ∙ b in
    elim (Bool-cases (text_eq rec.path r.path)) [
      | inl e ↦
          let same : rec.path ≡ r.path = (text_eq_iff rec.path r.path).0 e in
          rw e (apart, ap (λ q. has_path q (update_files rec rows)) same ∙ away, below)
      | inr e ↦ rw e (apart, away, below)
    ]

-- A path that no row has is not updated.
pub update_none :
    (rec : FileRecord) (rows : List FileRecord)
    → has_path rec.path rows ≡ false
    → update_files rec rows ≡ rows
unfolding has_path update_files
update_none rec [] h = refl
update_none rec (r ∷ rows) h = elim (Bool-cases (text_eq rec.path r.path)) [
  | inl e ↦ cc (rw (e, has_path) at h)
  | inr e ↦ rw e (ap (λ rs. r ∷ rs) (update_none rec rows (rw (e, has_path) at h)))
]

touch_id :
    (path : Text) (mtime size now : ℤ) (id : ℕ) (rows : List FileRecord)
    → has_id id (touch_files path mtime size now rows) ≡ has_id id rows
unfolding has_id touch_files
touch_id path mtime size now id [] = refl
touch_id path mtime size now id (r ∷ rows) = elim (Bool-cases (text_eq path r.path)) [
  | inl e ↦ rw e (ap (λ b. id == r.id || b) (touch_id path mtime size now id rows))
  | inr e ↦ rw e (ap (λ b. id == r.id || b) (touch_id path mtime size now id rows))
]

touch_path :
    (path : Text) (mtime size now : ℤ) (q : Text) (rows : List FileRecord)
    → has_path q (touch_files path mtime size now rows) ≡ has_path q rows
unfolding has_path touch_files
touch_path path mtime size now q [] = refl
touch_path path mtime size now q (r ∷ rows) = elim (Bool-cases (text_eq path r.path)) [
  | inl e ↦ rw e (ap (λ b. text_eq q r.path || b) (touch_path path mtime size now q rows))
  | inr e ↦ rw e (ap (λ b. text_eq q r.path || b) (touch_path path mtime size now q rows))
]

pub touch-Distinct :
    (path : Text) (mtime size now : ℤ) (rows : List FileRecord)
    → Distinct rows
    → Distinct (touch_files path mtime size now rows)
unfolding touch_files
touch-Distinct path mtime size now [] h = tt
touch-Distinct path mtime size now (r ∷ rows) (a, b, h) =
    let below = touch-Distinct path mtime size now rows h in
    let apart = touch_id path mtime size now r.id rows ∙ a in
    let away = touch_path path mtime size now r.path rows ∙ b in
    elim (Bool-cases (text_eq path r.path)) [
      | inl e ↦ rw e (apart, away, below)
      | inr e ↦ rw e (apart, away, below)
    ]

pub mark_id :
    (path : Text) (id : ℕ) (rows : List FileRecord)
    → has_id id (mark_files path rows) ≡ has_id id rows
unfolding has_id mark_files
mark_id path id [] = refl
mark_id path id (r ∷ rows) = elim (Bool-cases (text_eq path r.path)) [
  | inl e ↦ rw e (ap (λ b. id == r.id || b) (mark_id path id rows))
  | inr e ↦ rw e (ap (λ b. id == r.id || b) (mark_id path id rows))
]

mark_path :
    (path : Text) (q : Text) (rows : List FileRecord)
    → has_path q (mark_files path rows) ≡ has_path q rows
unfolding has_path mark_files
mark_path path q [] = refl
mark_path path q (r ∷ rows) = elim (Bool-cases (text_eq path r.path)) [
  | inl e ↦ rw e (ap (λ b. text_eq q r.path || b) (mark_path path q rows))
  | inr e ↦ rw e (ap (λ b. text_eq q r.path || b) (mark_path path q rows))
]

pub mark-Distinct :
    (path : Text) (rows : List FileRecord) → Distinct rows → Distinct (mark_files path rows)
unfolding mark_files
mark-Distinct path [] h = tt
mark-Distinct path (r ∷ rows) (a, b, h) =
    let below = mark-Distinct path rows h in
    let apart = mark_id path r.id rows ∙ a in
    let away = mark_path path r.path rows ∙ b in
    elim (Bool-cases (text_eq path r.path)) [
      | inl e ↦ rw e (apart, away, below)
      | inr e ↦ rw e (apart, away, below)
    ]

-- Rows that have no key still have none when some are taken out.
pub where_absent :
    (chosen : Bool) (p : FileRecord → Bool) (id : ℕ) (rows : List FileRecord)
    → has_id id rows ≡ false
    → has_id id (rows_where chosen p rows) ≡ false
unfolding has_id rows_where
where_absent chosen p id [] h = refl
where_absent chosen p id (r ∷ rows) h =
    let apart : (id == r.id) ≡ false = ground (arith, h) in
    let below = where_absent chosen p id rows (rw apart at h) in
    elim (Bool-cases (if chosen then p r else not (p r))) [
      | inl e ↦ rw (e, has_id) (rw apart below)
      | inr e ↦ rw e below
    ]

where_no_path :
    (chosen : Bool) (p : FileRecord → Bool) (q : Text) (rows : List FileRecord)
    → has_path q rows ≡ false
    → has_path q (rows_where chosen p rows) ≡ false
unfolding has_path rows_where
where_no_path chosen p q [] h = refl
where_no_path chosen p q (r ∷ rows) h =
    let apart : text_eq q r.path ≡ false = ground (arith, h) in
    let below = where_no_path chosen p q rows (rw apart at h) in
    elim (Bool-cases (if chosen then p r else not (p r))) [
      | inl e ↦ rw (e, has_path) (rw apart below)
      | inr e ↦ rw e below
    ]

pub where-Distinct :
    (chosen : Bool) (p : FileRecord → Bool) (rows : List FileRecord)
    → Distinct rows
    → Distinct (rows_where chosen p rows)
unfolding rows_where
where-Distinct chosen p [] h = tt
where-Distinct chosen p (r ∷ rows) (a, b, h) =
    let below = where-Distinct chosen p rows h in
    elim (Bool-cases (if chosen then p r else not (p r))) [
      | inl e ↦
          rw e (where_absent chosen p r.id rows a, where_no_path chosen p r.path rows b, below)
      | inr e ↦ rw e below
    ]

-- ===== src/History/Pruning.antt =====
-- What pruning keeps of the history.
use waylaunch.Prelude.{ℕ, ◌-◌, ◌≤◌, List, [], ◌∷◌, inl, inr, arith}
use waylaunch.Prelude.Tests.{leb, leb→le, ◌==◌, Bool-cases}
use waylaunch.Prelude.Lists.{All, length}
use waylaunch.Prelude.Int.{ℤ, pos, ◌-ℤ◌, ◌*ℤ◌, ◌≤ℤ◌, ltb_ℤ, leb_ℤ}
use waylaunch.History.Rows.{HistoryEntry}
use waylaunch.History.Store.{
  HistoryStore, prune, keep_recent, insert_latest, sort_latest, first_entries,
}

-- No entry is from before a time.
abbrev pub Since : ℤ → List HistoryEntry → Type 0
Since oldest es = All (λ e. oldest ≤ℤ e.last_used) es

keep_recent-Since : (oldest : ℤ) (es : List HistoryEntry) → Since oldest (keep_recent oldest es)
unfolding keep_recent
keep_recent-Since oldest [] = tt
keep_recent-Since oldest (e ∷ es) = elim (Bool-cases (ltb_ℤ e.last_used oldest)) [
  | inl t ↦ rw (t, Since) (keep_recent-Since oldest es)
  | inr t ↦ rw (t, Since) (ground arith, keep_recent-Since oldest es)
]

insert_latest-Since :
    (oldest : ℤ) (e : HistoryEntry) (es : List HistoryEntry)
    → oldest ≤ℤ e.last_used
    → Since oldest es
    → Since oldest (insert_latest e es)
unfolding insert_latest
insert_latest-Since oldest e [] h s = (h, tt)
insert_latest-Since oldest e (f ∷ fs) h (x, s) = elim (Bool-cases (leb_ℤ f.last_used e.last_used)) [
  | inl t ↦ rw (t, Since) (h, (x, s))
  | inr t ↦ rw (t, Since) (x, insert_latest-Since oldest e fs h s)
]

sort_latest-Since :
    (oldest : ℤ) (es : List HistoryEntry) → Since oldest es → Since oldest (sort_latest es)
unfolding sort_latest
sort_latest-Since oldest [] s = tt
sort_latest-Since oldest (e ∷ es) (x, s) =
    insert_latest-Since oldest e (sort_latest es) x (sort_latest-Since oldest es s)

first_entries-Since :
    (oldest : ℤ) (n : ℕ) (es : List HistoryEntry)
    → Since oldest es
    → Since oldest (first_entries n es)
unfolding first_entries
first_entries-Since oldest n [] s = tt
first_entries-Since oldest n (e ∷ es) (x, s) = elim (Bool-cases (n == 0)) [
  | inl t ↦ rw (t, Since) tt
  | inr t ↦ rw (t, Since) (x, first_entries-Since oldest (n - 1) es s)
]

first_entries-length : (n : ℕ) (es : List HistoryEntry) → length (first_entries n es) ≤ n
unfolding first_entries
first_entries-length n [] = omega arith
first_entries-length n (e ∷ es) = ground (arith, first_entries-length (n - 1) es)

-- Pruning leaves no more entries than the configured number, and none older than the configured
-- number of days.
pub prune-Since :
    (now : ℤ) (h : HistoryStore)
    → (length (prune now h).entries ≤ h.max_entries)
      × Since (now -ℤ pos h.max_age_days *ℤ pos 86400) (prune now h).entries
unfolding prune
prune-Since now h =
    let oldest : ℤ = now -ℤ pos h.max_age_days *ℤ pos 86400 in
    let kept : List HistoryEntry = keep_recent oldest h.entries in
    let since = keep_recent-Since oldest h.entries in
    elim (Bool-cases (leb (length kept) h.max_entries)) [
      | inl e ↦ rw (e, Since, length) (leb→le (length kept) h.max_entries e, since)
      | inr e ↦
          rw (e, Since, length)
            (
              first_entries-length h.max_entries (sort_latest kept),
              first_entries-Since oldest h.max_entries (sort_latest kept)
                  (sort_latest-Since oldest kept since),
            )
    ]

-- ===== src/Tests/History.antt =====
-- The history, the saved sizes and the path helpers at concrete inputs.
use waylaunch.Prelude.{◌≤◌, ◌≡◌, refl, some, [], ◌∷◌, ◌++◌, arith}
use waylaunch.Prelude.Lists.{length}
use waylaunch.Prelude.Int.{ℤ, pos, ◌-ℤ◌, ◌*ℤ◌}
use waylaunch.Prelude.Text.{has_byte, codes, is_space}
use waylaunch.Prelude.Decimal.{stoi, read_int, skip_spaces, is_digit, read_digits, signed, unsigned}
use waylaunch.Dropdown.State.{cut_at, parse_size, parse_fields, whole_number, positive_size}
use waylaunch.Dropdown.State
use waylaunch.Search.Paths.{abbreviate_home, home_dir, drop_prefix}
use waylaunch.History.Rows.{HistoryEntry, parse_row, print_row}
use waylaunch.History.Store.{HistoryStore, prune}
use waylaunch.History.RoundTrip.{parse_row-print_row}
use waylaunch.History.Pruning.{Since, prune-Since}

abbrev searched : ℤ → HistoryEntry
searched time = record {
  query = codes "fire";
  key = 9 ∷ codes "firefox";
  label = codes "Firefox";
  last_used = time;
  uses = 3;
}

abbrev store : HistoryStore
store = record {
  path = codes "history.tsv";
  max_entries = 1;
  max_age_days = 1;
  entries = searched (pos 200000) ∷ searched (pos 250000) ∷ searched (pos 100) ∷ [];
}

parse_row-print_row_example :
    parse_row (print_row (searched (pos 1_700_000_000)))
    ≡ some (record (searched (pos 1_700_000_000)) { label = 9 ∷ codes "firefox" })
parse_row-print_row_example =
    parse_row-print_row (searched (pos 1_700_000_000)) 1_700_000_000 refl (omega arith)
      (omega arith) (omega arith) refl refl

prune-Since_example :
    (length (prune (pos 260000) store).entries ≤ 1)
    × Since (pos 260000 -ℤ pos 1 *ℤ pos 86400) (prune (pos 260000) store).entries
prune-Since_example = prune-Since (pos 260000) store

-- A width with other bytes behind it is read; a height is not.
trailing_width :
    State.parse_row (codes "main" ++ (9 ∷ (codes "12x" ++ (9 ∷ codes "34"))))
    ≡ some (codes "main", record { w = pos 12; h = pos 34 })
unfolding State.parse_row cut_at has_byte parse_size parse_fields stoi read_int skip_spaces is_digit
    read_digits signed unsigned is_space whole_number positive_size
trailing_width = refl

-- A path that the home directory's text begins, without being in that directory, is abbreviated.
beside_home : abbreviate_home (some (codes "/home/a")) (codes "/home/ab/x") ≡ codes "~b/x"
unfolding abbreviate_home home_dir drop_prefix
beside_home = refl

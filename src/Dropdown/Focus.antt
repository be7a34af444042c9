-- ===== src/Dropdown/Focus.antt =====
-- The retract policy: src/dropdown/focus_guard.cpp and its header. Time points are in
-- nanoseconds. `proc_stat` stands for reading the first line of /proc/<pid>/stat.
use waylaunch.Prelude.{
  ℕ, zero, suc, Bool, true, false, not, ◌&&◌, ◌||◌, Option, none, some, [], ◌∷◌, map,
}
use waylaunch.Prelude.Tests.{ltb, ◌==◌, if◌then◌else◌}
use waylaunch.Prelude.Lists.{length, is_empty}
use waylaunch.Prelude.Int.{ℤ, pos, negsuc, ◌-ℤ◌, ◌*ℤ◌, ltb_ℤ, leb_ℤ, eq_ℤ}
use waylaunch.Prelude.Text.{Text, text_eq, to_lower}
use waylaunch.Prelude.Decimal.{strtol}

-- What stands after the last ')'.
unfoldable pub after_last_paren : Text → Option Text
after_last_paren [] = none
after_last_paren (c ∷ s) = elim (after_last_paren s) [
  | some rest ↦ some rest
  | none ↦ if c == b')' then some s else none
]

unfoldable pub skip_blanks : Text → Text
skip_blanks [] = []
skip_blanks (c ∷ s) = if c == 32 then skip_blanks s else c ∷ s

abbrev pub no_parent : ℤ
no_parent = negsuc 0

-- The range test on the parsed number; `none` is a conversion that read nothing.
in_pid_range : Option ℤ → ℤ
in_pid_range none = no_parent
in_pid_range (some p) =
    if leb_ℤ p (pos 0) then no_parent else if ltb_ℤ (pos 4_194_304) p then no_parent else p

-- Past the blanks: the end of the text, or the state character and the number.
ppid_field : Text → ℤ
unfolding in_pid_range
ppid_field [] = no_parent
ppid_field (c ∷ s) = if c == 0 then no_parent else in_pid_range (strtol s)

unfoldable pub parse_stat : Text → ℤ
unfolding ppid_field
parse_stat contents = elim (after_last_paren contents) [
  | none ↦ no_parent
  | some rest ↦ if ltb (length rest) 3 then no_parent else ppid_field (skip_blanks rest)
]

unfoldable pub parent_of : (ℤ → Option Text) → ℤ → ℤ
parent_of proc_stat pid = elim (proc_stat pid) [ none ↦ no_parent | some line ↦ parse_stat line ]

unfoldable pub normalize_address : Text → Text
normalize_address (c ∷ d ∷ e ∷ s) =
    if c == b'0' && (d == b'x' || d == b'X')
    then map to_lower (e ∷ s)
    else map to_lower (c ∷ d ∷ e ∷ s)
normalize_address s = map to_lower s

-- The loop over the hops; what an `elim` holds is computed only when its branch is taken.
unfoldable pub walk_up : (ℤ → ℤ) → ℕ → ℤ → ℤ → Bool
walk_up parent zero pid ancestor = false
walk_up parent (suc hops) pid ancestor =
    let on = walk_up parent hops (parent pid) ancestor in
    if leb_ℤ pid (pos 1)
    then false
    else if ltb_ℤ (parent pid) (pos 0)
    then false
    else if eq_ℤ (parent pid) ancestor
    then true
    else on

unfoldable pub is_descendant_process : (ℤ → Option Text) → ℤ → ℤ → Bool
is_descendant_process proc_stat pid ancestor =
    if eq_ℤ pid ancestor then true else walk_up (parent_of proc_stat) 64 pid ancestor

pub record FocusGuard : Type 0 where
  pub hide_on_focus_loss : Bool
  pub grace_ms : ℤ
  pub ancestry : ℤ → ℤ → Bool
  pub slot_pid : ℤ
  pub slot_address : Text
  pub has_shown : Bool
  pub last_shown : ℤ

unfoldable pub configure : FocusGuard → Bool → ℤ → (ℤ → ℤ → Bool) → FocusGuard
configure g hide grace anc = record g {
  hide_on_focus_loss = hide;
  grace_ms = grace;
  ancestry = anc;
}

unfoldable pub set_slot : FocusGuard → ℤ → Text → FocusGuard
set_slot g pid address = record g { slot_pid = pid; slot_address = normalize_address address }

unfoldable pub note_shown : FocusGuard → ℤ → FocusGuard
note_shown g now = record g { has_shown = true; last_shown = now }

unfoldable pub should_retract : FocusGuard → ℤ → Text → ℤ → Bool
should_retract g now focused_address focused_pid =
    if not g.hide_on_focus_loss
    then false
    else if not (is_empty g.slot_address)
        && text_eq (normalize_address focused_address) g.slot_address
    then false
    else if g.has_shown && ltb_ℤ (now -ℤ g.last_shown) (g.grace_ms *ℤ pos 1_000_000)
    then false
    else if leb_ℤ (pos 0) focused_pid
        && (leb_ℤ (pos 0) g.slot_pid && g.ancestry focused_pid g.slot_pid)
    then false
    else true

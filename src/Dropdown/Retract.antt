-- ===== src/Dropdown/Retract.antt =====
-- When losing the focus retracts the dropdown.
use waylaunch.Prelude.{
  ℕ, zero, suc, ◌≤◌, ◌<◌, ◌≡◌, ◌≢◌, ◌↔◌, refl, sym, ◌∙◌, ◌⊎◌, inl, inr, Bool, true, false, Option,
  none, some, [], ◌∷◌, ◌++◌, map, arith,
}
use waylaunch.Prelude.Tests.{Bool-cases}
use waylaunch.Prelude.Lists.{is_empty, All}
use waylaunch.Prelude.Int.{ℤ, pos, ◌-ℤ◌, ◌*ℤ◌, ◌<ℤ◌, ◌≤ℤ◌, eq_ℤ, eq_ℤ→eq}
use waylaunch.Prelude.Text.{Text, text_eq_iff, to_lower}
use waylaunch.Prelude.Decimal.{show_ℕ, strtol-show_ℕ, strtol-blank, starts_digit}
use waylaunch.Dropdown.Focus.{
  after_last_paren, skip_blanks, parse_stat, normalize_address, walk_up, is_descendant_process,
  parent_of, FocusGuard, configure, set_slot, note_shown, should_retract,
}

-- An address in the form of the event stream: not empty, and with no prefix.
abbrev pub IsBare : Text → Type 0
IsBare [] = ⊥
IsBare (c ∷ []) = Unit {0}
IsBare (c ∷ d ∷ s) = (d ≢ b'x') × (d ≢ b'X')

bare : (a : Text) → IsBare a → normalize_address a ≡ map to_lower a
unfolding normalize_address
bare [] h = absurd h
bare (c ∷ []) h = refl
bare (c ∷ d ∷ []) h = refl
bare (c ∷ d ∷ e ∷ s) h = ground arith

prefixed : (a : Text) → IsBare a → normalize_address (b'0' ∷ b'x' ∷ a) ≡ map to_lower a
unfolding normalize_address
prefixed [] h = absurd h
prefixed (c ∷ s) h = refl

-- The two spellings of an address, with its prefix as in the client list and without as in the
-- event stream, are the same after normalizing, and so are any two that differ in case.
pub normalize_address_lem :
    (a b : Text)
    → IsBare a
    → IsBare b
    → map to_lower a ≡ map to_lower b
    → (normalize_address (b'0' ∷ b'x' ∷ a) ≡ normalize_address b)
      × (normalize_address a ≡ normalize_address b)
normalize_address_lem a b ha hb e =
    (prefixed a ha ∙ (e ∙ sym (bare b hb)), bare a ha ∙ (e ∙ sym (bare b hb)))

-- `n` steps from `pid` up the process tree, each to a parent that is known, from a pid above 1.
abbrev pub IsAncestor : (ℤ → ℤ) → ℕ → ℤ → ℤ → Type 0
IsAncestor parent zero pid ancestor = pid ≡ ancestor
IsAncestor parent (suc n) pid ancestor =
    (pos 1 <ℤ pid) × (pos 0 ≤ℤ parent pid) × IsAncestor parent n (parent pid) ancestor

walk_sound :
    (parent : ℤ → ℤ) (hops : ℕ) (pid ancestor : ℤ)
    → walk_up parent hops pid ancestor ≡ true
    → (n : ℕ) × (n < hops) × IsAncestor parent (suc n) pid ancestor
unfolding walk_up
walk_sound parent zero pid ancestor h = cc
walk_sound parent (suc hops) pid ancestor h = elim (Bool-cases (eq_ℤ (parent pid) ancestor)) [
  | inl e ↦ (0, omega arith, (ground arith, ground arith, eq_ℤ→eq (parent pid) ancestor e))
  | inr e ↦
      let up : walk_up parent hops (parent pid) ancestor ≡ true = ground arith in
      let (n, l, a) = walk_sound parent hops (parent pid) ancestor up in
      (suc n, omega arith, (ground arith, ground arith, a))
]

eq_ℤ-refl : (a b : ℤ) → a ≡ b → eq_ℤ a b ≡ true
eq_ℤ-refl a b e = rw e (ground arith)

walk_on :
    (parent : ℤ → ℤ) (hops : ℕ) (pid ancestor : ℤ)
    → pos 1 <ℤ pid
    → pos 0 ≤ℤ parent pid
    → (eq_ℤ (parent pid) ancestor ≡ true) ⊎ (walk_up parent hops (parent pid) ancestor ≡ true)
    → walk_up parent (suc hops) pid ancestor ≡ true
unfolding walk_up
walk_on parent hops pid ancestor h k w = ground arith

walk_complete :
    (parent : ℤ → ℤ) (hops n : ℕ) (pid ancestor : ℤ)
    → n < hops
    → IsAncestor parent (suc n) pid ancestor
    → walk_up parent hops pid ancestor ≡ true
walk_complete parent zero n pid ancestor h a = elim h [ ]
walk_complete parent (suc hops) zero pid ancestor h a =
    walk_on parent hops pid ancestor a.0 a.1 (inl (eq_ℤ-refl (parent pid) ancestor a.2))
walk_complete parent (suc hops) (suc n) pid ancestor h a =
    walk_on parent hops pid ancestor a.0 a.1
      (inr (walk_complete parent hops n (parent pid) ancestor (omega arith) a.2))

-- The walk finds an ancestor exactly when one stands at most 64 steps up the process tree; so it
-- ends on every tree, a cyclic or a broken one included.
pub is_descendant_process_iff :
    (proc_stat : ℤ → Option Text) (pid ancestor : ℤ)
    → (is_descendant_process proc_stat pid ancestor ≡ true)
      ↔ ((n : ℕ) × (n ≤ 64) × IsAncestor (parent_of proc_stat) n pid ancestor)
unfolding is_descendant_process
is_descendant_process_iff proc_stat pid ancestor = elim (Bool-cases (eq_ℤ pid ancestor)) [
  | inl e ↦ (λ h. (0, omega arith, eq_ℤ→eq pid ancestor e), λ h. rw e refl)
  | inr e ↦ (
    λ h. climbed (walk_sound (parent_of proc_stat) 64 pid ancestor (rw e at h)),
    λ h. rw e (climb e h.0 h.1 h.2),
  )
]
  where
    climbed :
        ((n : ℕ) × (n < 64) × IsAncestor (parent_of proc_stat) (suc n) pid ancestor)
        → (n : ℕ) × (n ≤ 64) × IsAncestor (parent_of proc_stat) n pid ancestor
    climbed (n, l, a) = (suc n, omega arith, a)

    climb :
        eq_ℤ pid ancestor ≡ false
        → (n : ℕ) → n ≤ 64
        → IsAncestor (parent_of proc_stat) n pid ancestor
        → walk_up (parent_of proc_stat) 64 pid ancestor ≡ true
    climb e zero l a = cc (eq_ℤ-refl pid ancestor a)
    climb e (suc n) l a = walk_complete (parent_of proc_stat) 64 n pid ancestor l a

bare_nonempty : (a : Text) → IsBare a → is_empty (map to_lower a) ≡ false
bare_nonempty [] h = absurd h
bare_nonempty (c ∷ s) h = refl

-- After a show at `shown`, for a slot whose window has the address `a`: with hiding on the loss of
-- focus switched off nothing retracts the dropdown. With it on, nothing does within the grace
-- period, nor does focus on its own window or on a process that descends from its own; any other
-- focus does.
pub retract_session :
    (g : FocusGuard) (hide : Bool) (grace : ℕ) (anc : ℤ → ℤ → Bool) (pid shown now focused_pid : ℤ)
    (a focused : Text)
    → IsBare a
    → let s =
        note_shown (set_slot (configure g hide (pos grace) anc) pid (b'0' ∷ b'x' ∷ a)) shown in
      (should_retract s now focused focused_pid ≡ true) ↔ (
        (hide ≡ true)
        × (normalize_address focused ≢ map to_lower a)
        × (pos grace *ℤ pos 1_000_000 ≤ℤ now -ℤ shown)
        × ((focused_pid <ℤ pos 0) ⊎ ((pid <ℤ pos 0) ⊎ (anc focused_pid pid ≡ false))))
unfolding should_retract note_shown set_slot configure
retract_session g true grace anc pid shown now focused_pid a focused h = rw (prefixed a h) (
  λ r. ground (arith, text_eq_iff (normalize_address focused) (map to_lower a), bare_nonempty a h),
  λ r. ground (arith, text_eq_iff (normalize_address focused) (map to_lower a), bare_nonempty a h),
)
retract_session g false grace anc pid shown now focused_pid a focused h =
    (λ r. ground arith, λ r. ground arith)

last_paren : (s : Text) → All (λ c. c ≢ b')') s → after_last_paren s ≡ none
unfolding after_last_paren
last_paren [] h = refl
last_paren (c ∷ s) h = ground (arith, last_paren s h.1)

after_paren :
    (front s : Text) → All (λ c. c ≢ b')') s → after_last_paren (front ++ b')' ∷ s) ≡ some s
unfolding after_last_paren
after_paren [] s h = rw (last_paren s h)
after_paren (c ∷ front) s h = rw (after_paren front s h)

-- A line of /proc/<pid>/stat whose command name ends at the last ')' gives the parent that
-- stands after the state, whatever the name holds: blanks, parentheses and digits included.
pub parse_stat-format :
    (front rest : Text) (state ppid : ℕ)
    → state ≢ 32
    → state ≢ 0
    → 1 ≤ ppid
    → ppid ≤ 4_194_304
    → starts_digit rest ≡ false
    → All (λ c. c ≢ b')') (32 ∷ state ∷ 32 ∷ (show_ℕ ppid ++ rest))
    → parse_stat (front ++ b')' ∷ 32 ∷ state ∷ 32 ∷ (show_ℕ ppid ++ rest)) ≡ pos ppid
unfolding parse_stat skip_blanks
parse_stat-format front rest state ppid s z l u d p =
    rw (after_paren front (32 ∷ state ∷ 32 ∷ (show_ℕ ppid ++ rest)) p, parse_stat)
      (ground (arith, strtol-blank (show_ℕ ppid ++ rest), strtol-show_ℕ ppid rest d))

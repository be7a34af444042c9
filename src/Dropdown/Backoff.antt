-- ===== src/Dropdown/Backoff.antt =====
-- The respawn delays of the session supervisor.
use waylaunch.Prelude.{
  ℕ, suc, ◌+◌, ◌*◌, ◌^◌, ◌≤◌, ◌≡◌, ◌⊎◌, refl, Bool, true, Option, some, List, [], ◌∷◌, arith,
}
use Prim.Native.Nat.{min}
use native.Mathlib.Nat.{pow-suc}
use Prim.Native.Nat.add
use waylaunch.Prelude.Lists.{length, All}
use waylaunch.Prelude.Int.{ℤ, ◌-ℤ◌, ◌<ℤ◌}
use waylaunch.Prelude.Text.{Text}
use waylaunch.Dropdown.Supervisor.{
  SessionSupervisor, new_supervisor, note_spawned, note_exited, doubled, take_child,
  set_respawn_enabled, healthy_lifetime,
}

-- A life of the terminal: its pid, when it was spawned and when it exited.
pub record Life : Type 0 where
  pub pid : ℤ
  pub start : ℤ
  pub stop : ℤ

abbrev pub IsShort : Life → Type 0
IsShort l = l.stop -ℤ l.start <ℤ healthy_lifetime

unfoldable pub live : SessionSupervisor → Life → Option ℕ × SessionSupervisor
live s l = note_exited (note_spawned s l.pid l.start) l.stop true

unfoldable pub live_all : SessionSupervisor → List Life → SessionSupervisor
live_all s [] = s
live_all s (l ∷ ls) = live_all (live s l).1 ls

-- The delay after `n` crashes in a row.
abbrev pub delay : ℕ → ℕ
delay n = min (250 * 2 ^ n) 8000

doubled-delay : (n : ℕ) → doubled (delay n) ≡ delay (suc n)
unfolding doubled
doubled-delay n = rw (pow-suc 2 n) (ground arith)

short_life :
    (s : SessionSupervisor) (l : Life) (n : ℕ)
    → s.respawn_enabled ≡ true
    → s.backoff_ms ≡ delay n
    → IsShort l
    → ((live s l).0 ≡ some (delay n))
      × ((live s l).1.backoff_ms ≡ delay (suc n))
      × ((live s l).1.respawn_enabled ≡ true)
unfolding live note_exited note_spawned
short_life s l n r b h = ground (arith, doubled-delay n)

short_lives :
    (s : SessionSupervisor) (ls : List Life) (n : ℕ)
    → s.respawn_enabled ≡ true
    → s.backoff_ms ≡ delay n
    → All IsShort ls
    → ((live_all s ls).backoff_ms ≡ delay (length ls + n))
      × ((live_all s ls).respawn_enabled ≡ true)
unfolding live_all
short_lives s [] n r b h = (rw (add.zero n) b, r)
short_lives s (l ∷ ls) n r b h =
    let (_, b', r') = short_life s l n r b h.0 in
    let (b'', r'') = short_lives (live s l).1 ls (suc n) r' b' h.1 in
    let count : length ls + suc n ≡ suc (length ls) + n = omega arith in (rw count at b'', r'')

-- A terminal that keeps dying within ten seconds is restarted after 250 milliseconds, then after
-- twice the delay each time, and never after more than eight seconds: the delay after `n` short
-- lives is 250 * 2^n, cut at 8000.
pub crash_delays :
    (slot : Text) (ls : List Life) (l : Life)
    → All IsShort ls
    → IsShort l
    → (live (live_all (new_supervisor slot) ls) l).0 ≡ some (min (250 * 2 ^ length ls) 8000)
unfolding new_supervisor
crash_delays slot ls l hs h =
    let (b, r) = short_lives (new_supervisor slot) ls 0 refl refl hs in
    let count : length ls + 0 ≡ length ls = omega arith in
    (short_life (live_all (new_supervisor slot) ls) l (length ls) r (rw count at b) h).0

-- What a caller may do with a supervisor.
pub data Use : Type 0 where
  spawned : ℤ → ℤ → Use
  exited : ℤ → Bool → Use
  taken : Use
  enabled : Bool → Use

unfoldable pub use_supervisor : SessionSupervisor → Use → SessionSupervisor
use_supervisor s (Use.spawned pid now) = note_spawned s pid now
use_supervisor s (Use.exited now respawn) = (note_exited s now respawn).1
use_supervisor s Use.taken = (take_child s).1
use_supervisor s (Use.enabled b) = set_respawn_enabled s b

abbrev pub InRange : SessionSupervisor → Type 0
InRange s = (250 ≤ s.backoff_ms) × (s.backoff_ms ≤ 8000)

-- Every use keeps the backoff between 250 and 8000 milliseconds, a delay that an exit gives lies
-- in that range, and an exit after a life of at least ten seconds gives 250.
pub backoff_range :
    (s : SessionSupervisor) (u : Use) (now : ℤ) (d : ℕ)
    → InRange s
    → (note_exited s now true).0 ≡ some d
    → InRange (use_supervisor s u)
      × ((250 ≤ d) × (d ≤ 8000))
      × ((d ≡ 250) ⊎ (now -ℤ s.spawned_at <ℤ healthy_lifetime))
unfolding use_supervisor note_spawned note_exited take_child set_respawn_enabled doubled
backoff_range s u now d r h = ground arith

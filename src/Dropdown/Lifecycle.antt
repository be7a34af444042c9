-- ===== src/Dropdown/Lifecycle.antt =====
-- What holds of the dropdown's state over every sequence of events.
use waylaunch.Prelude.{◌≡◌, ◌≢◌, refl, sym, ◌⊎◌, inl, inr, List, [], ◌∷◌, ◌++◌, arith}
use mathlib.Core.List.{Memᴰ}
use waylaunch.Dropdown.Manager.{DropdownState, DropdownEvent, process_event, run}

-- The events that end a session.
abbrev pub IsEnd : DropdownEvent → Type 0
IsEnd e = (e ≡ DropdownEvent.window_closed) ⊎ (e ≡ DropdownEvent.child_exited)

end-absent :
    (s : DropdownState) (e : DropdownEvent) → IsEnd e → process_event s e ≡ DropdownState.absent
unfolding process_event
end-absent s e h = ground arith

absent-step :
    (e : DropdownEvent)
    → (e ≡ DropdownEvent.toggle) ⊎ (process_event DropdownState.absent e ≡ DropdownState.absent)
unfolding process_event
absent-step e = ground arith

absent_until_toggle :
    (es : List DropdownEvent)
    → run DropdownState.absent es ≢ DropdownState.absent
    → Memᴰ DropdownEvent.toggle es
unfolding run
absent_until_toggle [] h = absurd (h refl)
absent_until_toggle (e ∷ es) h = elim (absent-step e) [
  | inl t ↦ Memᴰ.head (sym t)
  | inr a ↦ Memᴰ.tail (absent_until_toggle es (rw a at h))
]

run-append : (s : DropdownState) (es fs : List DropdownEvent) → run s (es ++ fs) ≡ run (run s es) fs
unfolding run
run-append s [] fs = refl
run-append s (e ∷ es) fs = run-append (process_event s e) es fs

-- After the window closed or the child exited, whatever came before, a session exists again only
-- if a toggle came since.
pub session_needs_toggle :
    (s : DropdownState) (before after : List DropdownEvent) (e : DropdownEvent)
    → IsEnd e
    → run s (before ++ e ∷ after) ≢ DropdownState.absent
    → Memᴰ DropdownEvent.toggle after
unfolding run
session_needs_toggle s before after e h live =
    absent_until_toggle after
      (rw (end-absent (run s before) e h) at (rw (run-append s before (e ∷ after)) at live))

-- A toggle of a window that is shown hides it and the next one shows it again, and the same from
-- hidden; the compositor's report of its visibility settles the state of any session.
pub toggle_pairs :
    (s : DropdownState)
    → s ≢ DropdownState.absent
    → s ≢ DropdownState.spawning
    → (process_event (process_event s DropdownEvent.toggle) DropdownEvent.toggle ≡ s)
      × (process_event s DropdownEvent.toggle ≢ s)
      × (process_event s DropdownEvent.window_shown ≡ DropdownState.visible)
      × (process_event s DropdownEvent.window_hidden ≡ DropdownState.hidden)
unfolding process_event
toggle_pairs s a b = ground arith

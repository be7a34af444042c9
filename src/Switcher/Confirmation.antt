-- ===== src/Switcher/Confirmation.antt =====
-- When the application switcher confirms its selection.
use waylaunch.Prelude.{ℕ, ◌≡◌, refl, ap, ◌∙◌, true, false, List, [], ◌∷◌, ◌++◌, arith}
use waylaunch.Prelude.Lists.{All}
use waylaunch.Switcher.StateMachine.{SwitcherState, SwitcherEvent, is_active, process_event}
use waylaunch.Switcher.Manager
use waylaunch.Switcher.Manager.{SwitcherManager}
use waylaunch.Switcher.Controller.{SwitcherController, holding_mod, handle_modifiers, confirm}

-- The controller after the reports of the modifiers.
abbrev pub reports : SwitcherController → List ℕ → SwitcherController
reports c [] = c
reports c (m ∷ ms) = reports (handle_modifiers c m).0 ms

reports-append :
    (c : SwitcherController) (xs ys : List ℕ) → reports c (xs ++ ys) ≡ reports (reports c xs) ys
reports-append c [] ys = refl
reports-append c (x ∷ xs) ys = reports-append (handle_modifiers c x).0 xs ys

-- What a run of reports leaves alone.
abbrev pub Same : SwitcherController → SwitcherController → Type 0
Same c d = (d.manager ≡ c.manager) × (d.state ≡ c.state)

silent_report :
    (c : SwitcherController) (m : ℕ)
    → c.mod_was_held ≡ false
    → holding_mod m ≡ false
    → Same c (handle_modifiers c m).0 × ((handle_modifiers c m).0.mod_was_held ≡ false)
unfolding handle_modifiers
silent_report c m h x = grind arith

held_report :
    (c : SwitcherController) (m : ℕ)
    → holding_mod m ≡ true
    → Same c (handle_modifiers c m).0 × ((handle_modifiers c m).0.mod_was_held ≡ true)
unfolding handle_modifiers
held_report c m x = grind arith

-- While no report since the trigger has shown a held modifier, none of them confirms: the manager
-- and the state stay as they were.
pub reports_without_hold :
    (c : SwitcherController) (ms : List ℕ)
    → c.mod_was_held ≡ false
    → All (λ m. holding_mod m ≡ false) ms
    → Same c (reports c ms) × ((reports c ms).mod_was_held ≡ false)
reports_without_hold c [] h a = ((refl, refl), h)
reports_without_hold c (m ∷ ms) h (x, a) =
    let ((p, q), r) = silent_report c m h x in
    let ((p', q'), r') = reports_without_hold (handle_modifiers c m).0 ms r a in
    ((p' ∙ p, q' ∙ q), r')

reports_held :
    (c : SwitcherController) (ms : List ℕ)
    → c.mod_was_held ≡ true
    → All (λ m. holding_mod m ≡ true) ms
    → Same c (reports c ms) × ((reports c ms).mod_was_held ≡ true)
reports_held c [] h a = ((refl, refl), h)
reports_held c (m ∷ ms) h (x, a) =
    let ((p, q), r) = held_report c m x in
    let ((p', q'), r') = reports_held (handle_modifiers c m).0 ms r a in ((p' ∙ p, q' ∙ q), r')

active-confirms :
    (s : SwitcherState)
    → is_active s ≡ true
    → process_event s SwitcherEvent.confirm ≡ SwitcherState.hidden
unfolding process_event is_active
active-confirms SwitcherState.hidden h = cc
active-confirms SwitcherState.active_holding_mod h = refl
active-confirms SwitcherState.dismissing h = cc

release :
    (c : SwitcherController) (m : ℕ)
    → c.mod_was_held ≡ true
    → is_active c.state ≡ true
    → holding_mod m ≡ false
    → ((handle_modifiers c m).0.manager ≡ Manager.confirm_selection c.manager)
      × ((handle_modifiers c m).0.state ≡ SwitcherState.hidden)
      × ((handle_modifiers c m).1 ≡ true)
unfolding handle_modifiers confirm
release c m h i x = grind (arith, active-confirms c.state i)

-- A report with a held modifier followed, after more such reports, by one without confirms the
-- selection and hides the switcher, whatever reports without a hold came before.
pub hold_then_release :
    (c : SwitcherController) (ms : List ℕ) (m : ℕ) (hs : List ℕ) (r : ℕ)
    → is_active c.state ≡ true
    → c.mod_was_held ≡ false
    → All (λ x. holding_mod x ≡ false) ms
    → All (λ x. holding_mod x ≡ true) (m ∷ hs)
    → holding_mod r ≡ false
    → ((reports c (ms ++ (m ∷ (hs ++ (r ∷ []))))).manager ≡ Manager.confirm_selection c.manager)
      × ((reports c (ms ++ (m ∷ (hs ++ (r ∷ []))))).state ≡ SwitcherState.hidden)
hold_then_release c ms m hs r i h quiet (x, held) last =
    let ((p, q), n) = reports_without_hold c ms h quiet in
    let ((p', q'), n') = held_report (reports c ms) m x in
    let ((p'', q''), n'') = reports_held (handle_modifiers (reports c ms) m).0 hs n' held in
    let d : SwitcherController = reports (handle_modifiers (reports c ms) m).0 hs in
    let split : reports c (ms ++ (m ∷ (hs ++ (r ∷ [])))) ≡ (handle_modifiers d r).0 =
      reports-append c ms (m ∷ (hs ++ (r ∷ [])))
      ∙ reports-append (handle_modifiers (reports c ms) m).0 hs (r ∷ []) in
    let (a, b, e) = release d r n'' (ap is_active (q'' ∙ q' ∙ q) ∙ i) last in
    (
      ap (λ k. k.manager) split ∙ a ∙ ap Manager.confirm_selection (p'' ∙ p' ∙ p),
      ap (λ k. k.state) split ∙ b,
    )

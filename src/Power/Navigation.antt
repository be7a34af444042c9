-- ===== src/Power/Navigation.antt =====
-- Moving the selection of the power overlay.
use waylaunch.Prelude.{ℕ, ◌+◌, ◌<◌, ◌≤◌, ◌⊎◌, ◌≢◌, ◌≡◌, arith}
use waylaunch.Prelude.Lists.{length}
use waylaunch.Prelude.Cyclic.{prev_next, next_prev}
use waylaunch.Power.Manager.{PowerManager, navigate_next, navigate_prev, jump_to}

-- Moving on and back, or back and on, ends at the selection it started from.
pub navigate_inverse :
    (m : PowerManager)
    → m.selected_index < length m.actions
    → ((navigate_prev (navigate_next m)).selected_index ≡ m.selected_index)
      × ((navigate_next (navigate_prev m)).selected_index ≡ m.selected_index)
unfolding navigate_next navigate_prev
navigate_inverse m h = ground (
  arith,
  prev_next m.selected_index (length m.actions) h,
  next_prev m.selected_index (length m.actions) h,
)

-- Jumping selects a card that is there, asks for a redraw only when it is another card, and
-- leaves everything as it is out of range or on the card already selected.
pub jump_to_lem :
    (m : PowerManager) (i : ℕ)
    → ((i < length m.actions)
        × (i ≢ m.selected_index)
        × ((jump_to m i).selected_index ≡ i)
        × ((jump_to m i).redraws ≡ m.redraws + 1))
      ⊎ (((length m.actions ≤ i) ⊎ (i ≡ m.selected_index)) × (jump_to m i ≡ m))
unfolding jump_to
jump_to_lem m i = grind arith

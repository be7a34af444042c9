-- ===== src/Switcher/StateMachine.antt =====
-- SwitcherStateMachine: src/switcher/switcher_state_machine.cpp and its header.
use waylaunch.Prelude.{Bool, true, false}

pub data SwitcherState : Type 0 where
  hidden active_holding_mod dismissing : SwitcherState

pub data SwitcherEvent : Type 0 where
  trigger next prev jump quit minimize confirm cancel : SwitcherEvent

unfoldable pub process_event : SwitcherState → SwitcherEvent → SwitcherState
process_event SwitcherState.hidden SwitcherEvent.trigger = SwitcherState.active_holding_mod
process_event SwitcherState.hidden SwitcherEvent.next = SwitcherState.active_holding_mod
process_event SwitcherState.hidden _ = SwitcherState.hidden
process_event SwitcherState.active_holding_mod SwitcherEvent.confirm = SwitcherState.hidden
process_event SwitcherState.active_holding_mod SwitcherEvent.cancel = SwitcherState.hidden
process_event SwitcherState.active_holding_mod _ = SwitcherState.active_holding_mod
process_event SwitcherState.dismissing _ = SwitcherState.hidden

unfoldable pub is_active : SwitcherState → Bool
is_active SwitcherState.active_holding_mod = true
is_active _ = false

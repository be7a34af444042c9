-- ===== src/Power/StateMachine.antt =====
-- PowerStateMachine: src/power/power_state_machine.cpp and its header.
use waylaunch.Prelude.{Bool, true, false}

pub data PowerState : Type 0 where
  hidden active confirm_open dismissing : PowerState

pub data PowerEvent : Type 0 where
  trigger open_confirm execute cancel dismissed : PowerEvent

-- `dismissing` leaves on any event.
unfoldable pub process_event : PowerState → PowerEvent → PowerState
process_event PowerState.hidden PowerEvent.trigger = PowerState.active
process_event PowerState.hidden _ = PowerState.hidden
process_event PowerState.active PowerEvent.open_confirm = PowerState.confirm_open
process_event PowerState.active PowerEvent.execute = PowerState.dismissing
process_event PowerState.active PowerEvent.cancel = PowerState.dismissing
process_event PowerState.active _ = PowerState.active
process_event PowerState.confirm_open PowerEvent.execute = PowerState.dismissing
process_event PowerState.confirm_open PowerEvent.cancel = PowerState.dismissing
process_event PowerState.confirm_open _ = PowerState.confirm_open
process_event PowerState.dismissing _ = PowerState.hidden

unfoldable pub is_active : PowerState → Bool
is_active PowerState.active = true
is_active PowerState.confirm_open = true
is_active _ = false

unfoldable pub is_confirm_open : PowerState → Bool
is_confirm_open PowerState.confirm_open = true
is_confirm_open _ = false

-- ===== src/Power.antt =====
-- The power overlay: src/power and include/waylaunch/power.
pub mod StateMachine
pub mod Dialog
pub mod Manager
pub mod Layout
pub mod Controller
pub mod Invariant
pub mod Consent
pub mod Finality
pub mod LayoutBounds
pub mod Navigation
pub mod Backend
pub mod Argv
pub mod Actions
pub mod Countdown

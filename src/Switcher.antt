-- ===== src/Switcher.antt =====
-- The application switcher: src/switcher, less resolve_icon_name, a parameter `resolve` of the
-- grouping, and the renderer.
pub mod StateMachine
pub mod Groups
pub mod Manager
pub mod Controller
pub mod Counting
pub mod Sorting
pub mod FocusTimes
pub mod Clock
pub mod Order
pub mod Bounds
pub mod Confirmation
pub mod Focus
pub mod SafeAddress

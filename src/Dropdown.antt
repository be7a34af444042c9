-- ===== src/Dropdown.antt =====
-- The dropdown terminal's policies: src/dropdown and include/waylaunch/dropdown.
pub mod Manager
pub mod Geometry
pub mod Focus
pub mod Supervisor
pub mod Tabs
pub mod Ownership
pub mod Events
pub mod State
pub mod JsonString
pub mod Json
pub mod JsonPayload
pub mod JsonRoundTrip
pub mod Surrogates
pub mod SavedSizes
pub mod Framing
pub mod Placement
pub mod Resize
pub mod Lifecycle
pub mod Backoff
pub mod Selection
pub mod Slot
pub mod Retract
pub mod TabBar

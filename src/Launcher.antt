-- ===== src/Launcher.antt =====
-- The launcher's window, src/ui/launcher_ui.cpp.
pub mod Editor
pub mod Utf8
pub mod Items
pub mod Rows
pub mod Clicks
pub mod Providers
pub mod Search
pub mod Input
pub mod Invariant
pub mod Events
pub mod Worker
pub mod Delivery
pub mod Liveness
pub mod TopHit
pub mod Typing

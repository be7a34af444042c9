-- ===== src/History.antt =====
-- The query history: src/ui/history.cpp and include/waylaunch/history.h.
pub mod Rows
pub mod Store
pub mod RoundTrip
pub mod Pruning

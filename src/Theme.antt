-- ===== src/Theme.antt =====
-- The colours of the launcher, src/config/matugen_theme.cpp.
pub mod Scheme
pub mod Slots

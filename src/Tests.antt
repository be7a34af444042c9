-- ===== src/Tests.antt =====
-- Theorems at concrete inputs, and runs of the models that can be followed in the source.
mod Power
mod Dropdown
mod Switcher
mod History
mod Launcher
mod Index
mod Json
mod Content
mod Calculator
mod Theme

-- ===== src/Calculator.antt =====
-- The calculator of the launcher, src/modes/calculator.cpp.
pub mod Floats
pub mod Parser
pub mod Evaluator
pub mod Grammar
pub mod Spelling
pub mod Steps
pub mod Reading
pub mod Printed
pub mod Parsing
pub mod Meaning
pub mod Fuel
pub mod EnoughFuel
pub mod Termination

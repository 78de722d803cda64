-- ===== src/Eval/Obeys.antt =====
-- The evaluator is built from the ways to build commands that a logic has a rule for.
pub mod Operators
pub mod Casts
pub mod Calls
pub mod Statements

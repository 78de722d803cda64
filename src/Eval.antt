-- ===== src/Eval.antt =====
-- eval.cpp: the evaluation of expressions and the execution of statements.
pub mod Evaluator
pub mod Lvalues
pub mod Operators
pub mod Casts
pub mod Calls
pub mod Statements
pub mod Run
pub mod Loops
pub mod Obeys
pub mod Frames
pub mod Typed
pub mod Constants

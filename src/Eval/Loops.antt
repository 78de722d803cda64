-- ===== src/Eval/Loops.antt =====
-- Completions of loops and of blocks.
use ctutor.Exec.{Exec}
use ctutor.Eval.Evaluator.{Evaluator}

-- ===== src/Eval/Frames.antt =====
-- What eval_rexpr and exec_stmt leave of the interpreter's state.
use Prim.Native.String.{String}
use ctutor.Base.{ℕ, ◌≡◌}
use ctutor.Outcome.{ok}
use ctutor.Ast.{Stmt}
use ctutor.Mem.Stack.{Frame}
use ctutor.Exec.{State, Host, Exec}
use ctutor.Exec.Refines.{Refines}
use ctutor.Exec.Frames.{onto, Grown}
use ctutor.Exec.Frames.Instance.{frames_logic}
use ctutor.Eval.Evaluator.{Completion}
use ctutor.Eval.Run.{evaluator}
use ctutor.Eval.Obeys.Statements.{evaluator-Extend}

-- A statement that completes adds at most variables to the newest frame: all older frames, the current
-- source and the tables of the program are as they were.
pub stmt-frames :
    (h : Host) (n : ℕ) (st : Stmt) (s s' : State) (c : Completion)
    → (evaluator h n).stmt st s ≡ ok (c, s')
    → (s' ≡ record s { memory = s'.memory; scopes = s'.scopes })
      × (new : Frame) × (s'.scopes.stack_vars ≡ onto new s.scopes.stack_vars)
unfolding Grown frames_logic
stmt-frames h n st s s' c e =
    let w = ((evaluator-Extend (frames_logic h) n).stmt st).holds.at s s' c e in
    (w.same, w.frames.0, w.frames.1)

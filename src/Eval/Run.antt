-- ===== src/Eval/Run.antt =====
-- eval_lexpr, eval_rexpr and exec_stmt, tied together on fuel: each call of one of them from another
-- spends one unit, and so does each round of a loop.
use ctutor.Base.{ℕ, zero, suc}
use ctutor.Exec.{Host, no_fuel}
use ctutor.Eval.Evaluator.{Evaluator}
use ctutor.Eval.Lvalues.{lexpr_step}
use ctutor.Eval.Calls.{rexpr_step}
use ctutor.Eval.Statements.{stmt_step}

module _ (h : Host) where
  unfoldable pub evaluator : ℕ → Evaluator
  unfolding lexpr_step rexpr_step stmt_step
  evaluator zero = record { lexpr = λ e. no_fuel; rexpr = λ e. no_fuel; stmt = λ s. no_fuel }
  evaluator (suc f) =
      let ev = evaluator f in
      record {
        lexpr = λ e. lexpr_step h ev e;
        rexpr = λ e. rexpr_step h ev e;
        stmt = λ s. stmt_step h ev f s;
      }

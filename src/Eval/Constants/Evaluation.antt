-- ===== src/Eval/Constants/Evaluation.antt =====
-- Constant expressions are evaluated to their values.
use ctutor.Base.{ℕ, zero, suc, ◌≤◌, ◌<◌, ◌≡◌, arith}
use ctutor.Outcome.{ok}
use ctutor.Machine.ApInt.{ApIntLaws}
use ctutor.Ast.{BinaryOp}
use ctutor.Types.EmuVal.{num}
use ctutor.Exec.{State, Host}
use ctutor.Eval.Evaluator.{returned}
use ctutor.Eval.Calls.{rexpr_step}
use ctutor.Eval.Run.{evaluator}
use ctutor.Eval.Constants.{
  Constant, literal, negative, grouped, plus, minus, times, int_of, tree, meaning, meaning-Small,
  Small, depth,
}
use ctutor.Eval.Constants.Steps.{
  operate-add, operate-sub, operate-mul, binary-Yields, literal-Yields, negative-Yields, add-shape,
  sub-shape, mul-shape,
}

depth-positive : (c : Constant) → 0 < depth c
unfolding depth
depth-positive (literal n) = omega arith
depth-positive _ = omega arith

-- For an APInt as documented: a constant expression of int literals that are not negative, parentheses,
-- unary minus, sums, differences and products is evaluated within fuel of its size, from any state. It
-- yields a defined int with the tag of int and the value that the expression has in wrapping arithmetic of
-- 32 bits, and the state is as it was.
pub constant-evaluates :
    (h : Host) (c : Constant) (n : ℕ) (s : State)
    → ApIntLaws h.ops
    → Small c
    → depth c ≤ n
    → (evaluator h n).rexpr (tree c) s ≡ ok (returned (num (int_of (meaning c))), s)
unfolding evaluator rexpr_step tree meaning depth Small
constant-evaluates h (literal v) (suc n) s laws small enough =
    literal-Yields h laws (evaluator h n) v s small
constant-evaluates h (negative c) (suc n) s laws small enough =
    negative-Yields h laws (evaluator h n) (tree c) (meaning c) s (meaning-Small c small)
      (constant-evaluates h c n s laws small (omega arith))
constant-evaluates h (grouped c) (suc n) s laws small enough =
    constant-evaluates h c n s laws small (omega arith)
constant-evaluates h (plus a b) (suc n) s laws (sa, sb) enough =
    binary-Yields h laws (evaluator h n) BinaryOp.add (tree a) (tree b) (meaning a) (meaning b) _ s
      (add-shape h (evaluator h n) (tree a)) (constant-evaluates h a n s laws sa (omega arith))
      (constant-evaluates h b n s laws sb (omega arith))
      (operate-add h laws (meaning a) (meaning b) s)
constant-evaluates h (minus a b) (suc n) s laws (sa, sb) enough =
    binary-Yields h laws (evaluator h n) BinaryOp.sub (tree a) (tree b) (meaning a) (meaning b) _ s
      (sub-shape h (evaluator h n) (tree a)) (constant-evaluates h a n s laws sa (omega arith))
      (constant-evaluates h b n s laws sb (omega arith))
      (operate-sub h laws (meaning a) (meaning b) s (meaning-Small b sb))
constant-evaluates h (times a b) (suc n) s laws (sa, sb) enough =
    binary-Yields h laws (evaluator h n) BinaryOp.mul (tree a) (tree b) (meaning a) (meaning b) _ s
      (mul-shape h (evaluator h n) (tree a)) (constant-evaluates h a n s laws sa (omega arith))
      (constant-evaluates h b n s laws sb (omega arith))
      (operate-mul h laws (meaning a) (meaning b) s)
constant-evaluates h c zero s laws small enough = absurd (omega (arith, enough, depth-positive c))

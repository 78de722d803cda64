-- ===== src/Eval/Evaluator.antt =====
-- What the functions of eval.cpp call one another by. A construct is modelled by a function over
-- such a record, whose members have less fuel.
use ctutor.Base.{ℕ, Option, none, some}
use ctutor.Outcome.{Outcome, ok, undefined}
use ctutor.Ast.{Expr, Stmt}
use ctutor.Types.QualType.{QualType, pointer}
use ctutor.Types.EmuVal.{EmuVal}
use ctutor.Types.EmuPtr.{Target, block, nullptr}
use ctutor.Mem.Stack.{Lvalue}
use ctutor.Exec.{Host, Exec, lift, ◌>>=◌}

-- A pointer to EmuVal as the functions return it: null, BREAK_POINTER, or a value.
pub data Completion : Type 0 where
  normal : Completion
  breaks : Completion
  returned : EmuVal → Completion

-- eval_lexpr, eval_rexpr and exec_stmt
pub record Evaluator : Type 0 where
  pub lexpr : Expr → Exec Lvalue
  pub rexpr : Expr → Exec Completion
  pub stmt : Stmt → Exec Completion

-- A use of the object behind the pointer.
unfoldable pub value_of : Completion → Outcome EmuVal
value_of (returned v) = ok v
value_of _ = undefined

unfoldable pub value : Evaluator → Expr → Exec EmuVal
unfolding value_of
value ev e = ev.rexpr e >>= λ c. lift (value_of c)

-- An expression that may be absent: its use would dereference null.
unfoldable pub value? : Evaluator → Option Expr → Exec EmuVal
unfolding value
value? ev none = lift undefined
value? ev (some e) = value ev e

unfoldable pub size_value : Host → Evaluator → ℕ → Exec EmuVal
unfolding value
size_value h ev d = value ev (h.size_expr d)

-- What is done for a pointer type, and for the other types.
unfoldable pub if_pointer : {A : Type 0} → QualType → (QualType → Exec A) → Exec A → Exec A
if_pointer (pointer t) k m = k t
if_pointer _ k m = m

-- The block of a mem_ptr in an EmuPtr.
abbrev pub target_of : Option ℕ → Target
target_of none = nullptr
target_of (some i) = block i

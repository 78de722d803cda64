-- ===== src/Tests/Programs.antt =====
-- Small programs, run by the model, and the theorems about runs at these programs.
use ctutor.Base.{ℕ, ◌<◌, ◌≡◌, refl, Option, none, some, List, [], ◌∷◌, true, arith}
use ctutor.Outcome.{Outcome, ok, undefined}
use ctutor.Types.EmuVal
use ctutor.Types.EmuVal.{EmuVal}
use ctutor.Mem.Block.{Block}
use ctutor.Mem.Block.Invariant.{IsValid, limit, initial-IsValid}
use ctutor.Mem.Stack.Scope.{positions, Agrees}
use ctutor.Eval.Evaluator.{Completion, breaks}
use ctutor.Eval.Run.{evaluator}
use ctutor.Program.Runs.{interpret-IsValid}
use ctutor.Machine.ApInt.{sample_ops}
use ctutor.Types.QualType.{QualType, Kind, builtin, function}
use ctutor.Types.EmuNum.{EmuNum}
use ctutor.Ast.{
  Expr, integer_literal, decl_ref, cast, binary, BinaryOp, CastKind, Stmt, Stmts, compound,
  decl_stmt, return_stmt, expr, Decl, FunctionDecl, TopDecl,
}
use ctutor.Exec.{State, Host, Exec}
use ctutor.Program.{interpret, start}

abbrev pub test_host : Host
test_host = record {
  ops = sample_ops;
  fill = λ _. 7;
  object_bytes = λ _. [];
  size_expr = λ _. Expr.other;
}

abbrev pub int_t : QualType
int_t = builtin Kind.int

abbrev pub lit : ℕ → Expr
lit n = integer_literal (sample_ops.make 32 n true)

abbrev x_value : Expr
x_value = cast CastKind.lvalue_to_rvalue none (decl_ref "x" int_t) int_t

-- int x = 40; x += 2; return x;
abbrev pub body : Stmt
body = compound (
    Stmts.cons (decl_stmt (Decl.variable "x" int_t (some (lit 40)) ∷ [])) (
      Stmts.cons (expr (binary BinaryOp.add_assign (decl_ref "x" int_t) (lit 2)))
        (Stmts.cons (return_stmt (some x_value)) Stmts.nil)))

abbrev pub main_decl : FunctionDecl
main_decl = record {
  name = "main";
  type = function 0;
  return_type = int_t;
  params = [];
  body = some body;
  external = true;
}

abbrev exit_value : Outcome (Option EmuNum × State) → Option ℕ
exit_value (ok (some n, s)) = some n.val.bits
exit_value _ = none

-- int main() { int x = 40; x += 2; return x; }
abbrev pub program : List (List TopDecl)
program = (TopDecl.function main_decl ∷ []) ∷ []

abbrev pub state_of : {A : Type 0} → Outcome (A × State) → State
state_of (ok (a, s)) = s
state_of _ = start

abbrev pub value_of_run : {A : Type 0} → A → Outcome (A × State) → A
value_of_run d (ok (a, s)) = a
value_of_run d _ = d

-- The states behind the program, and behind the statement alone.
abbrev end_state : State
end_state = state_of (interpret test_host 12 program start)

abbrev exit_num : Option EmuNum
exit_num = value_of_run none (interpret test_host 12 program start)

abbrev after_body : State
after_body = state_of ((evaluator test_host 9).stmt body start)

abbrev body_value : Completion
body_value = value_of_run breaks ((evaluator test_host 9).stmt body start)

-- The statement again, in the state that it left.
abbrev after_again : State
after_again = state_of ((evaluator test_host 9).stmt body after_body)

abbrev again_value : Completion
again_value = value_of_run breaks ((evaluator test_host 9).stmt body after_body)

-- What the model computes.
runs :
    (interpret test_host 12 program start ≡ ok (exit_num, end_state))
    × ((evaluator test_host 9).stmt body start ≡ ok (body_value, after_body))
    × (3 < limit after_body.memory)
    × ((b : Block) → after_body.memory.blocks 3 ≡ some b → b.bytes ≡ none)
    × ((evaluator test_host 9).stmt body after_body ≡ ok (again_value, after_again))
unfolding ctutor.Exec.pure ctutor.Exec.lift ctutor.Exec.push_frame ctutor.Exec.pop_frame
    ctutor.Exec.in_frame ctutor.Exec.in_source ctutor.Exec.declare ctutor.Exec.set_source
    ctutor.Exec.◌>>=◌ ctutor.Exec.Blocks.block_at ctutor.Exec.Blocks.bytes_at
    ctutor.Exec.Blocks.set_memtype ctutor.Exec.Blocks.alloc_with ctutor.Exec.Blocks.write
    ctutor.Machine.Bytes.le_bytes ctutor.Machine.Bytes.le_value ctutor.Machine.Bytes.read
    ctutor.Mem.Block.new_block_id ctutor.Mem.Block.new_block ctutor.Mem.Block.tagged
    ctutor.Mem.Block.store ctutor.Mem.Block.write_block ctutor.Mem.Block.write
    ctutor.Mem.Block.new_block_with ctutor.Mem.Block.free ctutor.Mem.Stack.at
    ctutor.Mem.Stack.add_stack_var ctutor.Mem.Stack.add_stack_frame ctutor.Mem.Stack.popped
    ctutor.Mem.Stack.free_block ctutor.Mem.Stack.pop_vars ctutor.Mem.Stack.pop_stack_frame
    ctutor.Mem.Stack.var_at ctutor.Mem.Stack.find_stack_var ctutor.Mem.Tag.new_tag
    ctutor.Mem.TagUpdate.insert_tag ctutor.Mem.TagUpdate.set_next ctutor.Mem.TagUpdate.deal_with_end
    ctutor.Mem.TagUpdate.update_tag_write ctutor.Program.start ctutor.Program.interpret
    ctutor.Rbtree.find_below ctutor.Rbtree.insert ctutor.Rbtree.Heap.empty
    ctutor.Rbtree.Heap.with_col ctutor.Rbtree.Heap.modify ctutor.Rbtree.Heap.set_head
    ctutor.Rbtree.Heap.alloc ctutor.Types.EmuNum.decode ctutor.Types.EmuNum.of_memory
    ctutor.Types.EmuNum.dump_val ctutor.Types.EmuNum.guarded ctutor.Types.EmuNum.binary
    ctutor.Types.EmuNum.add ctutor.Types.EmuNum.sub ctutor.Types.EmuVal.func_of_id
    ctutor.Types.EmuVal.func_status ctutor.Types.EmuVal.sum_sizes ctutor.Types.EmuVal.dump_repr
    ctutor.Types.EmuVal.cast_to ctutor.Types.EmuVal.cast_members
    ctutor.Types.NumType.bits_in_num_type ctutor.Types.NumType.bytes_in_num_type
runs = (refl, refl, omega arith, λ b e. cc, refl)

program_ran : interpret test_host 12 program start ≡ ok (exit_num, end_state)
program_ran = runs.0

pub start-IsValid : IsValid start.memory
unfolding start
start-IsValid = initial-IsValid

pub start-Agrees : Agrees start.scopes
unfolding start positions
start-Agrees name = refl

interpret-IsValid_example : IsValid end_state.memory × Agrees end_state.scopes
interpret-IsValid_example =
    interpret-IsValid test_host 12 program start end_state exit_num start-IsValid start-Agrees
      program_ran

-- The block of x, with the first id, is freed with the frame of the block.

abbrev no_sizes : ℕ → Exec EmuVal
no_sizes d = λ s. undefined

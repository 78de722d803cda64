-- ===== src/Tests/Frames.antt =====
-- The theorems on what expressions and statements leave of the state, at parts of a small program.
use ctutor.Base.{◌≡◌, refl, some, [], ◌∷◌}
use ctutor.Outcome.{ok}
use ctutor.Ast.{
  Expr, decl_ref, binary, BinaryOp, Stmt, Stmts, compound, decl_stmt, return_stmt, expr, Decl,
}
use ctutor.Mem.Block.Invariant.{IsValid}
use ctutor.Mem.Stack.{Frame, Lvalue, find_stack_var}
use ctutor.Mem.Stack.Scope.{Agrees, add_stack_frame-Agrees}
use ctutor.Exec.{State, push_frame}
use ctutor.Exec.Frames.{onto}
use ctutor.Eval.Evaluator.{Completion, breaks}
use ctutor.Eval.Statements.{exec_decl}
use ctutor.Eval.Typed.{exec_decl-type}
use ctutor.Types.EmuVal.Typed.{stored_type}
use ctutor.Eval.Run.{evaluator}
use ctutor.Eval.Frames.{stmt-frames}
use ctutor.Program.{start}
use ctutor.Tests.Programs.{
  test_host, int_t, lit, state_of, value_of_run, start-IsValid, start-Agrees,
}

-- int x = 40;
abbrev declaration : Stmt
declaration = decl_stmt (Decl.variable "x" int_t (some (lit 40)) ∷ [])

-- x += 2
abbrev addition : Expr
addition = binary BinaryOp.add_assign (decl_ref "x" int_t) (lit 2)

-- { x += 2; int x = 40; return 1; }
abbrev inner : Stmts
inner =
    Stmts.cons (expr addition)
      (Stmts.cons declaration (Stmts.cons (return_stmt (some (lit 1))) Stmts.nil))

abbrev framed : State
framed = state_of (push_frame start)

abbrev declared : State
declared = state_of ((evaluator test_host 6).stmt declaration framed)

abbrev x_decl : Decl
x_decl = Decl.variable "x" int_t (some (lit 40))

abbrev declared_x : State
declared_x = state_of (exec_decl test_host (evaluator test_host 5) x_decl framed)

abbrev decl_end : Completion
decl_end = value_of_run breaks ((evaluator test_host 6).stmt declaration framed)

abbrev added : State
added = state_of ((evaluator test_host 6).rexpr addition declared)

abbrev sum : Completion
sum = value_of_run breaks ((evaluator test_host 6).rexpr addition declared)

abbrev left : State
left = state_of ((evaluator test_host 9).stmt (compound inner) declared)

abbrev inner_end : Completion
inner_end = value_of_run breaks ((evaluator test_host 9).stmt (compound inner) declared)

-- What the model computes.
computed :
    ((evaluator test_host 6).stmt declaration framed ≡ ok (decl_end, declared))
    × ((evaluator test_host 6).rexpr addition declared ≡ ok (sum, added))
    × ((evaluator test_host 9).stmt (compound inner) declared ≡ ok (inner_end, left))
    × (exec_decl test_host (evaluator test_host 5) x_decl framed ≡ ok (tt, declared_x))
unfolding ctutor.Exec.pure ctutor.Exec.lift ctutor.Exec.push_frame ctutor.Exec.pop_frame
    ctutor.Exec.in_frame ctutor.Exec.declare ctutor.Exec.◌>>=◌ ctutor.Exec.Blocks.block_at
    ctutor.Exec.Blocks.bytes_at ctutor.Exec.Blocks.alloc_with ctutor.Exec.Blocks.write
    ctutor.Machine.Bytes.le_bytes ctutor.Machine.Bytes.le_value ctutor.Machine.Bytes.read
    ctutor.Mem.Block.new_block_id ctutor.Mem.Block.new_block ctutor.Mem.Block.tagged
    ctutor.Mem.Block.store ctutor.Mem.Block.write_block ctutor.Mem.Block.write
    ctutor.Mem.Block.new_block_with ctutor.Mem.Block.free ctutor.Mem.Stack.at
    ctutor.Mem.Stack.add_stack_var ctutor.Mem.Stack.add_stack_frame ctutor.Mem.Stack.popped
    ctutor.Mem.Stack.free_block ctutor.Mem.Stack.pop_vars ctutor.Mem.Stack.pop_stack_frame
    ctutor.Mem.Stack.var_at ctutor.Mem.Stack.find_stack_var ctutor.Mem.Tag.new_tag
    ctutor.Mem.TagUpdate.insert_tag ctutor.Mem.TagUpdate.set_next ctutor.Mem.TagUpdate.deal_with_end
    ctutor.Mem.TagUpdate.update_tag_write ctutor.Program.start ctutor.Program.interpret
    ctutor.Rbtree.find_below ctutor.Rbtree.insert ctutor.Rbtree.Heap.empty
    ctutor.Rbtree.Heap.with_col ctutor.Rbtree.Heap.modify ctutor.Rbtree.Heap.set_head
    ctutor.Rbtree.Heap.alloc ctutor.Types.EmuNum.decode ctutor.Types.EmuNum.of_memory
    ctutor.Types.EmuNum.dump_val ctutor.Types.EmuNum.guarded ctutor.Types.EmuNum.add
    ctutor.Types.EmuVal.sum_sizes ctutor.Types.EmuVal.dump_repr ctutor.Types.EmuVal.cast_to
computed = (refl, refl, refl, refl)

framed-Agrees : Agrees framed.scopes
unfolding push_frame
framed-Agrees = add_stack_frame-Agrees start.scopes start-Agrees

framed-IsValid : IsValid framed.memory
unfolding push_frame
framed-IsValid = start-IsValid

stmt-frames_example :
    (declared ≡ record framed { memory = declared.memory; scopes = declared.scopes })
    × (new : Frame) × (declared.scopes.stack_vars ≡ onto new framed.scopes.stack_vars)
stmt-frames_example = stmt-frames test_host 6 declaration framed declared decl_end computed.0

exec_decl-type_example :
    (l : Lvalue) × (find_stack_var "x" declared_x.scopes ≡ ok (some l))
    × (stored_type l.type ≡ stored_type int_t)
exec_decl-type_example =
    exec_decl-type test_host 5 "x" int_t (some (lit 40)) framed declared_x framed-IsValid
      framed-Agrees computed.3

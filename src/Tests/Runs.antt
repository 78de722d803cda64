-- ===== src/Tests/Runs.antt =====
-- The theorems on main, loops, comparisons and assignments at small programs.
use ctutor.Base.{◌≤◌, ◌≡◌, ◌≢◌, refl, Option, none, some, List, [], ◌∷◌, false, true, arith}
use ctutor.Outcome.{ok, undefined}
use ctutor.Machine.ApInt.{sample_ops, sample_laws, signed_key}
use ctutor.Types.Enums.{NumType, Status, stack, emu_type_int_id}
use ctutor.Types.EmuNum
use ctutor.Types.EmuNum.{EmuNum}
use ctutor.Types.EmuVal
use ctutor.Types.EmuVal.{EmuVal, num}
use ctutor.Types.NumType.{bits_in_num_type, id_from_num_type}
use ctutor.Types.EmuNum.Repr.{Fits}
use ctutor.Mem.Block.{Block, initial, new_block}
use ctutor.Mem.Block.Invariant.{IsValid, initial-IsValid, new_block-IsValid}
use ctutor.Rbtree.Heap.{empty}
use ctutor.Exec.Blocks.{alloc, write}
use ctutor.Cast.FromLvalue.{from_lvalue}
use ctutor.Cast.Assigned.{from_lvalue-write}
use ctutor.Ast.{Expr, BinaryOp, FunctionDecl, TopDecl}
use ctutor.Cast.Load.{is_freed}
use ctutor.Exec.{State, Host, Exec, pure, push_frame, pop_frame}
use ctutor.Eval.Evaluator.{returned}
use ctutor.Eval.Statements.{test}
use ctutor.Eval.Operators.{compare_ints, yes_or_no}
use ctutor.Eval.Operators.Compare.{ordered, compare_ints-ordered}
use ctutor.Eval.Constants.{
  Constant, literal, negative, grouped, minus, times, int_of, tree, meaning, Small, depth,
}
use ctutor.Eval.Constants.Evaluation.{constant-evaluates}
use ctutor.Eval.Run.{evaluator}
use ctutor.Program.{start, store_all, initialize_files, find_main, run_program}
use ctutor.Program.Main.{run_program-with_params}
use ctutor.Tests.Programs.{test_host, int_t, lit, main_decl, program, state_of, value_of_run}

-- 2 ^ 32 - 5 and 3 as ints: -5 < 3.
compare_ints-ordered_example :
    compare_ints sample_ops BinaryOp.lt
      (sample_ops.make 32 4294967291 true)
      (sample_ops.make 32 3 true)
    ≡ yes_or_no (
        ordered BinaryOp.lt
          (signed_key (sample_ops.make 32 4294967291 true))
          (signed_key (sample_ops.make 32 3 true)))
compare_ints-ordered_example =
    compare_ints-ordered sample_ops BinaryOp.lt (sample_ops.make 32 4294967291 true)
      (sample_ops.make 32 3 true) sample_laws refl refl refl (omega arith) (omega arith)

-- for (;1;) break; with an empty initializer
abbrev one : Option Expr
one = some (lit 1)

abbrev framed : State
framed = state_of (push_frame start)

abbrev tested : State
tested = state_of (test test_host (evaluator test_host 3) one framed)

abbrev popped : State
popped = state_of (pop_frame tested)

-- The state in which RunProgram is called.
abbrev ready : List (List TopDecl) → State
ready files = state_of (
    initialize_files test_host (evaluator test_host 12) files 0
      (state_of (store_all test_host files 0 start)))

abbrev exit_state : State
exit_state = state_of (run_program test_host (evaluator test_host 12) (ready program))

abbrev exit_value : EmuNum
exit_value =
    value_of_run (EmuNum.of_status sample_ops NumType.int Status.undefined)
      (run_program test_host (evaluator test_host 12) (ready program))

-- int main(int argc) { ... }
abbrev with_argc : FunctionDecl
with_argc = record main_decl { params = ("argc", int_t) ∷ [] }

abbrev argc_program : List (List TopDecl)
argc_program = (TopDecl.function with_argc ∷ []) ∷ []

abbrev found_state : State
found_state = state_of (find_main (ready argc_program))

-- What the model computes.
computed :
    (test test_host (evaluator test_host 3) one framed ≡ ok (false, tested))
    × (pop_frame tested ≡ ok (tt, popped))
    × (run_program test_host (evaluator test_host 12) (ready program) ≡ ok (exit_value, exit_state))
    × (find_main (ready argc_program) ≡ ok (with_argc, found_state))
unfolding ctutor.Exec.pure ctutor.Exec.lift ctutor.Exec.push_frame ctutor.Exec.pop_frame
    ctutor.Exec.in_frame ctutor.Exec.in_source ctutor.Exec.declare ctutor.Exec.set_source
    ctutor.Exec.◌>>=◌ ctutor.Exec.Blocks.block_at ctutor.Exec.Blocks.bytes_at
    ctutor.Exec.Blocks.set_memtype ctutor.Exec.Blocks.alloc_with ctutor.Exec.Blocks.write
    ctutor.Machine.Bytes.le_bytes ctutor.Machine.Bytes.le_value ctutor.Machine.Bytes.read
    ctutor.Mem.Block.new_block_id ctutor.Mem.Block.new_block ctutor.Mem.Block.tagged
    ctutor.Mem.Block.store ctutor.Mem.Block.write_block ctutor.Mem.Block.write
    ctutor.Mem.Block.new_block_with ctutor.Mem.Block.free ctutor.Mem.Stack.at
    ctutor.Mem.Stack.add_stack_var ctutor.Mem.Stack.add_stack_frame ctutor.Mem.Stack.popped
    ctutor.Mem.Stack.free_block ctutor.Mem.Stack.pop_vars ctutor.Mem.Stack.pop_stack_frame
    ctutor.Mem.Stack.var_at ctutor.Mem.Stack.find_stack_var ctutor.Mem.Tag.new_tag
    ctutor.Mem.TagUpdate.insert_tag ctutor.Mem.TagUpdate.set_next ctutor.Mem.TagUpdate.deal_with_end
    ctutor.Mem.TagUpdate.update_tag_write ctutor.Program.start ctutor.Program.interpret
    ctutor.Rbtree.find_below ctutor.Rbtree.insert ctutor.Rbtree.Heap.empty
    ctutor.Rbtree.Heap.with_col ctutor.Rbtree.Heap.modify ctutor.Rbtree.Heap.set_head
    ctutor.Rbtree.Heap.alloc ctutor.Types.EmuNum.decode ctutor.Types.EmuNum.of_memory
    ctutor.Types.EmuNum.dump_val ctutor.Types.EmuNum.guarded ctutor.Types.EmuNum.add
    ctutor.Types.EmuVal.func_status ctutor.Types.EmuVal.sum_sizes ctutor.Types.EmuVal.dump_repr
    ctutor.Types.EmuVal.cast_members ctutor.Types.NumType.bytes_in_num_type
computed = (refl, refl, refl, refl)

was_found : find_main (ready argc_program) ≡ ok (with_argc, found_state)
was_found = computed.3

run_program-with_params_example :
    run_program test_host (evaluator test_host 12) (ready argc_program)
    ≢ ok (exit_value, exit_state)
run_program-with_params_example =
    run_program-with_params test_host (evaluator test_host 12) (ready argc_program) found_state
      with_argc was_found (λ e. cc) (exit_value, exit_state)

-- 42 in a new block of 8 bytes.
abbrev number : EmuNum
number = record {
  num_type = NumType.int;
  status = Status.defined;
  val = sample_ops.make 32 42 true;
  repr_type_id = emu_type_int_id;
}

abbrev allocated : State
allocated = state_of (alloc test_host stack 8 start)

abbrev assigned : State
assigned = state_of (write test_host (some 3) (num number) 0 allocated)

abbrev no_block : Block
no_block = record { id = 0; size = 0; memtype = stack; bytes = none; firsttag = 0; tags = empty }

abbrev new_one : Block
new_one = elim (allocated.memory.blocks 3) [ none ↦ no_block | some b ↦ b ]

was_allocated :
    (new_block test_host.fill stack 8 start.memory ≡ ok (3, allocated.memory))
    × (allocated.memory.blocks 3 ≡ some new_one)
    × (is_freed new_one.memtype ≡ false)
    × (write test_host (some 3) (num number) 0 allocated ≡ ok (tt, assigned))
unfolding ctutor.Exec.Blocks.bytes_at ctutor.Exec.Blocks.alloc ctutor.Exec.Blocks.write
    ctutor.Mem.Block.new_block_id ctutor.Mem.Block.new_block ctutor.Mem.Block.tagged
    ctutor.Mem.Block.store ctutor.Mem.Block.write_block ctutor.Mem.Block.write
    ctutor.Mem.TagUpdate.insert_tag ctutor.Mem.TagUpdate.set_next ctutor.Mem.TagUpdate.deal_with_end
    ctutor.Mem.TagUpdate.update_tag_write ctutor.Rbtree.find_below ctutor.Rbtree.insert
    ctutor.Rbtree.Heap.empty ctutor.Rbtree.Heap.modify ctutor.Rbtree.Heap.set_head
    ctutor.Rbtree.Heap.alloc ctutor.Types.EmuVal.sum_sizes ctutor.Types.EmuVal.dump_repr start
was_allocated = (refl, refl, refl, refl)

number-Fits : Fits number
unfolding bits_in_num_type
number-Fits = record { width = refl; range = omega arith }

allocated-IsValid : IsValid allocated.memory
unfolding start
allocated-IsValid =
    (new_block-IsValid test_host.fill stack 8 initial allocated.memory 3 initial-IsValid
      (omega arith) was_allocated.0).0

tagged_int : emu_type_int_id ≡ id_from_num_type NumType.int
unfolding id_from_num_type
tagged_int = refl

from_lvalue-write_example :
    from_lvalue test_host
      (λ d st. undefined)
      (record { block = some 3; type = int_t; offset = 0 })
      assigned
    ≡ ok (num number, assigned)
from_lvalue-write_example =
    from_lvalue-write test_host sample_laws 3 0 number allocated assigned new_one allocated-IsValid
      was_allocated.1 was_allocated.2 refl number-Fits refl tagged_int was_allocated.3
      (λ d st. undefined)

-- 7 * -(2 - 3)
abbrev seven : Constant
seven = times (literal 7) (negative (grouped (minus (literal 2) (literal 3))))

seven-Small : Small seven
unfolding Small
seven-Small = (omega arith, (omega arith, omega arith))

seven_deep : depth seven ≤ 9
unfolding depth
seven_deep = omega arith

seven_means : meaning seven ≡ 7
unfolding meaning
seven_means = refl

constant-evaluates_example :
    (evaluator test_host 9).rexpr (tree seven) start
    ≡ ok (returned (num (int_of (meaning seven))), start)
constant-evaluates_example =
    constant-evaluates test_host seven 9 start sample_laws seven-Small seven_deep

-- ===== src/Lib.antt =====
-- CTutor is an interpreter of C programs that watches memory: every value that it stores carries
-- a tag that says what it is, so that a read of anything else is noticed.
--
-- The parts, and where they are modelled:
--
-- * exit.cpp ends the interpreter: Outcome.antt. A call ends with a result, in an exit with its
--   message, in behaviour that C++ leaves undefined (a dangling read, a value never assigned, a
--   second delete), or without fuel, which is the model's own.
-- * enums.h, and the tables of types.h between num_type_t, the types of Clang, the widths and the
--   tags: Types/Enums.antt, Types/QualType.antt, Types/NumType.antt.
-- * The classes of types.h and types.cpp: EmuNum in Types/EmuNum.antt, EmuPtr in
--   Types/EmuPtr.antt, and the class EmuVal with its other subclasses in Types/EmuVal.antt. A
--   virtual function is a function on EmuVal with a clause for each subclass. A constructor from
--   memory is `of_memory` on the bytes from that address on, with `undefined` where they end too
--   early; dump_repr returns the bytes that it stores. The status STATUS_UNDEFINED is
--   Status.undefined and not the outcome `undefined`.
-- * rbtree.cpp and rbtree.h: Rbtree/Heap.antt has the nodes, as cells at addresses with reads and
--   writes through them, Rbtree.antt insert, findBelow and findAbove, Rbtree/Remove.antt remove and
--   balance_blacks, Rbtree/Single.antt the tree of one value. They follow the source statement for
--   statement. A field that the source leaves indeterminate is an option, and reading it is
--   undefined.
-- * mem.cpp and mem.h: the tags of a block (mem_tag, update_tag_write, deal_with_end) in
--   Mem/Tag.antt and Mem/TagUpdate.antt, over a tree of Rbtree; blocks, block ids and active_mem
--   in Mem/Block.antt; stack_vars and stack_var_map in Mem/Stack.antt, with the lookup of a name
--   from eval_lexpr of eval.cpp.
-- * Of cast.cpp, getSizeOf and zero_init are in Cast.antt, newarr in Cast/Load.antt, from_lvalue and
--   is_scalar_zero in Cast/FromLvalue.antt, with EmuStruct(lvalue) of types.cpp. One record, union,
--   array and pointer after another: a type is a tree, so the recursion of from_lvalue is
--   structural.
-- * The functions of external.cpp: External.antt.
-- * The walk of eval.cpp over a program: Ast.antt has a syntax tree with one constructor for each
--   construct that the code tells apart; Exec.antt the state, which the source keeps in globals,
--   and commands on it, with the operations of mem.cpp as commands in Exec/Blocks.antt;
--   Eval/Lvalues.antt eval_lexpr, Eval/Operators.antt, Eval/Casts.antt and Eval/Calls.antt
--   eval_rexpr, Eval/Statements.antt exec_decl and exec_stmt. Each construct is a function over a
--   record Evaluator of the three functions, and Eval/Run.antt ties them together. The result of
--   exec_stmt is a Completion: null, BREAK_POINTER or a value.
-- * The rest of eval.cpp: StoreFuncImpl, SetupVar and InitializeVar in Program/Globals.antt, with
--   new_fid of mem.cpp; RunProgram and the calls of them in main of main.cpp in Program.antt.
-- * main of main.cpp: Program/Driver.antt, up to the calls in Program.antt.
-- * The dump of debug.cpp: Debug/Dump.antt has debug_dump with its two variables,
--   Debug/Record.antt the parts of the record that it writes, Debug/Layout.antt the layout of a
--   block in it (Debug/Heap.antt), and Debug.antt the print functions of types.h and types.cpp.
--   What is written is a list of pieces, texts and numbers. The evaluator leaves the calls of
--   debug_dump out, since they leave its state as it is (Debug/Silent.antt).
-- * What is proved of all of these at once: Exec/Logic.antt is an interface, a relation of commands
--   with a rule for each way to build them; Cast/Obeys.antt and Eval/Obeys show by these rules that
--   the whole evaluator obeys every such logic. Exec/Refines.antt fills it with the relation of a
--   command to the one with more fuel and to an invariant, Exec/Frames.antt with what a command
--   leaves of the frames. Exec/Invariants.antt makes an invariant of a predicate on memories,
--   Exec/Gone.antt has two. Cast/Typed.antt and Eval/Typed.antt follow the types of values to
--   declared variables, Eval/Constants.antt evaluates constant expressions. Program/Refines.antt
--   goes on to the set-up and the run of a program.
--
-- A write of a value into a block stores what dump_repr of Types gives, and updates the tags; a
-- pointer names a block by its id, and is stored as a tag, that id and an offset. A frame that is
-- popped frees the blocks of its variables. A declaration makes a block on the stack for its
-- value and enters the name; a use of the name finds the block, and from_lvalue reads the value
-- back from the bytes. A call pushes a frame for its arguments, and malloc and free of
-- external.cpp make and delete blocks.
--
-- Numbers. A size_t or a 32-bit id is a natural number, and the code's wrap-around is written out
-- (`add_size`, `sub_size`, `mul_size` of Mem/Tag.antt at 64 bits, `% 2 ^ 32` for the ids). The
-- host is taken to have a size_t of 8 bytes, and to store tags, ids and offsets with their lowest
-- byte first; the value of a number is stored with its highest byte first, as the code does, and
-- the widths of the interpreted types are those of the table in types.h.
--
-- Parameters. llvm::APInt is not part of the repository: its operations are the record ApIntOps of
-- Machine/ApInt.antt, and theorems that need its documented behaviour take the record ApIntLaws.
-- `sample_ops` and `sample_laws` fill both. Which blocks are alive, which ids are in active_mem and
-- which functions are known are arguments of the functions on values; Mem/Block.antt gives the
-- first two. `fill` gives the bytes that new memory happens to hold. QualType has of Clang's types
-- what the modelled code asks about them. The record Host of Exec.antt has the operations of APInt,
-- `fill`, the bytes of an APInt object, which a char literal reads, and the size expression of each
-- variable array type.
--
-- Fuel. The loops of the tree get one round more than nodes were ever allocated, which is enough on
-- a tree, where no path is longer; deal_with_end gets two more, as it takes a tag away in each
-- round. Each call of eval_lexpr, eval_rexpr and exec_stmt from another spends one unit of fuel, and
-- so does each round of a for loop, which the program may not end. More fuel never changes a result.
-- The walk of debug_dump over the tags of a block gets a round more than nodes were ever
-- allocated, which is enough on a list that ends, as it meets no node twice.
--
-- Not modelled: records without a definition; the objects
-- of the host behind pointers to EmuVal and their deletion, among them uses of deleted ones; a
-- va_list, which is a type without values here; ErrorCatcher of main.cpp, which writes Clang's
-- messages; help.cpp, which is text. The lines that the code writes to llvm::errs() while it runs
-- are left out. The library of the directory and Clang's loading of files are parameters of main,
-- and the orders of the unordered maps and the names of types parameters of debug_dump. The call
-- of debug_dump in an exit function is left out, as are its writes before a run ends in an exit
-- of its own.
pub mod Base
pub mod Outcome
pub mod Machine
pub mod Rbtree
pub mod Types
pub mod Mem
pub mod Cast
pub mod Ast
pub mod Exec
pub mod External
pub mod Debug
pub mod Eval
pub mod Program
pub mod Tests

-- ===== src/Exec.antt =====
-- The state of the interpreter, which eval.cpp, cast.cpp, external.cpp and mem.cpp keep in globals,
-- and commands on it. A command that ends the interpreter leaves no state.
pub mod Blocks
pub mod Logic
pub mod Refines
pub mod Frames
pub mod Steps
pub mod Invariants
pub mod Gone
use Prim.Native.String.{String}
use ctutor.Base.{
  ◌≡◌, refl, ℕ, ◌+◌, ◌%◌, ◌^◌, ◌≤◌, Bool, Option, none, some, List, length, splice, leb, ◌==◌,
  if◌then◌else◌,
}
use ctutor.Outcome
use ctutor.Outcome.{Outcome, ok, exits, undefined, out_of_fuel, Error, err_exit}
use ctutor.Machine.ApInt.{ApInt, ApIntOps}
use ctutor.Ast.{Expr, FunctionDecl}
use ctutor.Types.Enums.{MemType}
use ctutor.Types.EmuVal.{EmuVal}
use ctutor.Mem.Tag.{size_t}
use ctutor.Mem.Block
use ctutor.Mem.Block.{Block, Memory, deref, data_of, put}
use ctutor.Mem.Stack.{
  Lvalue, Scopes, add_stack_frame, add_stack_var, pop_stack_frame, find_stack_var,
}

-- global_functions, local_vars, global_vars and curr_source; the number of a source that is not
-- there, -1, is `none`.
pub record State : Type 0 where
  pub memory : Memory
  pub scopes : Scopes
  pub fid_counter : ℕ
  pub global_functions : ℕ → Option (ℕ × FunctionDecl)
  pub local_vars : ℕ → String → Option Lvalue
  pub global_vars : String → Option ℕ
  pub curr_source : ℕ
  pub main_source : Option ℕ
  pub static_init : Bool

-- What is not in the repository: llvm::APInt; what new memory happens to hold; the bytes of an
-- APInt object of the host; and the size expression of each variable array type.
pub record Host : Type 0 where
  pub ops : ApIntOps
  pub fill : ℕ → ℕ
  pub object_bytes : ApInt → List ℕ
  pub size_expr : ℕ → Expr

abbrev pub Exec : Type 0 → Type 0
Exec A = State → Outcome (A × State)

-- A result that leaves a state.
abbrev pub returned : {A : Type 0} → Outcome A → State → Outcome (A × State)
returned (ok a) s = ok (a, s)
returned (exits e) s = exits e
returned undefined s = undefined
returned out_of_fuel s = out_of_fuel

-- A result with the memory that it leaves.
abbrev pub with_memory : {A : Type 0} → Outcome (A × Memory) → State → Outcome (A × State)
with_memory (ok (a, m)) s = ok (a, record s { memory = m })
with_memory (exits e) s = exits e
with_memory undefined s = undefined
with_memory out_of_fuel s = out_of_fuel

abbrev pub with_scopes : Outcome Scopes → State → Outcome (Unit {0} × State)
with_scopes (ok c) s = ok (tt, record s { scopes = c })
with_scopes (exits e) s = exits e
with_scopes undefined s = undefined
with_scopes out_of_fuel s = out_of_fuel

abbrev pub with_both : Outcome (Scopes × Memory) → State → Outcome (Unit {0} × State)
with_both (ok (c, m)) s = ok (tt, record s { scopes = c; memory = m })
with_both (exits e) s = exits e
with_both undefined s = undefined
with_both out_of_fuel s = out_of_fuel

module _ {A : Type 0} where
  unfoldable pub pure : A → Exec A
  pure a s = ok (a, s)

  unfoldable pub raise : Error → Exec A
  raise e s = exits e

  unfoldable pub undefined_behaviour : Exec A
  undefined_behaviour s = undefined

  unfoldable pub no_fuel : Exec A
  no_fuel s = out_of_fuel

  -- A function of the state that may end the interpreter.
  unfoldable pub asks : (State → Outcome A) → Exec A
  asks f s = returned (f s) s

  unfoldable pub lift : Outcome A → Exec A
  lift r s = returned r s

  -- An operation of mem.cpp on the blocks.
  unfoldable pub on_memory : (Memory → Outcome (A × Memory)) → Exec A
  on_memory f s = with_memory (f s.memory) s

-- The operations of mem.cpp on the variables.
unfoldable pub push_frame : Exec (Unit {0})
push_frame s = ok (tt, record s { scopes = add_stack_frame s.scopes })

unfoldable pub pop_frame : Exec (Unit {0})
pop_frame s = with_both (pop_stack_frame s.scopes s.memory) s

unfoldable pub declare : String → Lvalue → Exec (Unit {0})
declare name loc s = with_scopes (add_stack_var name loc s.scopes) s

-- An assignment to a global that is neither memory nor a variable in scope.
unfoldable pub set_source : ℕ → Exec (Unit {0})
set_source n s = ok (tt, record s { curr_source = n })

module _ {A B : Type 0} where
  abbrev pub continue : Outcome (A × State) → (A → Exec B) → Outcome (B × State)
  continue (ok (a, s)) k = k a s
  continue (exits e) k = exits e
  continue undefined k = undefined
  continue out_of_fuel k = out_of_fuel

  infixl 5 ◌>>=◌ ◌>>◌
  unfoldable pub ◌>>=◌ : Exec A → (A → Exec B) → Exec B
  ◌>>=◌ m k s = continue (m s) k

  abbrev pub ◌>>◌ : Exec A → Exec B → Exec B
  m >> k = m >>= λ _. k

-- A command in a frame of its own.
unfoldable pub in_frame : {A : Type 0} → Exec A → Exec A
in_frame m = do push_frame; r ← m; pop_frame; pure r

-- A command with another source file as the current one.
unfoldable pub in_source : {A : Type 0} → ℕ → Exec A → Exec A
in_source source m = do
  save ← asks (λ s. ok s.curr_source)
  set_source source
  r ← m
  set_source save
  pure r

-- The rule of a block of commands, for commands that give results.
pub then_do :
    {A B : Type 0} (m : Exec A) (k : A → Exec B) (a : A) (s s' : State)
    → m s ≡ ok (a, s')
    → (m >>= k) s ≡ k a s'
unfolding ◌>>=◌
then_do m k a s s' e = rw e

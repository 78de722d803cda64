-- ===== src/Program.antt =====
-- InitializeVars, StoreFuncImpls and RunProgram of eval.cpp, and the part of main of main.cpp behind the
-- loading of the files.
pub mod Globals
pub mod Refines
pub mod Runs
pub mod Driver
pub mod Main
use Prim.Native.String.{String}
use text.Mathlib.Text.{◌==◌ as str_eq}
use ctutor.Base.{
  ℕ, suc, ◌+◌, ◌%◌, ◌^◌, Bool, true, false, ◌&&◌, Option, none, some, List, [], ◌∷◌, ◌==◌,
  if◌then◌else◌,
}
use ctutor.Outcome.{Outcome, ok, exits, undefined, err_exit}
use ctutor.Ast.{Expr, Stmt, FunctionDecl, VarDecl, TopDecl}
use ctutor.Types.Enums.{Status, invalid, static, extern, global}
use ctutor.Types.QualType.{QualType, Kind, builtin, is_pointer_type}
use ctutor.Types.EmuNum.{EmuNum}
use ctutor.Types.EmuVal
use ctutor.Types.EmuVal.{EmuVal, EmuFunc, func, func_of_id, func_of_memory}
use ctutor.Mem.Block.{initial}
use ctutor.Mem.Stack.{Lvalue}
use ctutor.Cast.{get_size_of}
use ctutor.Cast.Load.{as_num}
use ctutor.External.{num_external_functions}
use ctutor.Exec.{State, Host, Exec, pure, raise, asks, lift, push_frame, set_source, ◌>>=◌, ◌>>◌}
use ctutor.Exec.Blocks.{bytes_at, store_bytes, set_memtype, alloc, alloc_with, dump}
use ctutor.Eval.Evaluator.{Evaluator, Completion, value_of, value}
use ctutor.Eval.Lvalues.{get_nonstack_var}
use ctutor.Eval.Casts.{is_defined}
use ctutor.Program.Globals.{
  func_at, set_main, set_static_init, store_func_impl, setup_var, initialize_var,
}
use ctutor.Eval.Run.{evaluator}

abbrev pub is_int : QualType → Bool
is_int (builtin Kind.int) = true
is_int _ = false

-- The globals before main runs; `emu_malloc` and its like have the first numbers of functions.
unfoldable pub start : State
start = record {
  memory = initial;
  scopes = record { stack_vars = []; stack_var_map = λ _. none };
  fid_counter = num_external_functions;
  global_functions = λ _. none;
  local_vars = λ _ _. none;
  global_vars = λ _. none;
  curr_source = 0;
  main_source = none;
  static_init = false;
}

-- The definition of main, as RunProgram finds it.
unfoldable pub find_main : Exec FunctionDecl
unfolding func_at
find_main = do
  main ← asks (λ s. ok s.main_source)
  elim main [
    | none ↦ raise (err_exit "No main method declared")
    | some source ↦ do
      found ← asks (λ s. ok (s.local_vars source "main"))
      l ← lift (elim found [ none ↦ undefined | some l ↦ ok l ])
      f ← func_at l.block l.type
      defn ← asks (λ s. ok (s.global_functions f.func_id))
      elim defn [
        | none ↦ raise (err_exit "No main method defined\n")
        | some (_, d) ↦ do set_source source; pure d
      ]
  ]

-- The checks on the parameters of main. The third one is on a type that is not a pointer to be
-- asked what it points at.
unfoldable pub check_params : List (String × QualType) → Exec (Unit {0})
check_params [] = pure tt
check_params ((_, t) ∷ (_, u) ∷ []) =
    if is_int t
    then (if is_pointer_type u
        then raise (err_exit "Wrong type on second arg of main (should be char*)")
        else lift undefined)
    else raise (err_exit "Wrong type on first arg of main (should be int)")
check_params _ = raise (err_exit "Wrong number of arguments for main")

module _ (h : Host) where
  -- StoreFuncImpls
  unfoldable pub store_func_impls : List TopDecl → (source : ℕ) → Exec (Unit {0})
  unfolding store_func_impl
  store_func_impls [] source = pure tt
  store_func_impls (TopDecl.function d ∷ ds) source = do
    store_func_impl h d source
    store_func_impls ds source
  store_func_impls (_ ∷ ds) source = store_func_impls ds source

  unfoldable pub setup_vars : List TopDecl → (source : ℕ) → Exec (Unit {0})
  unfolding setup_var
  setup_vars [] source = pure tt
  setup_vars (d ∷ ds) source = do setup_var h d source; setup_vars ds source

  module _ (ev : Evaluator) where
    unfoldable pub initialize_all : List TopDecl → (source : ℕ) → Exec (Unit {0})
    unfolding initialize_var
    initialize_all [] source = pure tt
    initialize_all (TopDecl.variable v ∷ ds) source = do
      initialize_var h ev v source
      initialize_all ds source
    initialize_all (_ ∷ ds) source = initialize_all ds source

    -- InitializeVars
    unfoldable pub initialize_vars : List TopDecl → (source : ℕ) → Exec (Unit {0})
    unfolding setup_vars initialize_all
    initialize_vars ds source = do set_source source; setup_vars ds source; initialize_all ds source

    -- RunProgram; the result is what do_exit prints.
    unfoldable pub run_program : Exec EmuNum
    unfolding find_main check_params value_of as_num
    run_program = do
      main ← find_main
      if is_int main.return_type
          then (do
            push_frame
            check_params main.params
            body ← lift (elim main.body [ none ↦ undefined | some body ↦ ok body ])
            c ← ev.stmt body
            v ← lift (value_of c)
            n ← lift (EmuVal.cast_to h.ops v main.return_type)
            lift (as_num n))
          else raise (err_exit "Return type for main must be an int")

  unfoldable pub store_all : List (List TopDecl) → (source : ℕ) → Exec (Unit {0})
  unfolding store_func_impls
  store_all [] source = pure tt
  store_all (ds ∷ files) source = do store_func_impls ds source; store_all files (suc source)

  unfoldable pub initialize_files : Evaluator → List (List TopDecl) → (source : ℕ) → Exec (Unit {0})
  unfolding initialize_vars
  initialize_files ev [] source = pure tt
  initialize_files ev (ds ∷ files) source = do
    initialize_vars ev ds source
    initialize_files ev files (suc source)

  -- The files of a program, from main's call of StoreFuncImpls on. None: no main method was found.
  unfoldable pub run_main : Evaluator → List (List TopDecl) → Exec (Option EmuNum)
  unfolding store_all initialize_files run_program set_static_init
  run_main ev files = do
    store_all files 0
    main ← asks (λ s. ok s.main_source)
    elim main [
      | none ↦ pure none
      | some _ ↦ do
        set_static_init true
        initialize_files ev files 0
        set_static_init false
        n ← run_program ev
        pure (some n)
    ]

  unfoldable pub interpret : (fuel : ℕ) → List (List TopDecl) → Exec (Option EmuNum)
  unfolding run_main evaluator
  interpret fuel files = run_main (evaluator h fuel) files

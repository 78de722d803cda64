-- ===== src/Eval/Calls.antt =====
-- Calls of functions, and eval_rexpr over its cases.
use Prim.Native.String.{String}
use ctutor.Base.{
  ℕ, ◌-◌, ◌^◌, ◌||◌, Bool, true, false, Option, none, some, List, [], ◌∷◌, ltb, if◌then◌else◌,
}
use ctutor.Outcome.{Outcome, ok, undefined, cant_handle, err_exit}
use ctutor.Machine.ApInt.{ApInt}
use ctutor.Ast.{
  Expr, integer_literal, character_literal, unary, binary, cast, call, size_of, init_list,
  implicit_value_init, paren, decl_ref, Stmt, CastKind, Exprs, nil, cons,
}
use ctutor.Types.Enums.{NumType, MemType, extern, stack}
use ctutor.Types.QualType.{QualType, is_function_type}
use ctutor.Types.EmuNum
use ctutor.Types.EmuNum.{EmuNum, of_apint}
use ctutor.Types.EmuVal
use ctutor.Types.EmuVal.{EmuVal, EmuFunc, num, func, stackpos, stackpos_of}
use ctutor.Mem.Stack.{Position}
use ctutor.External.{
  as_ptr, pointee_block, is_lvalue_based_macro, call_external, num_external_functions,
}
use ctutor.Exec.{
  State, Host, Exec, pure, raise, asks, lift, declare, in_frame, in_source, ◌>>=◌, ◌>>◌,
}
use ctutor.Exec.Blocks.{block_at, alloc_with}
use ctutor.Eval.Evaluator.{Evaluator, Completion, returned, value, if_pointer, size_value}
use ctutor.Eval.Operators.{eval_unary, eval_binary}
use ctutor.Eval.Casts.{is_defined, load, eval_cast, eval_sizeof, eval_init_list, eval_zero}

-- The object behind a pointer to EmuVal that the code takes for an EmuFunc.
unfoldable pub as_func : EmuVal → Outcome EmuFunc
as_func (func f) = ok f
as_func _ = undefined

abbrev is_extern : MemType → Bool
is_extern extern = true
is_extern _ = false

-- The position of the newest variable of a name; the macros find no globals.
unfoldable pub find_position : String → State → Outcome (Option Position)
find_position name s = elim (s.scopes.stack_var_map name) [
  | none ↦ ok none
  | some [] ↦ undefined
  | some (p ∷ ps) ↦ ok (some p)
]

-- The loop that takes implicit casts off an argument.
unfoldable pub strip : Expr → Expr
strip (cast k none e t) = strip e
strip e = e

module _ (h : Host) where
  -- A stack block that holds `val`, as the newest variable of the frame.
  unfoldable pub bind : String → EmuVal → Exec (Unit {0})
  bind name val = do
    storage ← alloc_with h stack val
    declare name (record { block = some storage; type = EmuVal.obj_type val; offset = 0 })

  unfoldable pub macro_arg : Expr → Exec (Unit {0})
  unfolding find_position stackpos_of bind
  macro_arg (decl_ref name t) = do
    found ← asks (find_position name)
    elim found [
      | none ↦ raise (err_exit "Can't find appropriate lvalue for macro")
      | some (n, i) ↦ bind "" (stackpos (stackpos_of n i))
    ]
  macro_arg _ = raise (err_exit "Passed non-variable as lvalue to builtin macro")

  unfoldable pub macro_args : Exprs → Exec (Unit {0})
  unfolding macro_arg strip
  macro_args nil = pure tt
  macro_args (cons e es) = do macro_arg (strip e); macro_args es

  module _ (ev : Evaluator) where
    -- Arguments with their names; those behind the last parameter have none. Each one is evaluated
    -- in the frame of the call, which has the arguments before it.
    unfoldable pub pass_args : Exprs → List (String × QualType) → Exec (Unit {0})
    unfolding value bind
    pass_args nil params = pure tt
    pass_args (cons e es) [] = do v ← value ev e; bind "" v; pass_args es []
    pass_args (cons e es) ((name, t) ∷ params) = do v ← value ev e; bind name v; pass_args es params

    unfoldable pub call_builtin : ℕ → Exprs → Exec Completion
    unfolding macro_args pass_args is_lvalue_based_macro call_external size_value
    call_builtin fid args = do
      macro ← lift (is_lvalue_based_macro fid)
      if macro then macro_args args else pass_args args []
      v ← call_external h (size_value h ev) fid
      pure (returned v)

    unfoldable pub run_body : Option Stmt → Exec Completion
    run_body none = lift undefined
    run_body (some body) = ev.stmt body

    unfoldable pub call_defined : ℕ → Exprs → Exec Completion
    unfolding pass_args run_body
    call_defined fid args = do
      found ← asks (λ s. ok (s.global_functions fid))
      (source, defn) ← lift (elim found [ none ↦ undefined | some f ↦ ok f ])
      pass_args args defn.params
      in_source source (run_body defn.body)

    -- The function behind a function pointer.
    unfoldable pub callee_id : EmuVal → QualType → Exec ℕ
    unfolding as_ptr pointee_block as_func load
    callee_id f t = do
      p ← lift (as_ptr f)
      b ← lift (pointee_block p)
      blk ← block_at b
      if is_extern blk.memtype
          then raise (err_exit "Tried to call an unimplemented function")
          else do
            v ← load h ev (record { block = b; type = t; offset = p.offset })
            fn ← lift (as_func v)
            pure fn.func_id

    unfoldable pub call_function : ℕ → Exprs → Exec Completion
    unfolding call_builtin call_defined
    call_function fid args =
        in_frame
          (if ltb fid num_external_functions then call_builtin fid args else call_defined fid args)

    unfoldable pub eval_call : Expr → Exprs → Exec Completion
    unfolding value callee_id call_function if_pointer
    eval_call callee args = do
      f ← value ev callee
      if is_defined (EmuVal.status f)
          then if_pointer (EmuVal.obj_type f)
              (λ t.
                if is_function_type t
                then (callee_id f t >>= λ fid. call_function fid args)
                else raise (err_exit "Calling an invalid function"))
              (raise (err_exit "Calling an invalid function"))
          else raise (err_exit "Calling an invalid function")

    -- EMU_MIN_INT and EMU_MAX_INT
    unfoldable pub eval_integer : ApInt → Exec EmuVal
    unfolding of_apint
    eval_integer i =
        let least = h.ops.make 32 (2 ^ 64 - 2 ^ 31) true in
        let greatest = h.ops.make 32 (2 ^ 31 - 1) false in
        if h.ops.slt i least || h.ops.sgt i greatest
        then raise cant_handle
        else pure (num (of_apint h.ops NumType.int i))

    -- The constructor that `new APInt(…)` selects is the one from memory: it reads the APInt object.
    unfoldable pub eval_character : ℕ → Exec EmuVal
    eval_character i = if ltb 127 i then raise cant_handle else do
      n ← lift (EmuNum.of_memory h.ops NumType.char (h.object_bytes (h.ops.make 8 i true)))
      pure (num n)

    -- A value, as the functions return it.
    unfoldable pub returning : Exec EmuVal → Exec Completion
    returning m = m >>= λ v. pure (returned v)

    -- eval_rexpr
    unfoldable pub rexpr_step : Expr → Exec Completion
    unfolding returning eval_integer eval_character eval_unary eval_binary eval_cast eval_call
        eval_sizeof eval_init_list eval_zero
    rexpr_step (integer_literal i) = returning (eval_integer i)
    rexpr_step (character_literal i) = returning (eval_character i)
    rexpr_step (unary op e t) = returning (eval_unary h ev op e t)
    rexpr_step (binary op l r) = returning (eval_binary h ev op l r)
    rexpr_step (cast CastKind.no_op w e t) = ev.rexpr e
    rexpr_step (cast k w e t) = returning (eval_cast h ev k w e t)
    rexpr_step (call f args) = eval_call f args
    rexpr_step (size_of t) = returning (eval_sizeof h ev t)
    rexpr_step (init_list es t) = returning (eval_init_list h ev es t)
    rexpr_step (implicit_value_init t) = returning (eval_zero h ev t)
    rexpr_step (paren e) = ev.rexpr e
    rexpr_step _ = raise cant_handle

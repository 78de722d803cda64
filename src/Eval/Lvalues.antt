-- ===== src/Eval/Lvalues.antt =====
-- get_nonstack_var and eval_lexpr of eval.cpp.
use Prim.Native.String.{String}
use ctutor.Base.{ℕ, ◌+◌, ◌%◌, ◌^◌, none, some, List, [], ◌∷◌, ◌++◌, length, if◌then◌else◌}
use ctutor.Outcome.{Outcome, ok, undefined, cant_handle, err_exit}
use ctutor.Machine.Signed.{is_negative, mul_int}
use ctutor.Ast.{Expr, paren, decl_ref, array_subscript, string_literal}
use ctutor.Types.Enums.{static}
use ctutor.Types.QualType.{QualType, raw_type, is_integer_type}
use ctutor.Types.EmuVal
use ctutor.Types.EmuVal.{EmuVal}
use ctutor.Mem.Stack.{Lvalue, find_stack_var}
use ctutor.Cast.{get_size_of}
use ctutor.Cast.Load.{as_num}
use ctutor.External.{as_ptr, pointee_block}
use ctutor.Exec.{State, Host, Exec, pure, raise, asks, lift, ◌>>=◌, ◌>>◌}
use ctutor.Exec.Blocks.{alloc, store_bytes}
use ctutor.Eval.Evaluator.{Evaluator, value, if_pointer}

-- get_nonstack_var
unfoldable pub get_nonstack_var : String → State → Outcome Lvalue
get_nonstack_var name s = elim (s.local_vars s.curr_source name) [
  | some l ↦ ok l
  | none ↦ elim (s.global_vars name) [
    | none ↦ ok (record { block = none; type = raw_type; offset = 0 })
    | some source ↦ elim (s.local_vars source name) [ none ↦ undefined | some l ↦ ok l ]
  ]
]

-- A variable: the newest one of the name in scope, or else a global.
unfoldable pub find_var : String → Exec Lvalue
unfolding get_nonstack_var
find_var name = do
  found ← asks (λ s. find_stack_var name s.scopes)
  elim found [ some l ↦ pure l | none ↦ asks (get_nonstack_var name) ]

-- base[index], where the base points at objects of type `t`
unfoldable pub subscript : Host → EmuVal → EmuVal → QualType → Exec Lvalue
unfolding as_ptr pointee_block as_num
subscript h base index t = do
  p ← lift (as_ptr base)
  b ← lift (pointee_block p)
  i ← lift (as_num index)
  size ← lift (get_size_of t)
  bytes ← lift (mul_int 64 size (h.ops.sext i.val))
  let offset = (bytes + p.offset) % 2 ^ 64
  if is_negative 64 offset
      then raise (err_exit "Got pointer to invalid location")
      else pure (record { block = b; type = t; offset = offset })

-- A string literal gets a block of its own each time.
unfoldable pub string_block : Host → List ℕ → QualType → Exec Lvalue
string_block h bytes t = do
  b ← alloc h static (length bytes + 1)
  store_bytes (some b) 0 (bytes ++ 0 ∷ [])
  pure (record { block = some b; type = t; offset = 0 })

unfoldable pub eval_subscript : Host → Evaluator → (base index : Expr) → Exec Lvalue
unfolding value subscript if_pointer
eval_subscript h ev e i = do
  base ← value ev e
  index ← value ev i
  if_pointer (EmuVal.obj_type base)
      (λ t.
        if is_integer_type (EmuVal.obj_type index)
        then subscript h base index t
        else raise cant_handle)
      (raise cant_handle)

-- eval_lexpr
unfoldable pub lexpr_step : Host → Evaluator → Expr → Exec Lvalue
unfolding find_var eval_subscript string_block
lexpr_step h ev (decl_ref name t) = find_var name
lexpr_step h ev (array_subscript base index) = eval_subscript h ev base index
lexpr_step h ev (string_literal ascii bytes t) =
    if ascii then string_block h bytes t else raise (err_exit "Can't handle non-ascii strings")
lexpr_step h ev (paren e) = ev.lexpr e
lexpr_step h ev _ = raise cant_handle

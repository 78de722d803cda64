-- ===== src/Eval/Casts.antt =====
-- The casts, sizeof and the initializer lists of eval_rexpr.
use ctutor.Base.{ℕ, ◌+◌, ◌*◌, ◌%◌, ◌^◌, Bool, true, false, Option, none, some, if◌then◌else◌}
use ctutor.Outcome.{undefined, cant_handle, cant_cast, err_exit}
use ctutor.Ast.{Expr, decl_ref, CastKind, Exprs, nil, cons}
use ctutor.Types.Enums.{Status, defined, NumType, static}
use ctutor.Types.QualType.{
  QualType, Kind, builtin, pointer, structure, is_function_type, is_array_type, is_pointer_type,
}
use ctutor.Types.EmuNum.{of_apint}
use ctutor.Types.EmuPtr.{block, nullptr, of_mem_ptr}
use ctutor.Types.EmuVal
use ctutor.Types.EmuVal.{EmuVal, Members, num, ptr, func, struct_of}
use ctutor.Mem.Tag.{add_size, size_t}
use ctutor.Mem.Stack.{Lvalue}
use ctutor.Cast.{zero_init}
use ctutor.Cast.FromLvalue.{from_lvalue}
use ctutor.External.{as_ptr, pointee_block, get_external_func}
use ctutor.Exec.{Host, Exec, pure, raise, lift, ◌>>=◌, ◌>>◌}
use ctutor.Exec.Blocks.{block_at, alloc_with, write}
use ctutor.Eval.Evaluator.{Evaluator, value, size_value, target_of}

abbrev pub is_defined : Status → Bool
is_defined defined = true
is_defined _ = false

-- isSignedInteger, on a target whose plain char is signed
abbrev is_signed_kind : Kind → Bool
is_signed_kind Kind.char_s = true
is_signed_kind Kind.schar = true
is_signed_kind Kind.short = true
is_signed_kind Kind.int = true
is_signed_kind Kind.long = true
is_signed_kind Kind.longlong = true
is_signed_kind Kind.int128 = true
is_signed_kind _ = false

-- block->id of a pointer, or 0 for null
unfoldable pub segment_of : Option ℕ → Exec ℕ
segment_of none = pure 0
segment_of (some i) = do b ← block_at (some i); pure b.id

module _ (h : Host) (ev : Evaluator) where
  -- The value of a place, or a fresh value of a type.
  unfoldable pub load : Lvalue → Exec EmuVal
  unfolding from_lvalue size_value
  load l = from_lvalue h (size_value h ev) l

  unfoldable pub fresh : QualType → Exec EmuVal
  unfolding load
  fresh t = load (record { block = none; type = t; offset = 0 })

  unfoldable pub cast_value : Expr → QualType → Exec EmuVal
  unfolding value
  cast_value e t = do v ← value ev e; lift (EmuVal.cast_to h.ops v t)

  -- CK_FunctionToPointerDecay
  unfoldable pub decay_function : Expr → Exec EmuVal
  decay_function sub = do
    l ← ev.lexpr sub
    if is_function_type l.type
        then pure (ptr (of_mem_ptr (target_of l.block) l.offset (pointer l.type)))
        else raise cant_cast

  -- CK_ArrayToPointerDecay
  unfoldable pub decay_array : Expr → QualType → Exec EmuVal
  decay_array sub t = do l ← ev.lexpr sub; pure (ptr (of_mem_ptr (target_of l.block) l.offset t))

  -- CK_BuiltinFnToFnPtr
  unfoldable pub builtin_pointer : Expr → QualType → Exec EmuVal
  builtin_pointer (decl_ref name s) t = do
    f ← lift (get_external_func name s)
    b ← alloc_with h static (func f)
    pure (ptr (of_mem_ptr (block b) 0 t))
  builtin_pointer _ t = raise (err_exit "Don't know how to convert builtin function")

  -- The number that stands for a pointer, as a long long of either signedness.
  unfoldable pub integer_of_pointer : Option ℕ → (offset : ℕ) → QualType → Exec EmuVal
  unfolding segment_of
  integer_of_pointer b offset t = do
    segment ← segment_of b
    let bits = (segment * 2 ^ 32 + offset) % 2 ^ 64
    elim t [
      | builtin k ↦
          if is_signed_kind k
          then pure (num (of_apint h.ops NumType.longlong (h.ops.make 64 bits true)))
          else pure (num (of_apint h.ops NumType.ulonglong (h.ops.make 64 bits false)))
      | _ ↦ lift undefined
    ]

  -- CK_PointerToIntegral
  unfoldable pub pointer_to_integral : Expr → QualType → Exec EmuVal
  unfolding value as_ptr pointee_block integer_of_pointer
  pointer_to_integral sub t = do
    v ← value ev sub
    if is_pointer_type (EmuVal.obj_type v)
        then (do
          p ← lift (as_ptr v)
          if is_defined p.status
              then (do b ← lift (pointee_block p); integer_of_pointer b p.offset t)
              else raise cant_handle)
        else raise (err_exit "Expected pointer")

  abbrev type_written : Option QualType → QualType → QualType
  type_written none t = t
  type_written (some w) t = w

  -- The casts that make a value. CK_NoOp hands its operand on and is not among them.
  unfoldable pub eval_cast : CastKind → Option QualType → Expr → QualType → Exec EmuVal
  unfolding load cast_value decay_function decay_array builtin_pointer pointer_to_integral
  eval_cast CastKind.lvalue_to_rvalue w sub t = do l ← ev.lexpr sub; load l
  eval_cast CastKind.bit_cast w sub t = cast_value sub (type_written w t)
  eval_cast CastKind.integral_cast w sub t = cast_value sub t
  eval_cast CastKind.function_to_pointer w sub t = decay_function sub
  eval_cast CastKind.array_to_pointer w sub t = decay_array sub t
  eval_cast CastKind.builtin_fn w sub t = builtin_pointer sub t
  eval_cast CastKind.null_to_pointer w sub t = pure (ptr (of_mem_ptr nullptr 0 t))
  eval_cast CastKind.pointer_to_integral w sub t = pointer_to_integral sub t
  eval_cast _ w sub t = raise cant_cast

  -- sizeof, of a fresh value of the type
  unfoldable pub eval_sizeof : Option QualType → Exec EmuVal
  unfolding fresh of_apint
  eval_sizeof none = lift undefined
  eval_sizeof (some t) = do
    fake ← fresh t
    n ← lift (EmuVal.size fake)
    pure (num (of_apint h.ops NumType.ulong (h.ops.make 32 (n % size_t) false)))

  -- The loop of an array's initializer list.
  unfoldable pub init_elements : Exprs → Option ℕ → (loc : ℕ) → Exec (Unit {0})
  unfolding value
  init_elements nil b loc = pure tt
  init_elements (cons e es) b loc = do
    curr ← value ev e
    write h b curr loc
    n ← lift (EmuVal.size curr)
    init_elements es b (add_size loc n)

  unfoldable pub init_array : Exprs → QualType → Exec EmuVal
  unfolding fresh as_ptr pointee_block init_elements
  init_array es t = do
    array ← fresh t
    p ← lift (as_ptr array)
    if is_defined p.status
        then (do b ← lift (pointee_block p); init_elements es b 0; pure array)
        else raise cant_handle

  -- The loop of a structure's initializer list.
  unfoldable pub init_members : Exprs → Exec Members
  unfolding value
  init_members nil = pure EmuVal.nil
  init_members (cons e es) = do v ← value ev e; m ← init_members es; pure (EmuVal.cons v m)

  unfoldable pub init_struct : Exprs → QualType → Exec EmuVal
  unfolding init_members struct_of
  init_struct es t = do m ← init_members es; pure (struct_of defined t m)

  unfoldable pub eval_init_list : Exprs → QualType → Exec EmuVal
  unfolding init_array init_struct is_array_type
  eval_init_list es (structure d fs) = init_struct es (structure d fs)
  eval_init_list es t = if is_array_type t then init_array es t else raise cant_handle

  -- ImplicitValueInitExpr
  unfoldable pub eval_zero : QualType → Exec EmuVal
  unfolding zero_init
  eval_zero t = lift (zero_init h.ops t)

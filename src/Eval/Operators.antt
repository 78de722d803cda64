-- ===== src/Eval/Operators.antt =====
-- The operators of eval_rexpr.
pub mod Compare
use ctutor.Base.{
  ℕ, ◌+◌, ◌-◌, ◌%◌, ◌^◌, Bool, true, false, ◌||◌, not, ◌&&◌, Option, none, some, ltb, ◌==◌,
  if◌then◌else◌,
}
use ctutor.Outcome.{Outcome, ok, exits, undefined, cant_handle, cant_cast, bad_memread, err_exit}
use ctutor.Machine.ApInt.{ApInt, ApIntOps}
use ctutor.Machine.Signed.{mul_int, neg_int64, to_int32, from_int32}
use ctutor.Ast.{Expr, UnaryOp, BinaryOp}
use ctutor.Types.Enums.{NumType}
use ctutor.Types.QualType.{QualType, Kind, builtin, pointer, int_type, same_type, is_integer_type}
use ctutor.Types.EmuNum
use ctutor.Types.EmuNum.{EmuNum, of_apint, generic}
use ctutor.Types.EmuPtr.{EmuPtr, of_mem_ptr}
use ctutor.Types.EmuVal
use ctutor.Types.EmuVal.{EmuVal, num, ptr}
use ctutor.Mem.Stack.{Lvalue}
use ctutor.Cast.{get_size_of}
use ctutor.Cast.Load.{as_num}
use ctutor.External.{as_ptr, pointee_block}
use ctutor.Exec.{State, Host, Exec, pure, raise, lift, ◌>>=◌, ◌>>◌}
use ctutor.Exec.Blocks.{block_at, bytes_at, write}
use ctutor.Eval.Evaluator.{Evaluator, Completion, returned, value, if_pointer, target_of}

abbrev pub yes_or_no : Bool → ℕ
yes_or_no true = 1
yes_or_no false = 0

-- The comparison of two ints: 1 or 0. An operator that is none of the six is not compared.
unfoldable pub compare_ints : ApIntOps → BinaryOp → (lval rval : ApInt) → ℕ
compare_ints o BinaryOp.lt l r =
    if o.is_negative l
    then yes_or_no (o.slt l r)
    else if o.is_negative r
    then 0
    else yes_or_no (o.ult l r)
compare_ints o BinaryOp.gt l r =
    if o.is_negative l
    then yes_or_no (o.sgt l r)
    else if o.is_negative r
    then 1
    else yes_or_no (o.ugt l r)
compare_ints o BinaryOp.le l r =
    if o.is_negative l
    then yes_or_no (o.sle l r)
    else if o.is_negative r
    then 0
    else yes_or_no (o.ule l r)
compare_ints o BinaryOp.ge l r =
    if o.is_negative l
    then yes_or_no (o.sge l r)
    else if o.is_negative r
    then 1
    else yes_or_no (o.uge l r)
compare_ints o BinaryOp.eq l r =
    if o.is_negative l
    then yes_or_no (o.eq l r)
    else if o.is_negative r
    then 0
    else yes_or_no (o.eq l r)
compare_ints o BinaryOp.ne l r =
    if o.is_negative l
    then yes_or_no (o.ne l r)
    else if o.is_negative r
    then 1
    else yes_or_no (o.ne l r)
compare_ints o _ l r = 0

abbrev both_ints : QualType → QualType → Bool
both_ints a b = same_type a int_type && same_type b int_type

-- isa of a comparison operator
abbrev pub is_comparison : BinaryOp → Bool
is_comparison BinaryOp.lt = true
is_comparison BinaryOp.gt = true
is_comparison BinaryOp.le = true
is_comparison BinaryOp.ge = true
is_comparison BinaryOp.eq = true
is_comparison BinaryOp.ne = true
is_comparison _ = false

-- The operation that an arithmetic operator makes on numbers.
unfoldable pub arithmetic : ApIntOps → BinaryOp → EmuNum → EmuNum → Outcome EmuNum
unfolding generic
arithmetic o BinaryOp.add a b = generic (EmuNum.add o) a b
arithmetic o BinaryOp.sub a b = generic (EmuNum.sub o) a b
arithmetic o BinaryOp.mul a b = generic (EmuNum.mul o) a b
arithmetic o BinaryOp.div a b = generic (EmuNum.div o) a b
arithmetic o BinaryOp.bit_or a b = generic (EmuNum.bitwise_or o) a b
arithmetic o BinaryOp.bit_and a b = generic (EmuNum.bitwise_and o) a b
arithmetic o _ a b = exits cant_cast

module _ (h : Host) where
  unfoldable pub compare_values : BinaryOp → (left right : EmuVal) → Exec EmuVal
  unfolding compare_ints of_apint as_num
  compare_values op left right =
      if both_ints (EmuVal.obj_type left) (EmuVal.obj_type right)
      then (do
        l ← lift (as_num left)
        r ← lift (as_num right)
        let ans = compare_ints h.ops op l.val r.val
        pure (num (of_apint h.ops NumType.int (h.ops.make 32 ans true))))
      else raise cant_handle

  -- += and -= behind the tests on the types
  unfoldable pub compound_assign : (minus : Bool) → Lvalue → (right : EmuVal) → Exec EmuVal
  unfolding as_num
  compound_assign minus left right = do
    b ← block_at left.block
    if ltb b.size 4 || ltb (b.size - 4) left.offset then raise bad_memread else do
      bytes ← bytes_at left.block left.offset
      value ← lift (EmuNum.of_memory h.ops NumType.int bytes)
      r ← lift (as_num right)
      let result = if minus then EmuNum.sub h.ops value r else EmuNum.add h.ops value r
      write h left.block (num result) left.offset
      pure (num result)

  -- The int by which a pointer moves.
  unfoldable pub pointer_steps : BinaryOp → EmuNum → Outcome ℕ
  pointer_steps BinaryOp.add n = ok (to_int32 (h.ops.sext n.val))
  pointer_steps BinaryOp.sub n = elim (neg_int64 (h.ops.sext n.val)) [
    | ok m ↦ ok (to_int32 m)
    | exits e ↦ exits e
    | undefined ↦ undefined
    | Outcome.out_of_fuel ↦ Outcome.out_of_fuel
  ]
  pointer_steps _ n = exits (err_exit "Undefined op on pointer")

  -- An integer added to a pointer to objects of type `t`, or subtracted from it.
  unfoldable pub move_pointer : BinaryOp → (left : EmuVal) → QualType → EmuNum → Exec EmuVal
  unfolding pointer_steps as_ptr pointee_block
  move_pointer op left t r = do
    n ← lift (pointer_steps op r)
    s ← lift (get_size_of t)
    p ← lift (as_ptr left)
    b ← lift (pointee_block p)
    bytes ← lift (mul_int 32 n (to_int32 s))
    pure (ptr (of_mem_ptr (target_of b) ((p.offset + from_int32 bytes) % 2 ^ 64) (pointer t)))

  unfoldable pub numeric : BinaryOp → (left : EmuVal) → EmuNum → Exec EmuVal
  unfolding arithmetic as_num
  numeric op left r = do l ← lift (as_num left); n ← lift (arithmetic h.ops op l r); pure (num n)

  -- + - * / & | on values
  unfoldable pub operate : BinaryOp → (left right : EmuVal) → Exec EmuVal
  unfolding move_pointer numeric as_num if_pointer
  operate op left right =
      if not (is_integer_type (EmuVal.obj_type right)) then raise cant_cast else do
        r ← lift (as_num right)
        if_pointer (EmuVal.obj_type left) (λ t. move_pointer op left t r)
            (if is_integer_type (EmuVal.obj_type left) then numeric op left r else raise cant_cast)

  module _ (ev : Evaluator) where
    unfoldable pub eval_unary : UnaryOp → Expr → QualType → Exec EmuVal
    unfolding value as_num
    eval_unary UnaryOp.addr_of sub t = do
      l ← ev.lexpr sub
      pure (ptr (of_mem_ptr (target_of l.block) l.offset t))
    eval_unary UnaryOp.other sub t = raise cant_handle
    eval_unary op sub t = do
      arg ← value ev sub
      if not (is_integer_type (EmuVal.obj_type arg)) then raise cant_cast else do
        n ← lift (as_num arg)
        elim op [
          | UnaryOp.lnot ↦ pure (num (EmuNum.lnot h.ops n))
          | _ ↦ pure (num (EmuNum.neg h.ops n))
        ]

    unfoldable pub eval_assign : Expr → (right : EmuVal) → Exec EmuVal
    eval_assign lhs right = do
      left ← ev.lexpr lhs
      ans ← lift (EmuVal.cast_to h.ops right left.type)
      write h left.block ans left.offset
      pure ans

    unfoldable pub eval_compound : (minus : Bool) → Expr → (right : EmuVal) → Exec EmuVal
    unfolding compound_assign
    eval_compound minus lhs right = do
      left ← ev.lexpr lhs
      if both_ints left.type (EmuVal.obj_type right)
          then compound_assign minus left right
          else raise cant_handle

    -- The part of the case of BinaryOperator behind the evaluation of the right operand.
    unfoldable pub eval_operator : BinaryOp → Expr → (right : EmuVal) → Exec EmuVal
    unfolding value eval_assign eval_compound compare_values operate
    eval_operator BinaryOp.assign lhs right = eval_assign lhs right
    eval_operator BinaryOp.add_assign lhs right = eval_compound false lhs right
    eval_operator BinaryOp.sub_assign lhs right = eval_compound true lhs right
    eval_operator BinaryOp.other lhs right = raise cant_handle
    eval_operator op lhs right = do
      left ← value ev lhs
      if is_comparison op then compare_values op left right else operate op left right

    unfoldable pub eval_binary : BinaryOp → (lhs rhs : Expr) → Exec EmuVal
    unfolding value eval_operator
    eval_binary op lhs rhs = do right ← value ev rhs; eval_operator op lhs right

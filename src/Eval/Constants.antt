-- ===== src/Eval/Constants.antt =====
-- Constant expressions on ints: literals, parentheses, unary minus, sums, differences and products.
pub mod Steps
pub mod Evaluation
use ctutor.Base.{
  ℕ, zero, suc, ◌+◌, ◌-◌, ◌*◌, ◌%◌, ◌^◌, ◌≤◌, ◌<◌, ◌≡◌, refl, sym, ap, ◌∙◌, Bool, true, false, not,
  ◌||◌, ltb, ltb-false, arith, if◌then◌else◌,
}
use native.Mathlib.Nat.{mod-eq_of_lt}
use ctutor.Outcome.{ok, cant_cast}
use ctutor.Machine.ApInt.{ApInt, ApIntOps, ApIntLaws, signed_key}
use ctutor.Ast.{Expr, integer_literal, unary, binary, paren, UnaryOp, BinaryOp}
use ctutor.Types.Enums.{defined, NumType, emu_type_int_id}
use ctutor.Types.QualType.{QualType, int_type, is_integer_type}
use ctutor.Types.NumType.{bits_in_num_type, is_num_type_signed}
use ctutor.Types.EmuNum
use ctutor.Types.EmuNum.{EmuNum, of_apint}
use ctutor.Types.EmuNum.Repr.{ApInt-eq}
use ctutor.Types.EmuVal
use ctutor.Types.EmuVal.{EmuVal, num}
use ctutor.Exec.{State, Host, Exec, pure, lift, raise, ◌>>=◌, then_do}
use ctutor.Cast.Load.{as_num}
use ctutor.Eval.Evaluator.{Evaluator, Completion, returned, value, value_of, if_pointer}
use ctutor.Eval.Operators.{numeric, arithmetic, operate, eval_unary, eval_operator, eval_binary}
use ctutor.Eval.Calls.{eval_integer, returning, rexpr_step}
use ctutor.Eval.Run.{evaluator}

pub data Constant : Type 0 where
  literal : ℕ → Constant
  negative grouped : Constant → Constant
  plus minus times : Constant → Constant → Constant

abbrev pub word : ℕ → ApInt
word v = record { width = 32; bits = v }

abbrev pub int_of : ℕ → EmuNum
int_of v = record {
  num_type = NumType.int;
  status = defined;
  val = word v;
  repr_type_id = emu_type_int_id;
}

-- The tree that Clang makes of the expression.
unfoldable pub tree : Constant → Expr
tree (literal n) = integer_literal (word n)
tree (negative c) = unary UnaryOp.minus (tree c) int_type
tree (grouped c) = paren (tree c)
tree (plus a b) = binary BinaryOp.add (tree a) (tree b)
tree (minus a b) = binary BinaryOp.sub (tree a) (tree b)
tree (times a b) = binary BinaryOp.mul (tree a) (tree b)

-- Its value as C has it for an int of 32 bits that wraps around.
unfoldable pub meaning : Constant → ℕ
meaning (literal n) = n
meaning (negative c) = (2 ^ 32 - meaning c) % 2 ^ 32
meaning (grouped c) = meaning c
meaning (plus a b) = (meaning a + meaning b) % 2 ^ 32
meaning (minus a b) = (meaning a + 2 ^ 32 - meaning b) % 2 ^ 32
meaning (times a b) = meaning a * meaning b % 2 ^ 32

-- Every literal is an int that is not negative.
unfoldable pub Small : Constant → Type 0
Small (literal n) = n < 2 ^ 31
Small (negative c) = Small c
Small (grouped c) = Small c
Small (plus a b) = Small a × Small b
Small (minus a b) = Small a × Small b
Small (times a b) = Small a × Small b

-- Fuel that is enough.
unfoldable pub depth : Constant → ℕ
depth (literal n) = 1
depth (negative c) = suc (depth c)
depth (grouped c) = suc (depth c)
depth (plus a b) = suc (depth a + depth b)
depth (minus a b) = suc (depth a + depth b)
depth (times a b) = suc (depth a + depth b)

pub meaning-Small : (c : Constant) → Small c → meaning c < 2 ^ 32
unfolding meaning Small
meaning-Small (literal n) s = omega (arith, s)
meaning-Small (negative c) s = omega arith
meaning-Small (grouped c) s = meaning-Small c s
meaning-Small (plus a b) s = omega arith
meaning-Small (minus a b) s = omega arith
meaning-Small (times a b) s = omega arith

pub int_of-eq :
    (o : ApIntOps) (i : ApInt) (v : ℕ)
    → i.width ≡ 32
    → i.bits ≡ v
    → of_apint o NumType.int i ≡ int_of v
unfolding of_apint
int_of-eq o i v w b =
    ap
      (λ x. record {
        num_type = NumType.int;
        status = defined;
        val = x;
        repr_type_id = emu_type_int_id;
      })
      (ApInt-eq i (word v) w b)

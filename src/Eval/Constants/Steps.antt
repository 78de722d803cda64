-- ===== src/Eval/Constants/Steps.antt =====
-- The steps of the evaluation of a constant expression.
use ctutor.Base.{
  ℕ, ◌+◌, ◌-◌, ◌*◌, ◌%◌, ◌^◌, ◌<◌, ◌≡◌, refl, ap, ◌∙◌, true, false, not, ltb-false, arith,
  if◌then◌else◌,
}
use native.Mathlib.Nat.{mod-eq_of_lt}
use ctutor.Outcome.{ok, cant_cast}
use ctutor.Machine.ApInt.{ApInt, ApIntLaws}
use ctutor.Ast.{Expr, UnaryOp, BinaryOp}
use ctutor.Types.QualType.{int_type, is_integer_type}
use ctutor.Types.NumType.{bits_in_num_type, is_num_type_signed}
use ctutor.Types.EmuNum
use ctutor.Types.EmuNum.{EmuNum, of_apint}
use ctutor.Types.EmuVal
use ctutor.Types.EmuVal.{EmuVal, num}
use ctutor.Exec.{State, Host, Exec, pure, lift, raise, ◌>>=◌, then_do}
use ctutor.Cast.Load.{as_num}
use ctutor.Eval.Evaluator.{Evaluator, returned, value, value_of}
use ctutor.Eval.Operators.{numeric, arithmetic, operate, eval_unary, eval_operator, eval_binary}
use ctutor.Eval.Calls.{eval_integer, returning}
use ctutor.Eval.Constants.{word, int_of, int_of-eq}

module _ (h : Host) (laws : ApIntLaws h.ops) where
  pub operate-add :
      (a b : ℕ) (s : State)
      → operate h BinaryOp.add (num (int_of a)) (num (int_of b)) s
        ≡ ok (num (int_of ((a + b) % 2 ^ 32)), s)
  unfolding operate numeric arithmetic EmuNum.add EmuNum.binary EmuNum.guarded lift pure ◌>>=◌
      as_num EmuVal.obj_type EmuNum.obj_type is_integer_type EmuNum.get_gen_kind
      EmuNum.is_dispatched
  operate-add a b s =
      ap (λ n. ok (num n, s))
        (int_of-eq h.ops (h.ops.add (word a) (word b)) _ (laws.add-width _ _) (laws.add-bits _ _))

  pub operate-sub :
      (a b : ℕ) (s : State)
      → b < 2 ^ 32
      → operate h BinaryOp.sub (num (int_of a)) (num (int_of b)) s
        ≡ ok (num (int_of ((a + 2 ^ 32 - b) % 2 ^ 32)), s)
  unfolding operate numeric arithmetic EmuNum.sub EmuNum.binary EmuNum.guarded lift pure ◌>>=◌
      as_num EmuVal.obj_type EmuNum.obj_type is_integer_type EmuNum.get_gen_kind
      EmuNum.is_dispatched
  operate-sub a b s below =
      ap (λ n. ok (num n, s))
        (int_of-eq h.ops (h.ops.sub (word a) (word b)) _ (laws.sub-width _ _)
          (laws.sub-bits _ _ ∙ ap (λ x. (a + 2 ^ 32 - x) % 2 ^ 32) (mod-eq_of_lt below)))

  pub operate-mul :
      (a b : ℕ) (s : State)
      → operate h BinaryOp.mul (num (int_of a)) (num (int_of b)) s
        ≡ ok (num (int_of (a * b % 2 ^ 32)), s)
  unfolding operate numeric arithmetic EmuNum.mul EmuNum.binary EmuNum.guarded lift pure ◌>>=◌
      as_num EmuVal.obj_type EmuNum.obj_type is_integer_type EmuNum.get_gen_kind
      EmuNum.is_dispatched
  operate-mul a b s =
      ap (λ n. ok (num n, s))
        (int_of-eq h.ops (h.ops.mul (word a) (word b)) _ (laws.mul-width _ _) (laws.mul-bits _ _))

  neg-int : (a : ℕ) → a < 2 ^ 32 → EmuNum.neg h.ops (int_of a) ≡ int_of ((2 ^ 32 - a) % 2 ^ 32)
  unfolding EmuNum.neg EmuNum.guarded_unary bits_in_num_type is_num_type_signed
  neg-int a below =
      let cut : (2 ^ 64 - a) % 2 ^ 64 % 2 ^ 32 ≡ (2 ^ 32 - a) % 2 ^ 32 = omega arith in
      int_of-eq h.ops _ _ (laws.make-width _ _ _) (laws.make-bits _ _ _ ∙ cut)

  -- EMU_MIN_INT and EMU_MAX_INT
  abbrev least : ApInt
  least = h.ops.make 32 (2 ^ 64 - 2 ^ 31) true

  abbrev greatest : ApInt
  greatest = h.ops.make 32 (2 ^ 31 - 1) false

  not_below : (n : ℕ) → n < 2 ^ 31 → h.ops.slt (word n) least ≡ false
  not_below n small =
      laws.slt-key _ _
      ∙ rw (laws.make-width 32 (2 ^ 64 - 2 ^ 31) true, laws.make-bits 32 (2 ^ 64 - 2 ^ 31) true)
          (ltb-false ((n + 2 ^ 31) % 2 ^ 32) 0 (omega arith))

  not_above : (n : ℕ) → n < 2 ^ 31 → h.ops.sgt (word n) greatest ≡ false
  not_above n small =
      laws.sgt-key _ _
      ∙ rw (laws.make-width 32 (2 ^ 31 - 1) false, laws.make-bits 32 (2 ^ 31 - 1) false)
          (ltb-false (2 ^ 32 - 1) ((n + 2 ^ 31) % 2 ^ 32) (omega arith))

  -- - behind the evaluation of its operand
  abbrev negation : EmuVal → Exec EmuVal
  negation v =
      if not (is_integer_type (EmuVal.obj_type v))
      then raise cant_cast
      else (do n ← lift (as_num v); pure (num (EmuNum.neg h.ops n)))

  negated :
      (a : ℕ) (s : State)
      → a < 2 ^ 32
      → negation (num (int_of a)) s ≡ ok (num (int_of ((2 ^ 32 - a) % 2 ^ 32)), s)
  unfolding lift pure ◌>>=◌ as_num EmuVal.obj_type EmuNum.obj_type is_integer_type
  negated a s small = ap (λ n. ok (num n, s)) (neg-int a small)

  module _ (ev : Evaluator) where
    -- An expression that evaluates to an int, and leaves the state.
    abbrev pub Yields : Expr → ℕ → State → Type 0
    Yields e v s = ev.rexpr e s ≡ ok (returned (num (int_of v)), s)

    Yields-value :
        (e : Expr) (v : ℕ) (s : State) → Yields e v s → value ev e s ≡ ok (num (int_of v), s)
    unfolding value value_of lift
    Yields-value e v s y = then_do (ev.rexpr e) _ _ s s y

    pub binary-Yields :
        (op : BinaryOp) (l r : Expr) (a b v : ℕ) (s : State)
        → ((right : EmuVal)
            → eval_operator h ev op l right ≡ (value ev l >>= λ left. operate h op left right))
        → Yields l a s
        → Yields r b s
        → operate h op (num (int_of a)) (num (int_of b)) s ≡ ok (num (int_of v), s)
        → returning h ev (eval_binary h ev op l r) s ≡ ok (returned (num (int_of v)), s)
    unfolding returning eval_binary pure
    binary-Yields op l r a b v s shape yl yr e =
        then_do (eval_binary h ev op l r) _ (num (int_of v)) s s (
          then_do (value ev r) _ (num (int_of b)) s s (Yields-value r b s yr)
          ∙ ap (λ (m : Exec EmuVal). m s) (shape (num (int_of b)))
          ∙ then_do (value ev l) _ (num (int_of a)) s s (Yields-value l a s yl)
          ∙ e)

    pub literal-Yields :
        (n : ℕ) (s : State)
        → n < 2 ^ 31
        → returning h ev (eval_integer h ev (word n)) s ≡ ok (returned (num (int_of n)), s)
    unfolding returning eval_integer pure of_apint ◌>>=◌
    literal-Yields n s small = rw (not_below n small, not_above n small) refl

    pub negative-Yields :
        (e : Expr) (a : ℕ) (s : State)
        → a < 2 ^ 32
        → Yields e a s
        → returning h ev (eval_unary h ev UnaryOp.minus e int_type) s
          ≡ ok (returned (num (int_of ((2 ^ 32 - a) % 2 ^ 32))), s)
    unfolding returning eval_unary pure
    negative-Yields e a s small y =
        then_do (eval_unary h ev UnaryOp.minus e int_type) _ _ s s
          (then_do (value ev e) _ (num (int_of a)) s s (Yields-value e a s y) ∙ negated a s small)

pub add-shape :
    (h : Host) (ev : Evaluator) (l : Expr) (right : EmuVal)
    → eval_operator h ev BinaryOp.add l right
      ≡ (value ev l >>= λ left. operate h BinaryOp.add left right)
unfolding eval_operator
add-shape h ev l right = refl

pub sub-shape :
    (h : Host) (ev : Evaluator) (l : Expr) (right : EmuVal)
    → eval_operator h ev BinaryOp.sub l right
      ≡ (value ev l >>= λ left. operate h BinaryOp.sub left right)
unfolding eval_operator
sub-shape h ev l right = refl

pub mul-shape :
    (h : Host) (ev : Evaluator) (l : Expr) (right : EmuVal)
    → eval_operator h ev BinaryOp.mul l right
      ≡ (value ev l >>= λ left. operate h BinaryOp.mul left right)
unfolding eval_operator
mul-shape h ev l right = refl

-- ===== src/Eval/Obeys/Operators.antt =====
-- The external functions, the places and the operators of the evaluator obey every logic of commands.
use Prim.Native.String.{String}
use ctutor.Base.{ℕ, Bool, true, false, Option, none, some, List}
use ctutor.Types.QualType.{
  QualType, builtin, pointer, constant_array, variable_array, function, structure, union, va_list,
}
use ctutor.Types.EmuNum.{EmuNum}
use ctutor.Types.EmuVal.{EmuVal}
use ctutor.Mem.Stack.{Lvalue}
use ctutor.Ast.{Expr, Stmt, paren, decl_ref, array_subscript, string_literal, UnaryOp, BinaryOp}
use ctutor.External.{
  top_frame, delete_pointed, emu_malloc, emu_free, stackpos_at, emu_va_start, call_external,
}
use ctutor.Exec.{Host, Exec}
use ctutor.Exec.Blocks.{dump}
use ctutor.Exec.Logic.{
  Logic, Mode, loud, Obeys, Obeys-asks, Obeys-pure, Obeys-option, Obeys-bind, obeys_rules,
}
use ctutor.Cast.Obeys.{Obeys-block_at, Obeys-bytes_at, Obeys-from_lvalue}
use ctutor.Eval.Evaluator.{Evaluator, value, value?, size_value, if_pointer}
use ctutor.Eval.Lvalues.{find_var, subscript, string_block, eval_subscript, lexpr_step}
use ctutor.Eval.Operators.{
  compare_values, compound_assign, move_pointer, numeric, operate, eval_unary, eval_assign,
  eval_compound, eval_operator, eval_binary,
}

-- Every function of `ev` is in the relation to the one of `ev'`.
pub record Extend {h : Host} (logic : Logic h) (ev ev' : Evaluator) : Type 0 where
  pub lexpr : {q : Mode} (e : Expr) → Obeys logic q (ev.lexpr e) (ev'.lexpr e)
  pub rexpr : {q : Mode} (e : Expr) → Obeys logic q (ev.rexpr e) (ev'.rexpr e)
  pub stmt : (s : Stmt) → Obeys logic loud (ev.stmt s) (ev'.stmt s)

module _ {h : Host} {logic : Logic h} {q : Mode} where
  pub Obeys-top_frame : Obeys logic q top_frame top_frame
  unfolding top_frame
  Obeys-top_frame = search obeys_rules

  pub Obeys-dump : (v : EmuVal) → Obeys logic q (dump h v) (dump h v)
  unfolding dump
  Obeys-dump v = search obeys_rules

  pub Obeys-delete_pointed : (b : Option ℕ) → Obeys logic q (delete_pointed b) (delete_pointed b)
  unfolding delete_pointed
  Obeys-delete_pointed none = search obeys_rules
  Obeys-delete_pointed (some b) = search obeys_rules

  pub Obeys-if_pointer :
      {A : Type 0} (t : QualType) (k k' : QualType → Exec A) (m m' : Exec A)
      → ((u : QualType) → Obeys logic q (k u) (k' u))
      → Obeys logic q m m'
      → Obeys logic q (if_pointer t k m) (if_pointer t k' m')
  unfolding if_pointer
  Obeys-if_pointer (pointer t) k k' m m' r q = r t
  Obeys-if_pointer (builtin b) k k' m m' r q = q
  Obeys-if_pointer (constant_array n t) k k' m m' r q = q
  Obeys-if_pointer (variable_array n t) k k' m m' r q = q
  Obeys-if_pointer (function n) k k' m m' r q = q
  Obeys-if_pointer (structure n fs) k k' m m' r q = q
  Obeys-if_pointer (union n fs) k k' m m' r q = q
  Obeys-if_pointer va_list k k' m m' r q = q

pub ruleset load_rules = (
  obeys_rules, Obeys-block_at, Obeys-bytes_at, Obeys-from_lvalue, Obeys-top_frame,
  Obeys-delete_pointed, Obeys-dump, Obeys-if_pointer,
)

module _ {h : Host} {logic : Logic h} {q : Mode} where
  Obeys-stackpos_at : (l : Lvalue) → Obeys logic q (stackpos_at l) (stackpos_at l)
  unfolding stackpos_at
  Obeys-stackpos_at l = search load_rules

  Obeys-emu_va_start : Obeys logic q (emu_va_start h) (emu_va_start h)
  unfolding emu_va_start
  Obeys-emu_va_start = search (load_rules, Obeys-stackpos_at) depth 30

  module _ (ev ev' : Evaluator) (x : Extend logic ev ev') where
    pub Obeys-value : (e : Expr) → Obeys logic q (value ev e) (value ev' e)
    unfolding value
    Obeys-value e = Obeys-bind _ _ _ _ (x.rexpr e) λ c. search obeys_rules

    pub Obeys-value? : (e : Option Expr) → Obeys logic q (value? ev e) (value? ev' e)
    unfolding value?
    Obeys-value? none = search obeys_rules
    Obeys-value? (some e) = Obeys-value e

    pub Obeys-size_value : (d : ℕ) → Obeys logic q (size_value h ev d) (size_value h ev' d)
    unfolding size_value
    Obeys-size_value d = Obeys-value (h.size_expr d)

    Obeys-emu_malloc :
        Obeys logic q (emu_malloc h (size_value h ev)) (emu_malloc h (size_value h ev'))
    unfolding emu_malloc
    Obeys-emu_malloc = search (load_rules, Obeys-size_value) depth 30

    Obeys-emu_free : Obeys logic q (emu_free h (size_value h ev)) (emu_free h (size_value h ev'))
    unfolding emu_free
    Obeys-emu_free = search (load_rules, Obeys-size_value) depth 30

    pub Obeys-call_external :
        (id : ℕ)
        → Obeys logic q
            (call_external h (size_value h ev) id)
            (call_external h (size_value h ev') id)
    unfolding call_external
    Obeys-call_external id =
        search (obeys_rules, Obeys-emu_malloc, Obeys-emu_free, Obeys-emu_va_start)

module _ {h : Host} {logic : Logic h} {q : Mode} where
  Obeys-find_var : (name : String) → Obeys logic q (find_var name) (find_var name)
  unfolding find_var
  Obeys-find_var name =
      Obeys-bind _ _ _ _ (Obeys-asks _)
        λ found. Obeys-option found _ _ _ _ (Obeys-asks _) Obeys-pure

  Obeys-subscript :
      (base index : EmuVal) (t : QualType)
      → Obeys logic q (subscript h base index t) (subscript h base index t)
  unfolding subscript
  Obeys-subscript base index t = search obeys_rules depth 30

  Obeys-string_block :
      (bytes : List ℕ) (t : QualType)
      → Obeys logic q (string_block h bytes t) (string_block h bytes t)
  unfolding string_block
  Obeys-string_block bytes t = search obeys_rules depth 30

  module _ (ev ev' : Evaluator) (x : Extend logic ev ev') where
    Obeys-eval_subscript :
        (e i : Expr) → Obeys logic q (eval_subscript h ev e i) (eval_subscript h ev' e i)
    unfolding eval_subscript
    Obeys-eval_subscript e i = search (load_rules, Obeys-value ev ev' x, Obeys-subscript) depth 30

    pub Obeys-lexpr_step : (e : Expr) → Obeys logic q (lexpr_step h ev e) (lexpr_step h ev' e)
    unfolding lexpr_step
    Obeys-lexpr_step (decl_ref name t) = Obeys-find_var name
    Obeys-lexpr_step (array_subscript base index) = Obeys-eval_subscript base index
    Obeys-lexpr_step (string_literal ascii bytes t) = search (obeys_rules, Obeys-string_block)
    Obeys-lexpr_step (paren e) = x.lexpr e
    Obeys-lexpr_step _ = search obeys_rules

module _ {h : Host} {logic : Logic h} {q : Mode} where
  Obeys-compare_values :
      (op : BinaryOp) (l r : EmuVal)
      → Obeys logic q (compare_values h op l r) (compare_values h op l r)
  unfolding compare_values
  Obeys-compare_values op l r = search obeys_rules depth 30

  Obeys-compound_assign :
      (minus : Bool) (l : Lvalue) (r : EmuVal)
      → Obeys logic q (compound_assign h minus l r) (compound_assign h minus l r)
  unfolding compound_assign
  Obeys-compound_assign minus l r = search load_rules depth 30

  Obeys-move_pointer :
      (op : BinaryOp) (l : EmuVal) (t : QualType) (r : EmuNum)
      → Obeys logic q (move_pointer h op l t r) (move_pointer h op l t r)
  unfolding move_pointer
  Obeys-move_pointer op l t r = search obeys_rules depth 30

  Obeys-numeric :
      (op : BinaryOp) (l : EmuVal) (r : EmuNum)
      → Obeys logic q (numeric h op l r) (numeric h op l r)
  unfolding numeric
  Obeys-numeric op l r = search obeys_rules depth 30

  Obeys-operate :
      (op : BinaryOp) (l r : EmuVal) → Obeys logic q (operate h op l r) (operate h op l r)
  unfolding operate
  Obeys-operate op l r = search (load_rules, Obeys-move_pointer, Obeys-numeric) depth 30

  module _ (ev ev' : Evaluator) (x : Extend logic ev ev') where
    pub Obeys-eval_unary :
        (op : UnaryOp) (e : Expr) (t : QualType)
        → Obeys logic q (eval_unary h ev op e t) (eval_unary h ev' op e t)
    unfolding eval_unary
    Obeys-eval_unary UnaryOp.addr_of e t = Obeys-bind _ _ _ _ (x.lexpr e) λ l. search obeys_rules
    Obeys-eval_unary UnaryOp.other e t = search obeys_rules
    Obeys-eval_unary _ e t = search (obeys_rules, Obeys-value ev ev' x) depth 30

    Obeys-eval_assign :
        (e : Expr) (r : EmuVal) → Obeys logic q (eval_assign h ev e r) (eval_assign h ev' e r)
    unfolding eval_assign
    Obeys-eval_assign e r = Obeys-bind _ _ _ _ (x.lexpr e) λ l. search obeys_rules depth 30

    Obeys-eval_compound :
        (minus : Bool) (e : Expr) (r : EmuVal)
        → Obeys logic q (eval_compound h ev minus e r) (eval_compound h ev' minus e r)
    unfolding eval_compound
    Obeys-eval_compound minus e r =
        Obeys-bind _ _ _ _ (x.lexpr e) λ l. search (obeys_rules, Obeys-compound_assign)

    Obeys-eval_operator :
        (op : BinaryOp) (e : Expr) (r : EmuVal)
        → Obeys logic q (eval_operator h ev op e r) (eval_operator h ev' op e r)
    unfolding eval_operator
    Obeys-eval_operator BinaryOp.assign e r = Obeys-eval_assign e r
    Obeys-eval_operator BinaryOp.add_assign e r = Obeys-eval_compound false e r
    Obeys-eval_operator BinaryOp.sub_assign e r = Obeys-eval_compound true e r
    Obeys-eval_operator BinaryOp.other e r = search obeys_rules
    Obeys-eval_operator op e r =
        search (obeys_rules, Obeys-value ev ev' x, Obeys-compare_values, Obeys-operate) depth 30

    pub Obeys-eval_binary :
        (op : BinaryOp) (e f : Expr)
        → Obeys logic q (eval_binary h ev op e f) (eval_binary h ev' op e f)
    unfolding eval_binary
    Obeys-eval_binary op e f =
        Obeys-bind _ _ _ _ (Obeys-value ev ev' x f) (Obeys-eval_operator op e)

-- ===== src/Eval/Obeys/Calls.antt =====
-- Calls and the cases of eval_rexpr obey every logic of commands.
use Prim.Native.String.{String}
use ctutor.Base.{ℕ, Option, none, some, List, [], ◌∷◌}
use ctutor.Machine.ApInt.{ApInt}
use ctutor.Types.QualType.{QualType}
use ctutor.Types.EmuVal.{EmuVal}
use ctutor.Ast.{
  Expr, Stmt, integer_literal, character_literal, unary, binary, cast, call, size_of, init_list,
  implicit_value_init, paren, decl_ref, CastKind, Exprs, nil, cons,
}
use ctutor.Exec.{Host, Exec}
use ctutor.Exec.Logic.{
  Logic, Mode, loud, Obeys, Obeys-asks, Obeys-in_frame, Obeys-if, Obeys-lift, Obeys-raise,
  Obeys-option, Obeys-bind, obeys_rules,
}
use ctutor.Eval.Evaluator.{Evaluator}
use ctutor.Eval.Calls.{
  bind, macro_arg, macro_args, strip, pass_args, call_builtin, run_body, call_defined, callee_id,
  call_function, eval_call, eval_integer, eval_character, returning, rexpr_step,
}
use ctutor.Eval.Obeys.Operators.{
  Extend, Obeys-value, Obeys-call_external, Obeys-eval_unary, Obeys-eval_binary, load_rules,
}
use ctutor.Eval.Obeys.Casts.{
  Obeys-load, Obeys-eval_cast, Obeys-eval_sizeof, Obeys-eval_init_list, Obeys-eval_zero,
}

module _ {h : Host} {logic : Logic h} where
  pub Obeys-bind_var :
      (name : String) (v : EmuVal) → Obeys logic loud (bind h name v) (bind h name v)
  unfolding bind
  Obeys-bind_var name v = search obeys_rules

  Obeys-macro_arg : (e : Expr) → Obeys logic loud (macro_arg h e) (macro_arg h e)
  unfolding macro_arg
  Obeys-macro_arg (decl_ref name t) =
      Obeys-bind _ _ _ _ (Obeys-asks _)
        λ found. Obeys-option found _ _ _ _ (Obeys-raise _) λ (n, i). Obeys-bind_var _ _
  Obeys-macro_arg _ = search obeys_rules

  Obeys-macro_args : (es : Exprs) → Obeys logic loud (macro_args h es) (macro_args h es)
  unfolding macro_args
  Obeys-macro_args nil = search obeys_rules
  Obeys-macro_args (cons e es) =
      Obeys-bind _ _ _ _ (Obeys-macro_arg (strip e)) λ _. Obeys-macro_args es

module _ {h : Host} {logic : Logic h} (ev ev' : Evaluator) (x : Extend logic ev ev') where
  Obeys-pass_args :
      (es : Exprs) (params : List (String × QualType))
      → Obeys logic loud (pass_args h ev es params) (pass_args h ev' es params)
  unfolding pass_args
  Obeys-pass_args nil params = search obeys_rules
  Obeys-pass_args (cons e es) [] =
      search (obeys_rules, Obeys-value ev ev' x, Obeys-bind_var, Obeys-pass_args es) depth 30
  Obeys-pass_args (cons e es) ((name, t) ∷ params) =
      search (obeys_rules, Obeys-value ev ev' x, Obeys-bind_var, Obeys-pass_args es) depth 30

  Obeys-call_builtin :
      (fid : ℕ) (es : Exprs)
      → Obeys logic loud (call_builtin h ev fid es) (call_builtin h ev' fid es)
  unfolding call_builtin
  Obeys-call_builtin fid es =
      search (obeys_rules, Obeys-macro_args, Obeys-pass_args, Obeys-call_external ev ev' x) depth 30

  Obeys-run_body : (s : Option Stmt) → Obeys logic loud (run_body h ev s) (run_body h ev' s)
  unfolding run_body
  Obeys-run_body none = search obeys_rules
  Obeys-run_body (some s) = x.stmt s

  Obeys-call_defined :
      (fid : ℕ) (es : Exprs)
      → Obeys logic loud (call_defined h ev fid es) (call_defined h ev' fid es)
  unfolding call_defined
  Obeys-call_defined fid es = Obeys-bind _ _ _ _ (Obeys-asks _) λ found.
      Obeys-bind _ _ _ _ (Obeys-lift _)
        λ (source, defn). search (obeys_rules, Obeys-pass_args, Obeys-run_body) depth 30

module _ {h : Host} {logic : Logic h} {q : Mode} (ev ev' : Evaluator)
    (x : Extend logic ev ev') where
  Obeys-callee_id :
      (f : EmuVal) (t : QualType) → Obeys logic q (callee_id h ev f t) (callee_id h ev' f t)
  unfolding callee_id
  Obeys-callee_id f t = search (load_rules, Obeys-load ev ev' x) depth 30

  Obeys-call_function :
      (fid : ℕ) (es : Exprs)
      → Obeys logic q (call_function h ev fid es) (call_function h ev' fid es)
  unfolding call_function
  Obeys-call_function fid es =
      Obeys-in_frame _ _ (
        Obeys-if _ _ _ _ _ (Obeys-call_builtin ev ev' x fid es)
          (Obeys-call_defined ev ev' x fid es))

  Obeys-eval_call :
      (e : Expr) (es : Exprs) → Obeys logic q (eval_call h ev e es) (eval_call h ev' e es)
  unfolding eval_call
  Obeys-eval_call e es =
      search (load_rules, Obeys-value ev ev' x, Obeys-callee_id, Obeys-call_function) depth 30

  Obeys-eval_integer : (i : ApInt) → Obeys logic q (eval_integer h ev i) (eval_integer h ev' i)
  unfolding eval_integer
  Obeys-eval_integer i = search obeys_rules

  Obeys-eval_character : (i : ℕ) → Obeys logic q (eval_character h ev i) (eval_character h ev' i)
  unfolding eval_character
  Obeys-eval_character i = search obeys_rules depth 30

  Obeys-returning :
      (m m' : Exec EmuVal)
      → Obeys logic q m m'
      → Obeys logic q (returning h ev m) (returning h ev' m')
  unfolding returning
  Obeys-returning m m' r = search obeys_rules

  pub Obeys-rexpr_step : (e : Expr) → Obeys logic q (rexpr_step h ev e) (rexpr_step h ev' e)
  unfolding rexpr_step
  Obeys-rexpr_step (integer_literal i) = Obeys-returning _ _ (Obeys-eval_integer i)
  Obeys-rexpr_step (character_literal i) = Obeys-returning _ _ (Obeys-eval_character i)
  Obeys-rexpr_step (unary op e t) = Obeys-returning _ _ (Obeys-eval_unary ev ev' x op e t)
  Obeys-rexpr_step (binary op l r) = Obeys-returning _ _ (Obeys-eval_binary ev ev' x op l r)
  Obeys-rexpr_step (cast CastKind.no_op w e t) = x.rexpr e
  Obeys-rexpr_step (cast k w e t) = Obeys-returning _ _ (Obeys-eval_cast ev ev' x k w e t)
  Obeys-rexpr_step (call f args) = Obeys-eval_call f args
  Obeys-rexpr_step (size_of t) = Obeys-returning _ _ (Obeys-eval_sizeof ev ev' x t)
  Obeys-rexpr_step (init_list es t) = Obeys-returning _ _ (Obeys-eval_init_list ev ev' x es t)
  Obeys-rexpr_step (implicit_value_init t) = Obeys-returning _ _ (Obeys-eval_zero ev ev' x t)
  Obeys-rexpr_step (paren e) = x.rexpr e
  Obeys-rexpr_step _ = search obeys_rules

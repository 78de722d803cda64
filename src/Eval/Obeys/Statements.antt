-- ===== src/Eval/Obeys/Statements.antt =====
-- Statements obey every logic of commands, and so does the whole evaluator.
use ctutor.Base.{ℕ, zero, suc, Option, none, some, List, [], ◌∷◌}
use ctutor.Types.QualType.{QualType}
use ctutor.Types.EmuNum.{EmuNum}
use ctutor.Ast.{
  Expr, Stmt, Stmts, compound, decl_stmt, expr, return_stmt, if_only, if_else, for_stmt,
  for_no_init, null_stmt, switch, case_stmt, default_stmt, break_stmt, Decl, variable,
}
use ctutor.Exec.{Host, Exec, pure}
use ctutor.Exec.Logic.{
  Logic, loud, Obeys, Obeys-if, Obeys-bind, Obeys-pure, Obeys-no_fuel, Obeys-lift, Obeys-in_frame,
  Obeys-raise, obeys_rules,
}
use ctutor.Cast.Obeys.{Obeys-is_scalar_zero}
use ctutor.Eval.Evaluator.{Evaluator, Completion, normal, breaks, returned}
use ctutor.Eval.Statements.{
  initial_value, exec_decl, exec_decls, run_stmts, test, next, for_rounds, find_case, run_switch,
  stmt_step,
}
use ctutor.Eval.Run.{evaluator}
use ctutor.Eval.Obeys.Operators.{Extend, Obeys-value, Obeys-value?, Obeys-lexpr_step}
use ctutor.Eval.Obeys.Casts.{Obeys-fresh}
use ctutor.Eval.Obeys.Calls.{Obeys-bind_var, Obeys-rexpr_step}

module _ {h : Host} {logic : Logic h} where
  -- What is done after a statement that completed normally.
  Obeys-normal :
      (c : Completion) (m m' : Exec Completion)
      → Obeys logic loud m m'
      → Obeys logic loud
          (elim c [ normal ↦ m | breaks ↦ pure breaks | returned v ↦ pure (returned v) ])
          (elim c [ normal ↦ m' | breaks ↦ pure breaks | returned v ↦ pure (returned v) ])
  Obeys-normal normal m m' r = r
  Obeys-normal breaks m m' r = search obeys_rules
  Obeys-normal (returned v) m m' r = search obeys_rules

module _ {h : Host} {logic : Logic h} (ev ev' : Evaluator) (x : Extend logic ev ev') where
  Obeys-initial_value :
      (init : Option Expr) (t : QualType)
      → Obeys logic loud (initial_value h ev init t) (initial_value h ev' init t)
  unfolding initial_value
  Obeys-initial_value none t = Obeys-fresh ev ev' x t
  Obeys-initial_value (some e) t =
      Obeys-bind _ _ _ _ (x.rexpr e) λ c. search (obeys_rules, Obeys-value ev ev' x)

  pub Obeys-exec_decl : (d : Decl) → Obeys logic loud (exec_decl h ev d) (exec_decl h ev' d)
  unfolding exec_decl
  Obeys-exec_decl (variable name t init) = search (obeys_rules, Obeys-initial_value, Obeys-bind_var)
  Obeys-exec_decl Decl.other = search obeys_rules

  Obeys-exec_decls : (ds : List Decl) → Obeys logic loud (exec_decls h ev ds) (exec_decls h ev' ds)
  unfolding exec_decls
  Obeys-exec_decls [] = search obeys_rules
  Obeys-exec_decls (d ∷ ds) = Obeys-bind _ _ _ _ (Obeys-exec_decl d) λ _. Obeys-exec_decls ds

  pub Obeys-run_stmts : (ss : Stmts) → Obeys logic loud (run_stmts h ev ss) (run_stmts h ev' ss)
  unfolding run_stmts
  Obeys-run_stmts Stmts.nil = search obeys_rules
  Obeys-run_stmts (Stmts.cons s ss) =
      Obeys-bind _ _ _ _ (x.stmt s) λ c. Obeys-normal c _ _ (Obeys-run_stmts ss)

  Obeys-test : (e : Option Expr) → Obeys logic loud (test h ev e) (test h ev' e)
  unfolding test
  Obeys-test e = search (obeys_rules, Obeys-value? ev ev' x, Obeys-is_scalar_zero)

  Obeys-next : (e : Option Expr) → Obeys logic loud (next h ev e) (next h ev' e)
  unfolding next
  Obeys-next none = search obeys_rules
  Obeys-next (some e) = x.rexpr e

  -- A loop with more rounds as well.
  Obeys-for_rounds :
      (n : ℕ) (e inc : Option Expr) (body : Stmt)
      → Obeys logic loud (for_rounds h ev n e inc body) (for_rounds h ev' (suc n) e inc body)
  unfolding for_rounds
  Obeys-for_rounds zero e inc body = search obeys_rules
  Obeys-for_rounds (suc n) e inc body = Obeys-bind _ _ _ _ (Obeys-test e) λ z.
      Obeys-if z _ _ _ _ (Obeys-pure normal) (
        Obeys-bind _ _ _ _ (x.stmt body) λ c.
          Obeys-normal c _ _
            (Obeys-bind _ _ _ _ (Obeys-next inc) λ _. Obeys-for_rounds n e inc body))

  Obeys-find_case :
      (n : EmuNum) (ss : Stmts) → Obeys logic loud (find_case h ev n ss) (find_case h ev' n ss)
  unfolding find_case
  Obeys-find_case n Stmts.nil = search obeys_rules
  Obeys-find_case n (Stmts.cons (case_stmt e s) ss) =
      Obeys-bind _ _ _ _ (Obeys-value ev ev' x e) λ v.
        Obeys-if _ _ _ _ _
          (Obeys-bind _ _ _ _ (Obeys-lift _)
            λ m. Obeys-if _ _ _ _ _ (Obeys-pure _) (Obeys-find_case n ss))
          (Obeys-raise _)
  Obeys-find_case n (Stmts.cons _ ss) = Obeys-find_case n ss

  Obeys-run_switch :
      (e : Expr) (s : Stmt) → Obeys logic loud (run_switch h ev e s) (run_switch h ev' e s)
  unfolding run_switch
  Obeys-run_switch e (compound ss) =
      search (obeys_rules, Obeys-value ev ev' x, Obeys-find_case, Obeys-run_stmts) depth 30
  Obeys-run_switch e _ = search (obeys_rules, Obeys-value ev ev' x)

  Obeys-stmt_step :
      (n : ℕ) (s : Stmt) → Obeys logic loud (stmt_step h ev n s) (stmt_step h ev' (suc n) s)
  unfolding stmt_step
  Obeys-stmt_step n (compound ss) = Obeys-in_frame _ _ (Obeys-run_stmts ss)
  Obeys-stmt_step n (decl_stmt ds) = search (obeys_rules, Obeys-exec_decls)
  Obeys-stmt_step n (expr e) = Obeys-bind _ _ _ _ (x.rexpr e) λ c. search obeys_rules
  Obeys-stmt_step n (return_stmt none) = search obeys_rules
  Obeys-stmt_step n (return_stmt (some e)) = x.rexpr e
  Obeys-stmt_step n (if_only e s) =
      Obeys-bind _ _ _ _ (Obeys-test (some e))
        λ z. Obeys-if z _ _ _ _ (Obeys-pure normal) (x.stmt s)
  Obeys-stmt_step n (if_else e s t) =
      Obeys-bind _ _ _ _ (Obeys-test (some e)) λ z. Obeys-if z _ _ _ _ (x.stmt t) (x.stmt s)
  Obeys-stmt_step n (for_stmt init e inc body) =
      Obeys-in_frame _ _
        (Obeys-bind _ _ _ _ (x.stmt init) λ c. Obeys-normal c _ _ (Obeys-for_rounds n e inc body))
  Obeys-stmt_step n (for_no_init e inc body) = search obeys_rules
  Obeys-stmt_step n null_stmt = search obeys_rules
  Obeys-stmt_step n (switch e body) = Obeys-in_frame _ _ (Obeys-run_switch e body)
  Obeys-stmt_step n (case_stmt e s) = x.stmt s
  Obeys-stmt_step n (default_stmt s) = x.stmt s
  Obeys-stmt_step n break_stmt = search obeys_rules
  Obeys-stmt_step n Stmt.other = search obeys_rules

-- An evaluator with one more unit of fuel extends one.
pub evaluator-Extend :
    {h : Host} (logic : Logic h) (n : ℕ) → Extend logic (evaluator h n) (evaluator h (suc n))
unfolding evaluator
evaluator-Extend logic zero = record {
  lexpr = λ e. Obeys-no_fuel _;
  rexpr = λ e. Obeys-no_fuel _;
  stmt = λ s. Obeys-no_fuel _;
}
evaluator-Extend logic (suc n) =
    let x = evaluator-Extend logic n in
    record {
      lexpr = Obeys-lexpr_step _ _ x;
      rexpr = Obeys-rexpr_step _ _ x;
      stmt = Obeys-stmt_step _ _ x n;
    }

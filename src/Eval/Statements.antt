-- ===== src/Eval/Statements.antt =====
-- exec_decl and exec_stmt of eval.cpp.
use ctutor.Base.{ℕ, zero, suc, Bool, Option, none, some, List, [], ◌∷◌, if◌then◌else◌}
use ctutor.Outcome.{undefined, cant_handle, cant_cast}
use ctutor.Ast.{
  Expr, Stmt, Stmts, compound, decl_stmt, expr, return_stmt, if_only, if_else, for_stmt,
  for_no_init, null_stmt, switch, case_stmt, default_stmt, break_stmt, Decl, variable,
}
use ctutor.Types.QualType.{QualType, is_integer_type}
use ctutor.Types.EmuNum.{EmuNum, equals}
use ctutor.Types.EmuVal
use ctutor.Types.EmuVal.{EmuVal}
use ctutor.Cast.Load.{as_num}
use ctutor.Cast.FromLvalue.{is_scalar_zero}
use ctutor.Exec.{Host, Exec, pure, raise, no_fuel, lift, in_frame, ◌>>=◌, ◌>>◌}
use ctutor.Eval.Evaluator.{Evaluator, Completion, normal, breaks, returned, value, value?}
use ctutor.Eval.Casts.{fresh}
use ctutor.Eval.Calls.{bind}

-- The default label of a switch and what follows it.
unfoldable pub find_default : Stmts → Stmts
find_default Stmts.nil = Stmts.nil
find_default (Stmts.cons (default_stmt s) ss) = Stmts.cons (default_stmt s) ss
find_default (Stmts.cons _ ss) = find_default ss

abbrev or_default : Stmts → Stmts → Stmts
or_default all Stmts.nil = find_default all
or_default all (Stmts.cons s ss) = Stmts.cons s ss

-- A BREAK_POINTER ends a switch, and not what is around it.
abbrev end_switch : Completion → Completion
end_switch breaks = normal
end_switch c = c

module _ (h : Host) (ev : Evaluator) where
  -- The initial value of a variable. The source evaluates it twice and keeps the second value.
  unfoldable pub initial_value : Option Expr → QualType → Exec EmuVal
  unfolding fresh value
  initial_value none t = fresh h ev t
  initial_value (some e) t = do temp ← ev.rexpr e; v ← value ev e; lift (EmuVal.cast_to h.ops v t)

  -- exec_decl
  unfoldable pub exec_decl : Decl → Exec (Unit {0})
  unfolding initial_value bind
  exec_decl (variable name t init) = do v ← initial_value init t; bind h name v
  exec_decl Decl.other = pure tt

  unfoldable pub exec_decls : List Decl → Exec (Unit {0})
  unfolding exec_decl
  exec_decls [] = pure tt
  exec_decls (d ∷ ds) = do exec_decl d; exec_decls ds

  -- Statements in turn, until one does not complete normally.
  unfoldable pub run_stmts : Stmts → Exec Completion
  run_stmts Stmts.nil = pure normal
  run_stmts (Stmts.cons s ss) = do
    c ← ev.stmt s
    elim c [ normal ↦ run_stmts ss | breaks ↦ pure breaks | returned v ↦ pure (returned v) ]

  unfoldable pub test : Option Expr → Exec Bool
  unfolding value? is_scalar_zero
  test e = do v ← value? ev e; is_scalar_zero v

  -- The increment of a for statement; its value is not looked at.
  unfoldable pub next : Option Expr → Exec Completion
  next none = lift undefined
  next (some e) = ev.rexpr e

  -- The loop of a for statement.
  unfoldable pub for_rounds : (rounds : ℕ) → (cond inc : Option Expr) → Stmt → Exec Completion
  unfolding test next
  for_rounds zero cond inc body = no_fuel
  for_rounds (suc n) cond inc body = do
    z ← test cond
    if z then pure normal else do
      c ← ev.stmt body
      elim c [
        | normal ↦ next inc >>= λ _. for_rounds n cond inc body
        | breaks ↦ pure breaks
        | returned v ↦ pure (returned v)
      ]

  -- The case label of a switch that equals the value, and what follows it.
  unfoldable pub find_case : EmuNum → Stmts → Exec Stmts
  unfolding value as_num
  find_case n Stmts.nil = pure Stmts.nil
  find_case n (Stmts.cons (case_stmt e s) ss) = do
    v ← value ev e
    if is_integer_type (EmuVal.obj_type v)
        then (do
          m ← lift (as_num v)
          if equals n m then pure (Stmts.cons (case_stmt e s) ss) else find_case n ss)
        else raise cant_cast
  find_case n (Stmts.cons _ ss) = find_case n ss

  unfoldable pub run_switch : Expr → Stmt → Exec Completion
  unfolding value as_num find_case find_default run_stmts
  run_switch e body = do
    v ← value ev e
    if is_integer_type (EmuVal.obj_type v)
        then elim body [
          | compound ss ↦ do
            n ← lift (as_num v)
            found ← find_case n ss
            c ← run_stmts (or_default ss found)
            pure (end_switch c)
          | _ ↦ raise cant_handle
        ]
        else raise cant_cast

  -- exec_stmt; a for loop has `rounds` rounds of fuel.
  unfoldable pub stmt_step : (rounds : ℕ) → Stmt → Exec Completion
  unfolding run_stmts exec_decls test for_rounds run_switch
  stmt_step rounds (compound ss) = in_frame (run_stmts ss)
  stmt_step rounds (decl_stmt ds) = do exec_decls ds; pure normal
  stmt_step rounds (expr e) = do c ← ev.rexpr e; pure normal
  stmt_step rounds (return_stmt none) = lift undefined
  stmt_step rounds (return_stmt (some e)) = ev.rexpr e
  stmt_step rounds (if_only e s) = do z ← test (some e); if z then pure normal else ev.stmt s
  stmt_step rounds (if_else e s t) = do z ← test (some e); if z then ev.stmt t else ev.stmt s
  stmt_step rounds (for_stmt init cond inc body) = in_frame (do
    c ← ev.stmt init
    elim c [
      | normal ↦ for_rounds rounds cond inc body
      | breaks ↦ pure breaks
      | returned v ↦ pure (returned v)
    ])
  stmt_step rounds (for_no_init cond inc body) = lift undefined
  stmt_step rounds null_stmt = pure normal
  stmt_step rounds (switch e body) = in_frame (run_switch e body)
  stmt_step rounds (case_stmt e s) = ev.stmt s
  stmt_step rounds (default_stmt s) = ev.stmt s
  stmt_step rounds break_stmt = pure breaks
  stmt_step rounds Stmt.other = raise cant_handle

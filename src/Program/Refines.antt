-- ===== src/Program/Refines.antt =====
-- The set-up and the run of a program keep an invariant, and with more fuel do the same.
use Prim.Native.String.{String}
use ctutor.Base.{ℕ, suc, Bool-cases, ◌==◌, inl, inr, Bool, Option, none, some, List, [], ◌∷◌}
use ctutor.Types.QualType.{QualType}
use ctutor.Mem.Stack.{Lvalue}
use ctutor.Ast.{Expr, Stmt, FunctionDecl, VarDecl, TopDecl}
use ctutor.Exec.{State, Host}
use ctutor.Exec.Refines.{
  Invariant, Refines, Refines-same, Refines-asks, Refines-lift, Refines-raise, Refines-pure,
  Refines-option, Refines-bind, refines_rules, Leaves, Good,
}
use ctutor.Eval.Evaluator.{Evaluator, value}
use ctutor.Exec.Refines.Instance.{refines_logic}
use ctutor.Exec.Logic.{quiet}
use ctutor.Exec.Blocks.{bytes_at, dump}
use ctutor.Types.EmuVal.{EmuVal}
use ctutor.Cast.Obeys.{Obeys-bytes_at}
use ctutor.Eval.Obeys.Operators.{Extend, Obeys-value, Obeys-dump}
use ctutor.Program.Globals.{
  take_fid, new_fid, insert_local, insert_global, insert_function, set_main, set_static_init,
  store_definition, store_func_impl, func_at, unhide, unhide_or_declare, setup_function,
  setup_variable, setup_var, store_initial, initialize_var,
}
use ctutor.Program.{
  store_func_impls, setup_vars, initialize_all, initialize_vars, find_main, check_params,
  run_program, store_all, initialize_files, run_main,
}

take_fid-Leaves :
    {h : Host} (inv : Invariant h) (s : State) → Good inv s → Leaves (Good inv) (take_fid s)
unfolding take_fid Leaves
take_fid-Leaves inv s g = elim (Bool-cases (s.fid_counter == 0)) [
  | inl e ↦ rw e tt
  | inr e ↦ rw e g
]

module _ {h : Host} {inv : Invariant h} where
  Refines-new_fid : Refines inv new_fid new_fid
  unfolding new_fid
  Refines-new_fid = Refines-same _ (take_fid-Leaves inv)

  Refines-bytes_at : (b : Option ℕ) (n : ℕ) → Refines inv (bytes_at b n) (bytes_at b n)
  Refines-bytes_at b n = (Obeys-bytes_at {logic = refines_logic inv} {q = quiet} b n).holds

  Refines-dump : (v : EmuVal) → Refines inv (dump h v) (dump h v)
  Refines-dump v = (Obeys-dump {logic = refines_logic inv} {q = quiet} v).holds

  Refines-insert_local :
      (source : ℕ) (name : String) (l : Lvalue)
      → Refines inv (insert_local source name l) (insert_local source name l)
  unfolding insert_local Leaves
  Refines-insert_local source name l = Refines-same _ λ s g. g

  Refines-insert_global :
      (name : String) (source : ℕ)
      → Refines inv (insert_global name source) (insert_global name source)
  unfolding insert_global Leaves
  Refines-insert_global name source = Refines-same _ λ s g. g

  Refines-insert_function :
      (fid source : ℕ) (d : FunctionDecl)
      → Refines inv (insert_function fid source d) (insert_function fid source d)
  unfolding insert_function Leaves
  Refines-insert_function fid source d = Refines-same _ λ s g. g

  Refines-set_main : (source : ℕ) → Refines inv (set_main source) (set_main source)
  unfolding set_main Leaves
  Refines-set_main source = Refines-same _ λ s g. g

  Refines-set_static_init : (b : Bool) → Refines inv (set_static_init b) (set_static_init b)
  unfolding set_static_init Leaves
  Refines-set_static_init b = Refines-same _ λ s g. g

ruleset table_rules = (
  refines_rules, Refines-bytes_at, Refines-dump, Refines-new_fid, Refines-insert_local,
  Refines-insert_global, Refines-insert_function, Refines-set_main, Refines-set_static_init,
)

module _ {h : Host} {inv : Invariant h} where
  Refines-store_definition :
      (d : FunctionDecl) (source : ℕ)
      → Refines inv (store_definition h d source) (store_definition h d source)
  unfolding store_definition
  Refines-store_definition d source = search table_rules depth 30

  Refines-store_func_impl :
      (d : FunctionDecl) (source : ℕ)
      → Refines inv (store_func_impl h d source) (store_func_impl h d source)
  unfolding store_func_impl
  Refines-store_func_impl d source = search (table_rules, Refines-store_definition) depth 30

  Refines-func_at : (b : Option ℕ) (t : QualType) → Refines inv (func_at b t) (func_at b t)
  unfolding func_at
  Refines-func_at b t = search table_rules depth 30

  Refines-unhide : (d : FunctionDecl) (b : ℕ) → Refines inv (unhide h d b) (unhide h d b)
  unfolding unhide
  Refines-unhide d b = search (table_rules, Refines-func_at) depth 30

  Refines-unhide_or_declare :
      (d : FunctionDecl) (source : ℕ) (b : Option ℕ)
      → Refines inv (unhide_or_declare h d source b) (unhide_or_declare h d source b)
  unfolding unhide_or_declare
  Refines-unhide_or_declare d source none = search table_rules depth 30
  Refines-unhide_or_declare d source (some b) = Refines-unhide d b

  Refines-setup_function :
      (d : FunctionDecl) (source : ℕ)
      → Refines inv (setup_function h d source) (setup_function h d source)
  unfolding setup_function
  Refines-setup_function d source = search (table_rules, Refines-unhide_or_declare) depth 30

  Refines-setup_variable :
      (v : VarDecl) (source : ℕ)
      → Refines inv (setup_variable h v source) (setup_variable h v source)
  unfolding setup_variable
  Refines-setup_variable v source = search table_rules depth 30

  Refines-setup_var :
      (d : TopDecl) (source : ℕ) → Refines inv (setup_var h d source) (setup_var h d source)
  unfolding setup_var
  Refines-setup_var (TopDecl.function d) source = Refines-setup_function d source
  Refines-setup_var (TopDecl.variable v) source = Refines-setup_variable v source
  Refines-setup_var _ source = search table_rules

  Refines-store_func_impls :
      (ds : List TopDecl) (source : ℕ)
      → Refines inv (store_func_impls h ds source) (store_func_impls h ds source)
  unfolding store_func_impls
  Refines-store_func_impls [] source = search table_rules
  Refines-store_func_impls (TopDecl.function d ∷ ds) source =
      Refines-bind _ _ _ _ (Refines-store_func_impl d source)
        λ _. Refines-store_func_impls ds source
  Refines-store_func_impls (_ ∷ ds) source = Refines-store_func_impls ds source

  Refines-setup_vars :
      (ds : List TopDecl) (source : ℕ)
      → Refines inv (setup_vars h ds source) (setup_vars h ds source)
  unfolding setup_vars
  Refines-setup_vars [] source = search table_rules
  Refines-setup_vars (d ∷ ds) source =
      Refines-bind _ _ _ _ (Refines-setup_var d source) λ _. Refines-setup_vars ds source

  Refines-store_all :
      (files : List (List TopDecl)) (source : ℕ)
      → Refines inv (store_all h files source) (store_all h files source)
  unfolding store_all
  Refines-store_all [] source = search table_rules
  Refines-store_all (ds ∷ files) source =
      Refines-bind _ _ _ _ (Refines-store_func_impls ds source)
        λ _. Refines-store_all files (suc source)

  Refines-find_main : Refines inv find_main find_main
  unfolding find_main
  Refines-find_main = Refines-bind _ _ _ _ (Refines-asks _) λ main.
      Refines-option main _ _ _ _ (Refines-raise _) λ source.
        Refines-bind _ _ _ _ (Refines-asks _) λ found. Refines-bind _ _ _ _ (Refines-lift _) λ l.
          Refines-bind _ _ _ _ (Refines-func_at _ _) λ f.
            Refines-bind _ _ _ _ (Refines-asks _)
              λ defn. Refines-option defn _ _ _ _ (Refines-raise _) λ (_, d). search refines_rules

  Refines-check_params :
      (params : List (String × QualType)) → Refines inv (check_params params) (check_params params)
  unfolding check_params
  Refines-check_params [] = search table_rules
  Refines-check_params ((_, t) ∷ []) = search table_rules
  Refines-check_params ((_, t) ∷ (_, u) ∷ []) = search table_rules
  Refines-check_params ((_, t) ∷ (_, u) ∷ v ∷ vs) = search table_rules

module _ {h : Host} {inv : Invariant h} (ev ev' : Evaluator)
    (x : Extend (refines_logic inv) ev ev') where
  Refines-value : (e : Expr) → Refines inv (value ev e) (value ev' e)
  Refines-value e = (Obeys-value {q = quiet} ev ev' x e).holds

  Refines-body : (s : Stmt) → Refines inv (ev.stmt s) (ev'.stmt s)
  Refines-body s = (x.stmt s).holds

  Refines-store_initial :
      (v : VarDecl) (source : ℕ) (e : Option Expr)
      → Refines inv (store_initial h ev v source e) (store_initial h ev' v source e)
  unfolding store_initial
  Refines-store_initial v source none = search table_rules
  Refines-store_initial v source (some e) = search (table_rules, Refines-value) depth 30

  Refines-initialize_var :
      (v : VarDecl) (source : ℕ)
      → Refines inv (initialize_var h ev v source) (initialize_var h ev' v source)
  unfolding initialize_var
  Refines-initialize_var v source = search (table_rules, Refines-store_initial)

  Refines-initialize_all :
      (ds : List TopDecl) (source : ℕ)
      → Refines inv (initialize_all h ev ds source) (initialize_all h ev' ds source)
  unfolding initialize_all
  Refines-initialize_all [] source = search table_rules
  Refines-initialize_all (TopDecl.variable v ∷ ds) source =
      Refines-bind _ _ _ _ (Refines-initialize_var v source) λ _. Refines-initialize_all ds source
  Refines-initialize_all (_ ∷ ds) source = Refines-initialize_all ds source

  Refines-initialize_vars :
      (ds : List TopDecl) (source : ℕ)
      → Refines inv (initialize_vars h ev ds source) (initialize_vars h ev' ds source)
  unfolding initialize_vars
  Refines-initialize_vars ds source =
      search (table_rules, Refines-setup_vars, Refines-initialize_all)

  Refines-initialize_files :
      (files : List (List TopDecl)) (source : ℕ)
      → Refines inv (initialize_files h ev files source) (initialize_files h ev' files source)
  unfolding initialize_files
  Refines-initialize_files [] source = search table_rules
  Refines-initialize_files (ds ∷ files) source =
      Refines-bind _ _ _ _ (Refines-initialize_vars ds source)
        λ _. Refines-initialize_files files (suc source)

  Refines-run_program : Refines inv (run_program h ev) (run_program h ev')
  unfolding run_program
  Refines-run_program =
      search (table_rules, Refines-find_main, Refines-check_params, Refines-body) depth 40

  pub Refines-run_main :
      (files : List (List TopDecl)) → Refines inv (run_main h ev files) (run_main h ev' files)
  unfolding run_main
  Refines-run_main files = Refines-bind _ _ _ _ (Refines-store_all files 0) λ _.
      Refines-bind _ _ _ _ (Refines-asks _) λ main.
        Refines-option main _ _ _ _ (Refines-pure _)
          λ source. search (table_rules, Refines-initialize_files, Refines-run_program) depth 30

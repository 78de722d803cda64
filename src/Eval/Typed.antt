-- ===== src/Eval/Typed.antt =====
-- The types of declared variables.
use Prim.Native.String.{String}
use text.Mathlib.TextPositions.{eq_refl}
use ctutor.Base.{ℕ, ◌≡◌, refl, sym, ap, ◌∙◌, Option, none, some, List, [], ◌∷◌}
use ctutor.Outcome.{ok, ok-injective}
use ctutor.Types.Enums.{stack}
use ctutor.Mem.Block.Invariant.{IsValid}
use ctutor.Mem.Stack.{Frame, add_stack_var}
use ctutor.Mem.Stack.Lookup.{newest, newest_in, find_stack_var-newest}
use ctutor.Exec.{declare}
use ctutor.Exec.Blocks.{alloc_with}
use ctutor.Exec.Frames.{bind_parts}
use ctutor.Exec.Refines.{Refines-kept}
use ctutor.Exec.Refines.Instance.{refines_logic}
use ctutor.Exec.Invariants.{with_predicate}
use ctutor.Exec.Gone.{validity}
use ctutor.Eval.Run.{evaluator}
use ctutor.Eval.Obeys.Statements.{Obeys-exec_decl, evaluator-Extend}
use ctutor.Ast.{Expr, variable}
use ctutor.Types.QualType.{QualType}
use ctutor.Types.EmuVal
use ctutor.Types.EmuVal.{EmuVal}
use ctutor.Types.EmuVal.Typed.{stored_type, cast_to-type}
use ctutor.Mem.Stack.{Lvalue, find_stack_var}
use ctutor.Mem.Stack.Scope.{Agrees}
use ctutor.Exec.{State, Host}
use ctutor.Cast.Typed.{HasType, Gives, Gives-lift, Gives-then, from_lvalue-HasType}
use ctutor.Eval.Evaluator.{Evaluator}
use ctutor.Eval.Casts.{fresh, load}
use ctutor.Eval.Calls.{bind}
use ctutor.Eval.Statements.{initial_value, exec_decl}

module _ (h : Host) (ev : Evaluator) where
  fresh-HasType : (t : QualType) → Gives (HasType t) (fresh h ev t)
  unfolding fresh load
  fresh-HasType t = from_lvalue-HasType h _ (record { block = none; type = t; offset = 0 })

  initial_value-HasType :
      (init : Option Expr) (t : QualType) → Gives (HasType t) (initial_value h ev init t)
  unfolding initial_value
  initial_value-HasType none t = fresh-HasType t
  initial_value-HasType (some e) t =
      Gives-then _ _
        λ temp. Gives-then _ _ λ v. Gives-lift _ (λ w cast. cast_to-type h.ops v w t cast)

-- The variable that a declaration enters is the newest one of its name.
declare-newest :
    (name : String) (l : Lvalue) (s s' : State) (fs : List Frame)
    → s.scopes.stack_vars ≡ fs
    → declare name l s ≡ ok (tt, s')
    → newest name s'.scopes.stack_vars ≡ some l
unfolding declare add_stack_var newest newest_in
declare-newest name l s s' [] e h = cc (rw e at h)
declare-newest name l s s' (f ∷ fs) e h =
    ap (λ (x : Unit {0} × State). newest name x.1.scopes.stack_vars)
      (sym (ok-injective (rw e at h)))
    ∙ rw (eq_refl name) refl

bind-newest :
    (h : Host) (name : String) (v : EmuVal) (s s' : State)
    → bind h name v s ≡ ok (tt, s')
    → (l : Lvalue) × (newest name s'.scopes.stack_vars ≡ some l) × (l.type ≡ EmuVal.obj_type v)
unfolding bind
bind-newest h name v s s' e =
    let (b, s1, made, named) = bind_parts (alloc_with h stack v) _ s s' tt e in
    (_, declare-newest name _ s1 s' s1.scopes.stack_vars refl named, refl)

-- In a state with the invariant of the blocks and with a map of names that agrees with the frames, let the
-- declaration of a variable complete, with an initial value or without. Then the name is found on the
-- stack, at a place of the declared type, up to the types that stand for the same kind of number.
pub exec_decl-type :
    (h : Host) (n : ℕ) (name : String) (t : QualType) (init : Option Expr) (s s' : State)
    → IsValid s.memory
    → Agrees s.scopes
    → exec_decl h (evaluator h n) (variable name t init) s ≡ ok (tt, s')
    → (l : Lvalue) × (find_stack_var name s'.scopes ≡ ok (some l))
      × (stored_type l.type ≡ stored_type t)
unfolding exec_decl with_predicate
exec_decl-type h n name t init s s' v a e =
    let ev = evaluator h n in
    let (val, s1, made, bound) = bind_parts (initial_value h ev init t) _ s s' tt e in
    let (l, found, same) = bind-newest h name val s1 s' bound in
    let inv = with_predicate (validity h) in
    let kept =
      Refines-kept {inv = inv} _ _ tt s s'
        (Obeys-exec_decl _ _ (evaluator-Extend (refines_logic inv) n) (variable name t init)).holds
        ((v, tt), a) e in
    (
      l,
      find_stack_var-newest name s'.scopes kept.1 ∙ ap (λ o. ok o) found,
      ap stored_type same ∙ (initial_value-HasType h ev init t).at s s1 val made,
    )

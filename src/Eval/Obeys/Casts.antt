-- ===== src/Eval/Obeys/Casts.antt =====
-- The casts, sizeof and the initializers of the evaluator obey every logic of commands.
use ctutor.Base.{ℕ, Option, none, some}
use ctutor.Types.QualType.{QualType, builtin, structure}
use ctutor.Mem.Stack.{Lvalue}
use ctutor.Ast.{Expr, decl_ref, CastKind, Exprs, nil, cons}
use ctutor.Exec.{Host}
use ctutor.Exec.Logic.{Logic, Mode, Obeys, Obeys-bind, obeys_rules}
use ctutor.Cast.Obeys.{Obeys-from_lvalue}
use ctutor.Eval.Evaluator.{Evaluator}
use ctutor.Eval.Casts.{
  segment_of, load, fresh, cast_value, decay_function, decay_array, builtin_pointer,
  integer_of_pointer, pointer_to_integral, eval_cast, eval_sizeof, init_elements, init_array,
  init_members, init_struct, eval_init_list, eval_zero,
}
use ctutor.Eval.Obeys.Operators.{Extend, Obeys-value, Obeys-size_value, load_rules}

module _ {h : Host} {logic : Logic h} {q : Mode} where
  Obeys-segment_of : (b : Option ℕ) → Obeys logic q (segment_of b) (segment_of b)
  unfolding segment_of
  Obeys-segment_of none = search obeys_rules
  Obeys-segment_of (some b) = search load_rules

module _ {h : Host} {logic : Logic h} {q : Mode} (ev ev' : Evaluator)
    (x : Extend logic ev ev') where
  pub Obeys-load : (l : Lvalue) → Obeys logic q (load h ev l) (load h ev' l)
  unfolding load
  Obeys-load l = Obeys-from_lvalue _ _ (Obeys-size_value ev ev' x) l

  pub Obeys-fresh : (t : QualType) → Obeys logic q (fresh h ev t) (fresh h ev' t)
  unfolding fresh
  Obeys-fresh t = Obeys-load _

  Obeys-cast_value :
      (e : Expr) (t : QualType) → Obeys logic q (cast_value h ev e t) (cast_value h ev' e t)
  unfolding cast_value
  Obeys-cast_value e t = search (obeys_rules, Obeys-value ev ev' x)

  Obeys-decay_function : (e : Expr) → Obeys logic q (decay_function h ev e) (decay_function h ev' e)
  unfolding decay_function
  Obeys-decay_function e = Obeys-bind _ _ _ _ (x.lexpr e) λ l. search obeys_rules

  Obeys-decay_array :
      (e : Expr) (t : QualType) → Obeys logic q (decay_array h ev e t) (decay_array h ev' e t)
  unfolding decay_array
  Obeys-decay_array e t = Obeys-bind _ _ _ _ (x.lexpr e) λ l. search obeys_rules

  Obeys-builtin_pointer :
      (e : Expr) (t : QualType)
      → Obeys logic q (builtin_pointer h ev e t) (builtin_pointer h ev' e t)
  unfolding builtin_pointer
  Obeys-builtin_pointer (decl_ref name s) t = search obeys_rules depth 30
  Obeys-builtin_pointer _ t = search obeys_rules

  Obeys-integer_of_pointer :
      (b : Option ℕ) (offset : ℕ) (t : QualType)
      → Obeys logic q (integer_of_pointer h ev b offset t) (integer_of_pointer h ev' b offset t)
  unfolding integer_of_pointer
  Obeys-integer_of_pointer b offset (builtin k) = search (obeys_rules, Obeys-segment_of) depth 30
  Obeys-integer_of_pointer b offset _ = search (obeys_rules, Obeys-segment_of) depth 30

  Obeys-pointer_to_integral :
      (e : Expr) (t : QualType)
      → Obeys logic q (pointer_to_integral h ev e t) (pointer_to_integral h ev' e t)
  unfolding pointer_to_integral
  Obeys-pointer_to_integral e t =
      search (obeys_rules, Obeys-value ev ev' x, Obeys-integer_of_pointer) depth 30

  pub Obeys-eval_cast :
      (k : CastKind) (w : Option QualType) (e : Expr) (t : QualType)
      → Obeys logic q (eval_cast h ev k w e t) (eval_cast h ev' k w e t)
  unfolding eval_cast
  Obeys-eval_cast CastKind.lvalue_to_rvalue w e t = Obeys-bind _ _ _ _ (x.lexpr e) Obeys-load
  Obeys-eval_cast CastKind.bit_cast w e t = Obeys-cast_value e _
  Obeys-eval_cast CastKind.integral_cast w e t = Obeys-cast_value e t
  Obeys-eval_cast CastKind.function_to_pointer w e t = Obeys-decay_function e
  Obeys-eval_cast CastKind.array_to_pointer w e t = Obeys-decay_array e t
  Obeys-eval_cast CastKind.builtin_fn w e t = Obeys-builtin_pointer e t
  Obeys-eval_cast CastKind.null_to_pointer w e t = search obeys_rules
  Obeys-eval_cast CastKind.pointer_to_integral w e t = Obeys-pointer_to_integral e t
  Obeys-eval_cast _ w e t = search obeys_rules

  pub Obeys-eval_sizeof :
      (t : Option QualType) → Obeys logic q (eval_sizeof h ev t) (eval_sizeof h ev' t)
  unfolding eval_sizeof
  Obeys-eval_sizeof none = search obeys_rules
  Obeys-eval_sizeof (some t) = search (obeys_rules, Obeys-fresh) depth 30

  Obeys-init_elements :
      (es : Exprs) (b : Option ℕ) (loc : ℕ)
      → Obeys logic q (init_elements h ev es b loc) (init_elements h ev' es b loc)
  unfolding init_elements
  Obeys-init_elements nil b loc = search obeys_rules
  Obeys-init_elements (cons e es) b loc =
      search (obeys_rules, Obeys-value ev ev' x, Obeys-init_elements es) depth 30

  Obeys-init_array :
      (es : Exprs) (t : QualType) → Obeys logic q (init_array h ev es t) (init_array h ev' es t)
  unfolding init_array
  Obeys-init_array es t = search (obeys_rules, Obeys-fresh, Obeys-init_elements) depth 30

  Obeys-init_members : (es : Exprs) → Obeys logic q (init_members h ev es) (init_members h ev' es)
  unfolding init_members
  Obeys-init_members nil = search obeys_rules
  Obeys-init_members (cons e es) =
      Obeys-bind _ _ _ _ (Obeys-value ev ev' x e)
        λ v. Obeys-bind _ _ _ _ (Obeys-init_members es) λ m. search obeys_rules

  Obeys-init_struct :
      (es : Exprs) (t : QualType) → Obeys logic q (init_struct h ev es t) (init_struct h ev' es t)
  unfolding init_struct
  Obeys-init_struct es t = search (obeys_rules, Obeys-init_members)

  pub Obeys-eval_init_list :
      (es : Exprs) (t : QualType)
      → Obeys logic q (eval_init_list h ev es t) (eval_init_list h ev' es t)
  unfolding eval_init_list
  Obeys-eval_init_list es (structure d fs) = Obeys-init_struct es (structure d fs)
  Obeys-eval_init_list es _ = search (obeys_rules, Obeys-init_array)

  pub Obeys-eval_zero : (t : QualType) → Obeys logic q (eval_zero h ev t) (eval_zero h ev' t)
  unfolding eval_zero
  Obeys-eval_zero t = search obeys_rules

-- ===== src/Program/Main.antt =====
-- What RunProgram asks of main.
use Prim.Native.String.{String}
use ctutor.Base.{
  ◌≡◌, ◌≢◌, refl, sym, ap, ap₂, ◌∙◌, Bool, true, false, Option, none, some, List, [], ◌∷◌,
  if◌then◌else◌,
}
use ctutor.Outcome.{Error, Outcome, ok, exits, undefined, out_of_fuel, ok-injective}
use ctutor.Ast.{Stmt, FunctionDecl}
use ctutor.Types.QualType.{QualType, is_pointer_type}
use ctutor.Types.EmuNum.{EmuNum}
use ctutor.Types.EmuVal
use ctutor.Types.EmuVal.{EmuVal}
use ctutor.Cast.Load.{as_num}
use ctutor.Exec.{State, Host, Exec, pure, raise, lift, push_frame, continue, ◌>>=◌}
use ctutor.Eval.Evaluator.{Evaluator, Completion, value_of, returned as gives}
use ctutor.Program.{is_int, find_main, check_params, run_program}

continue-parts :
    {A B : Type 0} (r : Outcome (A × State)) (k : A → Exec B) (q : B × State)
    → continue r k ≡ ok q
    → (a : A) × (s : State) × (r ≡ ok (a, s)) × (k a s ≡ ok q)
continue-parts (ok (a, s)) k q e = (a, s, refl, e)
continue-parts (exits x) k q e = cc
continue-parts undefined k q e = cc
continue-parts out_of_fuel k q e = cc

-- What a chain of commands that gives a result went through.
pub bind-parts :
    {A B : Type 0} (m : Exec A) (k : A → Exec B) (s : State) (q : B × State)
    → (m >>= k) s ≡ ok q
    → (a : A) × (s1 : State) × (m s ≡ ok (a, s1)) × (k a s1 ≡ ok q)
unfolding ◌>>=◌
bind-parts m k s q e = continue-parts (m s) k q e

lift-parts :
    {A : Type 0} (r : Outcome A) (s : State) (a : A) (s1 : State)
    → lift r s ≡ ok (a, s1)
    → (r ≡ ok a) × (s ≡ s1)
unfolding lift
lift-parts (ok x) s a s1 e = (cc, cc)
lift-parts (exits x) s a s1 e = cc
lift-parts undefined s a s1 e = cc
lift-parts out_of_fuel s a s1 e = cc

guard-parts :
    {A : Type 0} (b : Bool) (m : Exec A) (x : Error) (s : State) (q : A × State)
    → (if b then m else raise x) s ≡ ok q
    → (b ≡ true) × (m s ≡ ok q)
unfolding raise
guard-parts true m x s q e = (refl, e)
guard-parts false m x s q e = cc

no_check :
    (a b : Bool) (x y : Error) (s : State) (q : Unit {0} × State)
    → (if a then (if b then raise x else lift undefined) else raise y) s ≢ ok q
unfolding raise lift
no_check true true x y s q e = cc
no_check true false x y s q e = cc
no_check false b x y s q e = cc

-- The checks on the parameters let no main through but one without parameters.
no_params :
    (params : List (String × QualType)) (s s' : State) (u : Unit {0})
    → check_params params s ≡ ok (u, s')
    → (params ≡ []) × (s ≡ s')
unfolding check_params raise pure
no_params [] s s' q e = (refl, cc)
no_params (p ∷ []) s s' q e = cc
no_params ((_, t) ∷ (_, u) ∷ []) s s' q e =
    absurd (no_check (is_int t) (is_pointer_type u) _ _ s (q, s') e)
no_params (p ∷ q ∷ v ∷ vs) s s' u e = cc

has_body :
    (b : Option Stmt) (body : Stmt)
    → (elim b [ none ↦ undefined | some x ↦ ok x ]) ≡ ok body
    → b ≡ some body
has_body none body e = cc
has_body (some x) body e = cc

has_value : (c : Completion) (v : EmuVal) → value_of c ≡ ok v → c ≡ gives v
unfolding value_of
has_value (gives w) v e = cc
has_value Completion.normal v e = cc
has_value Completion.breaks v e = cc

same_first : {A : Type 0} (x y : A × State) → Path (Outcome (A × State)) (ok x) (ok y) → x.0 ≡ y.0
same_first x y e = ap (λ r. r.0) (ok-injective e)

pub run_program-parts :
    (h : Host) (ev : Evaluator) (s s' : State) (n : EmuNum)
    → run_program h ev s ≡ ok (n, s')
    → (main : FunctionDecl) × (s1 s2 : State) × (body : Stmt) × (v w : EmuVal) × (find_main s
        ≡ ok (main, s1))
      × (main.params ≡ [])
      × (is_int main.return_type ≡ true)
      × (main.body ≡ some body)
      × (push_frame s1 ≡ ok (tt, s2))
      × (ev.stmt body s2 ≡ ok (gives v, s'))
      × (EmuVal.cast_to h.ops v main.return_type ≡ ok w)
      × (as_num w ≡ ok n)
unfolding run_program
run_program-parts h ev s s' n e =
    let (main, s1, found, rest) = bind-parts find_main _ s (n, s') e in
    let (yes_int, e1) = guard-parts (is_int main.return_type) _ _ s1 (n, s') rest in
    let (u, s2, pushed, e2) = bind-parts push_frame _ s1 (n, s') e1 in
    let (w, s3, checked, e3) = bind-parts (check_params main.params) _ s2 (n, s') e2 in
    let (body, s4, found_body, e4) = bind-parts (lift _) _ s3 (n, s') e3 in
    let (c, s5, ran, e5) = bind-parts (ev.stmt body) _ s4 (n, s') e4 in
    let (v, s6, had, e6) = bind-parts (lift (value_of c)) _ s5 (n, s') e5 in
    let (x, s7, converted, e7) =
      bind-parts (lift (EmuVal.cast_to h.ops v main.return_type)) _ s6 (n, s') e6 in
    let (none_left, from2) = no_params main.params s2 s3 w checked in
    let (b, from3) = lift-parts _ s3 body s4 found_body in
    let (is_v, from5) = lift-parts (value_of c) s5 v s6 had in
    let (is_x, from6) = lift-parts _ s6 x s7 converted in
    let (is_n, from7) = lift-parts _ s7 n s' e7 in
    let gave = has_value c v is_v in
    (
      main,
      s1,
      s2,
      body,
      v,
      x,
      found,
      none_left,
      yes_int,
      has_body main.body body b,
      pushed,
      ap (ev.stmt body) (from2 ∙ from3)
          ∙ ran
          ∙ ap₂ (λ d st. ok (d, st)) gave (from5 ∙ from6 ∙ from7),
      is_x,
      is_n,
    )

-- Where the main that is found has parameters, the run of the program gives no exit value.
pub run_program-with_params :
    (h : Host) (ev : Evaluator) (s s1 : State) (main : FunctionDecl)
    → find_main s ≡ ok (main, s1)
    → main.params ≢ []
    → (q : EmuNum × State) → run_program h ev s ≢ ok q
run_program-with_params h ev s s1 main found some_params (n, s') e =
    let (other, s2, _, _, _, _, found2, none_left, _, _, _, _, _, _) =
      run_program-parts h ev s s' n e in
    some_params (
      ap (λ (d : FunctionDecl). d.params) (same_first (main, s1) (other, s2) (sym found ∙ found2))
      ∙ none_left)

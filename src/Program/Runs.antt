-- ===== src/Program/Runs.antt =====
-- What every run of the interpreter keeps, and what more fuel does to it.
use ctutor.Base.{ℕ, zero, suc, ◌+◌, ◌≡◌, ◌≢◌, sym, ap, ◌∙◌, Option, List, arith}
use ctutor.Outcome.{ok, out_of_fuel}
use ctutor.Ast.{Stmt, TopDecl}
use ctutor.Types.QualType.{QualType}
use ctutor.Types.EmuNum.{EmuNum}
use ctutor.Types.EmuVal.{EmuVal}
use ctutor.Mem.Block.Invariant.{IsValid}
use ctutor.Mem.Stack.Scope.{Agrees}
use ctutor.Exec.{State, Host, Exec}
use ctutor.Exec.Refines.{no_invariant, Refines, Refines-result, Refines-kept}
use ctutor.Exec.Refines.Instance.{refines_logic}
use ctutor.Exec.Invariants.{with_predicate}
use ctutor.Exec.Gone.{validity}
use ctutor.Eval.Evaluator.{Completion}
use ctutor.Eval.Run.{evaluator}
use ctutor.Eval.Obeys.Statements.{evaluator-Extend}
use ctutor.Program.{interpret}
use ctutor.Program.Refines.{Refines-run_main}

-- A command of the fuel that one more unit of fuel refines ends as it does with more fuel.
more_fuel :
    {A : Type 0} (h : Host) (m : ℕ → Exec A)
    → ((n : ℕ) → Refines (no_invariant h) (m n) (m (suc n)))
    → (n k : ℕ) (s : State) → m n s ≢ out_of_fuel
    → m (n + k) s ≡ m n s
more_fuel h m step n zero s enough =
    let none_more : n + 0 ≡ n = omega arith in ap (λ f. m f s) none_more
more_fuel h m step n (suc k) s enough =
    let before = more_fuel h m step n k s enough in
    let one_more : n + suc k ≡ suc (n + k) = omega arith in
    ap (λ f. m f s) one_more
    ∙ Refines-result (m (n + k)) (m (suc (n + k))) s (step (n + k)) tt
        (λ out. enough (sym before ∙ out))
    ∙ before

-- A statement that does not run out of fuel completes, ends the interpreter or is undefined with more
-- fuel exactly as it does with less, and leaves the same state.
pub stmt-more_fuel :
    (h : Host) (n k : ℕ) (st : Stmt) (s : State)
    → (evaluator h n).stmt st s ≢ out_of_fuel
    → (evaluator h (n + k)).stmt st s ≡ (evaluator h n).stmt st s
stmt-more_fuel h n k st s enough =
    more_fuel h (λ f. (evaluator h f).stmt st)
      (λ f. ((evaluator-Extend (refines_logic (no_invariant h)) f).stmt st).holds) n k s enough

-- A statement that completes in a state with the invariant of the blocks, in which the map of names
-- agrees with the frames, leaves such a state.
pub stmt-IsValid :
    (h : Host) (n : ℕ) (st : Stmt) (s s' : State) (c : Completion)
    → IsValid s.memory
    → Agrees s.scopes
    → (evaluator h n).stmt st s ≡ ok (c, s')
    → IsValid s'.memory × Agrees s'.scopes
unfolding with_predicate
stmt-IsValid h n st s s' c v a e =
    let inv = with_predicate (validity h) in
    let g =
      Refines-kept {inv = inv} _ _ c s s' ((evaluator-Extend (refines_logic inv) n).stmt st).holds
        ((v, tt), a) e in
    (g.0.0, g.1)

-- A program that is run to its end from a state with the invariant of the blocks, in which the map of
-- names agrees with the frames, leaves such a state.
pub interpret-IsValid :
    (h : Host) (n : ℕ) (files : List (List TopDecl)) (s s' : State) (r : Option EmuNum)
    → IsValid s.memory
    → Agrees s.scopes
    → interpret h n files s ≡ ok (r, s')
    → IsValid s'.memory × Agrees s'.scopes
unfolding interpret with_predicate
interpret-IsValid h n files s s' r v a e =
    let inv = with_predicate (validity h) in
    let g =
      Refines-kept {inv = inv} _ _ r s s'
        (Refines-run_main _ _ (evaluator-Extend (refines_logic inv) n) files) ((v, tt), a) e in
    (g.0.0, g.1)

-- ===== src/Mem/Stack/Scope.antt =====
-- The map of names agrees with the frames, also after add_stack_frame and add_stack_var.
use Prim.Native.String.{String}
use text.Mathlib.Text.{◌==◌ as str_eq}
use text.Mathlib.TextEquality.{eq_iff}
use ctutor.Base.{
  ℕ, ◌≡◌, refl, ap, ◌∙◌, inl, inr, true, false, Option, none, some, List, [], ◌∷◌, ◌++◌, length,
  if◌then◌else◌, Bool-cases,
}
use ctutor.Outcome.{ok}
use ctutor.Mem.Stack.{
  Lvalue, Frame, Position, Scopes, assign, pushed, add_stack_var, add_stack_frame,
}

-- The positions at which a name is declared, the newest first.
unfoldable pub frame_positions : String → ℕ → Frame → List Position
frame_positions name n [] = []
frame_positions name n ((k, loc) ∷ vs) =
    let rest = frame_positions name n vs in if str_eq k name then (n, length vs) ∷ rest else rest

unfoldable pub positions : String → List Frame → List Position
unfolding frame_positions
positions name [] = []
positions name (f ∷ fs) = frame_positions name (length fs) f ++ positions name fs

abbrev pub entry : List Position → Option (List Position)
entry [] = none
entry (p ∷ ps) = some (p ∷ ps)

-- The map has for each name the positions of its declarations, and no empty deque.
abbrev pub Agrees : Scopes → Type 0
Agrees s = (name : String) → s.stack_var_map name ≡ entry (positions name s.stack_vars)

pushed-entry : (ps : List Position) (p : Position) → pushed (entry ps) p ≡ entry (p ∷ ps)
pushed-entry [] p = refl
pushed-entry (q ∷ ps) p = refl

-- A frame without variables keeps the agreement of the map with the frames.
pub add_stack_frame-Agrees : (s : Scopes) → Agrees s → Agrees (add_stack_frame s)
unfolding add_stack_frame positions
add_stack_frame-Agrees s a name = a name

pub positions-frame :
    (name : String) (f : Frame) (fs : List Frame)
    → positions name (f ∷ fs) ≡ frame_positions name (length fs) f ++ positions name fs
unfolding positions
positions-frame name f fs = refl

positions-declared :
    (name j : String) (loc : Lvalue) (f : Frame) (fs : List Frame)
    → str_eq name j ≡ true
    → positions j (((name, loc) ∷ f) ∷ fs) ≡ (length fs, length f) ∷ positions j (f ∷ fs)
unfolding positions
positions-declared name j loc f fs e = rw e

positions-other :
    (name j : String) (loc : Lvalue) (f : Frame) (fs : List Frame)
    → str_eq name j ≡ false
    → positions j (((name, loc) ∷ f) ∷ fs) ≡ positions j (f ∷ fs)
unfolding positions
positions-other name j loc f fs e = rw e

-- Where there is a frame and the map of names agrees with the frames, declaring a variable is
-- defined, puts the variable last in the newest frame, and keeps the agreement.
pub add_stack_var-Agrees :
    (name : String) (loc : Lvalue) (s : Scopes) (f : Frame) (fs : List Frame)
    → s.stack_vars ≡ f ∷ fs
    → Agrees s
    → (s' : Scopes) × (add_stack_var name loc s ≡ ok s')
      × (s'.stack_vars ≡ ((name, loc) ∷ f) ∷ fs)
      × Agrees s'
unfolding add_stack_var
add_stack_var-Agrees name loc s f fs e a =
    let entry_of : (j : String) → s.stack_var_map j ≡ entry (positions j (f ∷ fs)) =
      λ j. a j ∙ ap (λ v. entry (positions j v)) e in
    (
      record {
        stack_vars = ((name, loc) ∷ f) ∷ fs;
        stack_var_map =
            assign s.stack_var_map name (pushed (s.stack_var_map name) (length fs, length f));
      },
      rw e,
      refl,
      λ j. elim (Bool-cases (str_eq name j)) [
        | inl same ↦
            let p : Position = (length fs, length f) in
            let here : name ≡ j = (eq_iff name j).0 same in
            rw (positions-declared name j loc f fs same) (
              rw same (
                ap (λ k. pushed (s.stack_var_map k) p) here
                ∙ ap (λ o. pushed o p) (entry_of j)
                ∙ pushed-entry (positions j (f ∷ fs)) p))
        | inr other ↦ rw (positions-other name j loc f fs other) (rw other (entry_of j))
      ],
    )

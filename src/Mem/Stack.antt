-- ===== src/Mem/Stack.antt =====
-- stack_vars and stack_var_map of mem.cpp: the variables in scope. A vector or deque is a list with
-- its last element first, since the code grows and shrinks them at that end.
pub mod Scope
pub mod Pop
pub mod Lookup
use Prim.Native.String.{String}
use text.Mathlib.Text.{◌==◌ as str_eq}
use ctutor.Base.{ℕ, Option, none, some, List, [], ◌∷◌, length, ◌==◌, if◌then◌else◌}
use ctutor.Outcome.{Outcome, ok, undefined, ◌>>=◌}
use ctutor.Types.QualType.{QualType}
use ctutor.Mem.Block.{Memory, free}

-- lvalue; `block` is `none` for a null pointer.
pub record Lvalue : Type 0 where
  pub block : Option ℕ
  pub type : QualType
  pub offset : ℕ

abbrev pub Frame : Type 0
Frame = List (String × Lvalue)

-- Where a variable is: the number of its frame, and its number in the frame.
abbrev pub Position : Type 0
Position = ℕ × ℕ

pub record Scopes : Type 0 where
  pub stack_vars : List Frame
  pub stack_var_map : String → Option (List Position)

-- v[n] for a list with its last element first; `none` out of range.
unfoldable pub at {ℓ} : {A : Type ℓ} → List A → ℕ → Option A
at [] n = none
at (x ∷ xs) n = let rest = at xs n in if n == length xs then some x else rest

abbrev pub assign :
    (String → Option (List Position))
    → String
    → Option (List Position)
    → String
    → Option (List Position)
assign f k v j = if str_eq k j then v else f j

abbrev pub pushed : Option (List Position) → Position → Option (List Position)
pushed none p = some (p ∷ [])
pushed (some ps) p = some (p ∷ ps)

-- add_stack_var; there is no last frame to add to when there is no frame.
unfoldable pub add_stack_var : String → Lvalue → Scopes → Outcome Scopes
add_stack_var name loc s = elim s.stack_vars [
  | [] ↦ undefined
  | frame ∷ older ↦ ok (record {
    stack_vars = ((name, loc) ∷ frame) ∷ older;
    stack_var_map =
        assign s.stack_var_map name (pushed (s.stack_var_map name) (length older, length frame));
  })
]

-- add_stack_frame
unfoldable pub add_stack_frame : Scopes → Scopes
add_stack_frame s = record s { stack_vars = [] ∷ s.stack_vars }

-- The deque of a name after pop_back, erased where that was its last element. Without an entry
-- `find` gives end(), which the code then dereferences.
unfoldable pub popped : Option (List Position) → Outcome (Option (List Position))
popped none = undefined
popped (some []) = undefined
popped (some (p ∷ [])) = ok none
popped (some (p ∷ q ∷ ps)) = ok (some (q ∷ ps))

-- it->second.ptr.block->free()
unfoldable pub free_block : Option ℕ → Memory → Outcome Memory
free_block none m = undefined
free_block (some b) m = free b m

-- The loop of pop_stack_frame, from the first variable of the frame to the last.
unfoldable pub pop_vars :
    Frame
    → (String → Option (List Position))
    → Memory
    → Outcome ((String → Option (List Position)) × Memory)
pop_vars [] f m = ok (f, m)
pop_vars ((name, loc) ∷ vs) f m = pop_vars vs f m >>= λ (g, m').
    popped (g name) >>= λ entry. free_block loc.block m' >>= λ m''. ok (assign g name entry, m'')

-- pop_stack_frame
unfoldable pub pop_stack_frame : Scopes → Memory → Outcome (Scopes × Memory)
pop_stack_frame s m = elim s.stack_vars [
  | [] ↦ undefined
  | frame ∷ older ↦ pop_vars frame s.stack_var_map m >>= λ (f, m').
      ok (record { stack_vars = older; stack_var_map = f }, m')
]

-- stack_vars[p.first][p.second].second
unfoldable pub var_at : List Frame → Position → Outcome Lvalue
var_at frames (n, i) = elim (at frames n) [
  | none ↦ undefined
  | some frame ↦ elim (at frame i) [ none ↦ undefined | some (name, loc) ↦ ok loc ]
]

-- The lookup of a variable in eval_lexpr: `none` where the name is on no frame. The deque of a
-- name is not empty, or back() is undefined.
unfoldable pub find_stack_var : String → Scopes → Outcome (Option Lvalue)
find_stack_var name s = elim (s.stack_var_map name) [
  | none ↦ ok none
  | some [] ↦ undefined
  | some (p ∷ ps) ↦ var_at s.stack_vars p >>= λ loc. ok (some loc)
]

-- ===== src/Tests/Stack.antt =====
-- The scopes of mem.cpp on concrete inputs: two frames that both declare `x`.
use ctutor.Base.{ℕ, ◌≡◌, refl, none, some, [], ◌∷◌, ◌==◌, if◌then◌else◌}
use ctutor.Outcome.{ok, ◌>>=◌}
use ctutor.Types.QualType.{int_type}
use ctutor.Types.Enums.{stack}
use ctutor.Rbtree.Heap
use ctutor.Mem.Block.{Block, Memory, initial}
use ctutor.Mem.Stack.{Lvalue, Frame, Scopes, add_stack_var, pop_stack_frame, find_stack_var}
use ctutor.Mem.Stack.Scope.{positions, entry, Agrees, add_stack_var-Agrees}
use ctutor.Mem.Stack.Pop.{free_all, pop_stack_frame-Agrees}
use ctutor.Mem.Stack.Lookup.{newest, newest_in, find_stack_var-newest}

abbrev place : ℕ → Lvalue
place b = record { block = some b; type = int_type; offset = 0 }

abbrev inner : Frame
inner = ("x", place 4) ∷ []

abbrev outer : Frame
outer = ("y", place 5) ∷ ("x", place 3) ∷ []

abbrev inner_block : Block
inner_block = record {
  id = 4;
  size = 2;
  memtype = stack;
  bytes = some (1 ∷ 2 ∷ []);
  firsttag = Heap.null;
  tags = Heap.empty;
}

abbrev memory : Memory
memory = record initial {
  blocks = λ j. if 4 == j then some inner_block else none;
  active = λ j. j == 4;
}

abbrev scopes : Scopes
scopes = record {
  stack_vars = inner ∷ outer ∷ [];
  stack_var_map = λ name. entry (positions name (inner ∷ outer ∷ []));
}

scopes-Agrees : Agrees scopes
scopes-Agrees name = refl

add_stack_var-Agrees_example :
    (s' : Scopes) × (add_stack_var "y" (place 6) scopes ≡ ok s')
    × (s'.stack_vars ≡ (("y", place 6) ∷ inner) ∷ outer ∷ [])
    × Agrees s'
add_stack_var-Agrees_example =
    add_stack_var-Agrees "y" (place 6) scopes inner (outer ∷ []) refl scopes-Agrees

pop_stack_frame-Agrees_example :
    (s' : Scopes) × (pop_stack_frame scopes memory ≡ (free_all inner memory >>= λ m'. ok (s', m')))
    × (s'.stack_vars ≡ outer ∷ [])
    × Agrees s'
pop_stack_frame-Agrees_example =
    pop_stack_frame-Agrees scopes inner (outer ∷ []) memory refl scopes-Agrees

find_stack_var-newest_example : find_stack_var "x" scopes ≡ ok (some (place 4))
unfolding newest newest_in
find_stack_var-newest_example = find_stack_var-newest "x" scopes scopes-Agrees

-- ===== src/Exec/Invariants.antt =====
-- Invariants of the interpreter, from what holds of the three ways to change the memory: a new block,
-- a change of a block, and a deletion.
use Prim.Native.String.{String}
use ctutor.Base.{
  ℕ, ◌%◌, ◌<◌, ◌≡◌, refl, sym, ap, subst, ◌∙◌, Option, none, some, List, [], ◌∷◌, arith,
}
use ctutor.Outcome.{Outcome, ok, exits, undefined, out_of_fuel, ◌>>=◌, >>=-ok_parts, ok-injective}
use ctutor.Types.Enums.{MemType}
use ctutor.Types.EmuVal
use ctutor.Types.EmuVal.{EmuVal}
use ctutor.Mem.Tag.{size_t}
use ctutor.Mem.Block
use ctutor.Mem.Block.{
  Block, Memory, put, deref, alive, data_of, write_block, new_block, new_block_with, delete_block,
  free,
}
use ctutor.Mem.Block.Invariant.{IsValid, replace-IsValid, new_block-IsValid, delete_block-IsValid}
use ctutor.Mem.Stack.{Lvalue, Frame, Scopes, free_block, pop_stack_frame, add_stack_var}
use ctutor.Mem.Stack.Scope.{Agrees, add_stack_frame-Agrees, add_stack_var-Agrees}
use ctutor.Mem.Stack.Pop.{free_all, pop_stack_frame-Agrees}
use ctutor.Exec.{
  State, Host, with_memory, with_both, with_scopes, on_memory, push_frame, pop_frame, declare, asks,
}
use ctutor.Exec.Blocks.{
  store_in, set_memtype_in, delete_in, write_in, alloc, alloc_with, write, store_bytes, set_memtype,
}
use ctutor.Exec.Steps.{Changed, Step, write-Step, free-Step, store_in-Step, set_memtype_in-Step}
use ctutor.Exec.Refines.{Leaves, Invariant}

-- What is asked of a predicate on memories with the invariant of the blocks.
pub record MemoryInvariant (h : Host) : Type 1 where
  pub Holds : Memory → Type 0
  pub created :
      (t : MemType) (n i : ℕ) (m m' : Memory)
      → n < size_t
      → IsValid m
      → Holds m
      → new_block h.fill t n m ≡ ok (i, m')
      → Holds m'
  pub changed :
      (m : Memory) (i : ℕ) (b b' : Block)
      → IsValid m
      → Holds m
      → m.blocks i ≡ some b
      → Changed b b'
      → Holds (put m i (some b'))
  pub deleted : (i : ℕ) (m m' : Memory) → IsValid m → Holds m → delete_block i m ≡ ok m' → Holds m'

-- A valid memory with the predicate.
module _ {h : Host} (mi : MemoryInvariant h) where
  abbrev pub Fine : Memory → Type 0
  Fine m = IsValid m × mi.Holds m

  pub Step-Fine : (m m' : Memory) → Fine m → Step m m' → Fine m'
  Step-Fine m m' (v, g) (i, b, b', here, c, e) =
      let s = v.stored i b here in
      subst Fine e (
        replace-IsValid m i b b' v here (record {
          id = c.id ∙ s.id;
          above = s.above;
          below = s.below;
          small = rw c.size s.small;
          sized =
              λ new n. let (old, had, same) = c.bytes new n in same ∙ s.sized old had ∙ sym c.size;
        }),
        mi.changed m i b b' v g here c,
      )

  new_block-Fine :
      (t : MemType) (n i : ℕ) (m m' : Memory)
      → n < size_t
      → Fine m
      → new_block h.fill t n m ≡ ok (i, m')
      → Fine m'
  new_block-Fine t n i m m' small (v, g) e =
      ((new_block-IsValid h.fill t n m m' i v small e).0, mi.created t n i m m' small v g e)

  pub new_block_with-Fine :
      (t : MemType) (obj : EmuVal) (i : ℕ) (m m' : Memory)
      → Fine m
      → new_block_with h.ops h.fill t obj m ≡ ok (i, m')
      → Fine m'
  unfolding new_block_with
  new_block_with-Fine t obj i m m' g e =
      let (n, sized, rest) = >>=-ok_parts (EmuVal.size obj) _ e in
      let ((j, m1), made, more) = >>=-ok_parts (new_block h.fill t (n % size_t) m) _ rest in
      let (m2, wrote, last) = >>=-ok_parts (Block.write h.ops j obj 0 m1) _ more in
      let g1 : Fine m1 = new_block-Fine t (n % size_t) j m m1 (omega arith) g made in
      subst Fine (ap (λ (r : ℕ × Memory). r.1) (ok-injective last))
        (Step-Fine m1 m2 g1 (write-Step h.ops j obj 0 m1 m2 g1.0 wrote))

  delete-Fine : (i : ℕ) (m m' : Memory) → Fine m → delete_block i m ≡ ok m' → Fine m'
  delete-Fine i m m' (v, g) e = (delete_block-IsValid i m m' v e, mi.deleted i m m' v g e)

  free_var : (m m' : Memory) (b : Option ℕ) → Fine m → free_block b m ≡ ok m' → Fine m'
  unfolding free_block
  free_var m m' none g e = cc
  free_var m m' (some i) g e = Step-Fine m m' g (free-Step i m m' e)

  free_all-Fine : (vs : Frame) (m m' : Memory) → Fine m → free_all vs m ≡ ok m' → Fine m'
  unfolding free_all
  free_all-Fine [] m m' g e = subst Fine (ok-injective e) g
  free_all-Fine ((name, loc) ∷ vs) m m' g e =
      let (m1, done, last) = >>=-ok_parts (free_all vs m) _ e in
      let g1 = free_all-Fine vs m m1 g done in free_var m1 m' loc.block g1 last

  -- The invariant of the interpreter that goes with the predicate.
  abbrev pub AllFine : Memory → Scopes → Type 0
  AllFine m c = Fine m × Agrees c

  with_memory-Leaves :
      {A : Type 0} (r : Outcome (A × Memory)) (s : State)
      → Agrees s.scopes
      → ((a : A) (m' : Memory) → r ≡ ok (a, m') → Fine m')
      → Leaves (λ s'. AllFine s'.memory s'.scopes) (with_memory r s)
  unfolding Leaves
  with_memory-Leaves (ok (a, m')) s c k = (k a m' refl, c)
  with_memory-Leaves (exits e) s c k = tt
  with_memory-Leaves undefined s c k = tt
  with_memory-Leaves out_of_fuel s c k = tt

  pub with_scopes-Leaves :
      (r : Outcome Scopes) (s : State)
      → Fine s.memory
      → ((c : Scopes) → r ≡ ok c → Agrees c)
      → Leaves (λ s'. AllFine s'.memory s'.scopes) (with_scopes r s)
  unfolding Leaves
  with_scopes-Leaves (ok c) s g k = (g, k c refl)
  with_scopes-Leaves (exits e) s g k = tt
  with_scopes-Leaves undefined s g k = tt
  with_scopes-Leaves out_of_fuel s g k = tt

  with_both-Leaves :
      (r : Outcome Memory) (c : Scopes) (s : State)
      → Agrees c
      → ((m : Memory) → r ≡ ok m → Fine m)
      → Leaves (λ s'. AllFine s'.memory s'.scopes) (with_both (r >>= λ m. ok (c, m)) s)
  unfolding Leaves
  with_both-Leaves (ok m) c s a k = (k m refl, a)
  with_both-Leaves (exits e) c s a k = tt
  with_both-Leaves undefined c s a k = tt
  with_both-Leaves out_of_fuel c s a k = tt

  pub on_memory-Leaves :
      {A : Type 0} (f : Memory → Outcome (A × Memory)) (s : State)
      → AllFine s.memory s.scopes
      → ((a : A) (m' : Memory) → f s.memory ≡ ok (a, m') → Fine m')
      → Leaves (λ s'. AllFine s'.memory s'.scopes) (on_memory f s)
  unfolding on_memory
  on_memory-Leaves f s g k = with_memory-Leaves (f s.memory) s g.1 k

  pub alloc-Leaves :
      (t : MemType) (n : ℕ) (s : State)
      → AllFine s.memory s.scopes
      → Leaves (λ s'. AllFine s'.memory s'.scopes) (alloc h t n s)
  unfolding alloc
  alloc-Leaves t n s g =
      on_memory-Leaves (new_block h.fill t (n % size_t)) s g
        λ i m' e. new_block-Fine t (n % size_t) i s.memory m' (omega arith) g.0 e

  pub write-Leaves :
      (b : Option ℕ) (v : EmuVal) (n : ℕ) (s : State)
      → AllFine s.memory s.scopes
      → Leaves (λ s'. AllFine s'.memory s'.scopes) (write h b v n s)
  unfolding write write_in asks Leaves
  write-Leaves none v n s g = tt
  write-Leaves (some i) v n s g = on_memory-Leaves (write_in h i v n) s g λ u m' e.
      let (m1, wrote, last) =
        >>=-ok_parts (Block.write h.ops i v n s.memory) (λ m. ok (tt {0}, m)) e in
      subst Fine (ap (λ (r : Unit {0} × Memory). r.1) (ok-injective last))
        (Step-Fine s.memory m1 g.0 (write-Step h.ops i v n s.memory m1 g.0.0 wrote))

  pub store-Leaves :
      (b : Option ℕ) (n : ℕ) (bytes : List ℕ) (s : State)
      → AllFine s.memory s.scopes
      → Leaves (λ s'. AllFine s'.memory s'.scopes) (store_bytes b n bytes s)
  unfolding store_bytes asks Leaves
  store-Leaves none n bytes s g = tt
  store-Leaves (some i) n bytes s g =
      on_memory-Leaves (store_in i n bytes) s g
        λ u m' e. Step-Fine s.memory m' g.0 (store_in-Step i n bytes s.memory m' e)

  pub delete-Leaves :
      (b : ℕ) (s : State)
      → AllFine s.memory s.scopes
      → Leaves (λ s'. AllFine s'.memory s'.scopes) (on_memory (delete_in b) s)
  unfolding delete_in
  delete-Leaves b s g = on_memory-Leaves (delete_in b) s g λ u m' e.
      let (m1, done, last) = >>=-ok_parts (delete_block b s.memory) (λ m. ok (tt {0}, m)) e in
      subst Fine (ap (λ (r : Unit {0} × Memory). r.1) (ok-injective last))
        (delete-Fine b s.memory m1 g.0 done)

  pub pop-Leaves :
      (s : State) (frames : List Frame)
      → s.scopes.stack_vars ≡ frames
      → AllFine s.memory s.scopes
      → Leaves (λ s'. AllFine s'.memory s'.scopes) (with_both (pop_stack_frame s.scopes s.memory) s)
  unfolding pop_stack_frame Leaves
  pop-Leaves s [] e g = rw e tt
  pop-Leaves s (f ∷ fs) e g =
      let (c, run, _, a) = pop_stack_frame-Agrees s.scopes f fs s.memory e g.1 in
      subst (λ r. Leaves (λ s'. AllFine s'.memory s'.scopes) (with_both r s)) (sym run)
        (with_both-Leaves (free_all f s.memory) c s a (λ m e. free_all-Fine f s.memory m g.0 e))

  pub declare-Agrees :
      (name : String) (l : Lvalue) (c c' : Scopes) (frames : List Frame)
      → c.stack_vars ≡ frames
      → Agrees c
      → add_stack_var name l c ≡ ok c'
      → Agrees c'
  unfolding add_stack_var
  declare-Agrees name l c c' [] e a run = cc (rw e at run)
  declare-Agrees name l c c' (f ∷ fs) e a run =
      let (d, ran, _, b) = add_stack_var-Agrees name l c f fs e a in
      subst Agrees (ok-injective (sym ran ∙ run)) b

  -- It is kept by every operation of mem.cpp.
  unfoldable pub with_predicate : Invariant h
  unfolding alloc_with set_memtype push_frame pop_frame declare Leaves
  with_predicate = record {
    Holds = AllFine;
    alloc = alloc-Leaves;
    alloc_with = λ t v s g.
        on_memory-Leaves (new_block_with h.ops h.fill t v) s g
          λ i m' e. new_block_with-Fine t v i s.memory m' g.0 e;
    write = write-Leaves;
    store = store-Leaves;
    memtype = λ b t s g.
        on_memory-Leaves (set_memtype_in b t) s g
          λ u m' e. Step-Fine s.memory m' g.0 (set_memtype_in-Step b t s.memory m' e);
    delete = delete-Leaves;
    push = λ s g. (g.0, add_stack_frame-Agrees s.scopes g.1);
    pop = λ s g. pop-Leaves s s.scopes.stack_vars refl g;
    declare = λ name l s g.
        with_scopes-Leaves _ s g.0
          λ c e. declare-Agrees name l s.scopes c s.scopes.stack_vars refl g.1 e;
  }
